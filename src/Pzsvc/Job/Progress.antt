-- ===== src/Pzsvc/Job/Progress.antt =====
-- pzsvc/http.go: what GetJobResponse makes of a sequence of replies.
use pzsvc_exec.Prelude.{
  ℕ, zero, suc, ◌<◌, String, ◌<>◌, ◌==◌, false, true, Option, none, some, ◌∷◌, ◌≡◌, ◌∙◌, refl,
  arith,
}
use pzsvc_exec.Host.{Host, Go, Trace, ret, slept}
use pzsvc_exec.Pzsvc.Model.{Session, DataResult, JobStatusResp}
use pzsvc_exec.Pzsvc.Json.{PzJson}
use pzsvc_exec.Pzsvc.Log.{log_audit, info_level}
use pzsvc_exec.Pzsvc.CustomError.{PzCustomError, with_log_msg}
use pzsvc_exec.Pzsvc.Http.{request_known_json}
use pzsvc_exec.Pzsvc.Job.{must_wait, conclude, poll_round, poll_job, get_job_response}

module _ (host : Host) (json : PzJson) (s : Session) (id : String) where
  abbrev address : String
  address = s.pz_addr <> "/job/" <> id

  -- One request for the job's status, between its lines in the audit log, is answered with this.
  pub record Replies (t : Trace) (r : JobStatusResp) (buf : String) (t' : Trace) : Type 0 where
    pub before : Trace
    pub after : Trace
    pub asks :
        log_audit host s s.user_id "http call - Checking job status - request" address "" info_level
          t
        ≡ (ret tt, before)
    pub answers :
        request_known_json host "GET" "" address s.pz_auth json.job_status before
        ≡ (ret (r, buf, none), after)
    pub notes :
        log_audit host s address "http call - Checking job status - response" s.user_id buf
          info_level after
        ≡ (ret tt, t')

  -- So many replies come that are waited for, one second after each.
  pub data Waits : Trace → ℕ → Trace → Type 0 where
    at_once : {t : Trace} → Waits t zero t
    and_again :
        {t t' t'' : Trace} {r : JobStatusResp} {buf : String} {n : ℕ}
        → Replies t r buf t'
        → must_wait r ≡ ret true
        → Waits (slept 1 ∷ t') n t''
        → Waits t (suc n) t''

  round_again :
      {t t' : Trace} {r : JobStatusResp} {buf : String}
      (m : Go (Option DataResult × Option PzCustomError))
      → Replies t r buf t'
      → must_wait r ≡ ret true
      → poll_round host json s id m t ≡ m (slept 1 ∷ t')
  unfolding poll_round
  round_again m h w = rw (h.asks, h.answers, h.notes, w) refl

  round_done :
      {t t' : Trace} {r : JobStatusResp} {buf : String}
      (m : Go (Option DataResult × Option PzCustomError))
      → Replies t r buf t'
      → must_wait r ≡ ret false
      → poll_round host json s id m t ≡ (ret (conclude r buf), t')
  unfolding poll_round
  round_done m h w = rw (h.asks, h.answers, h.notes, w) refl

  poll_arrives :
      {t t' t'' : Trace} {r : JobStatusResp} {buf : String} {n : ℕ} (m : ℕ)
      → Waits t n t'
      → n < m
      → Replies t' r buf t''
      → must_wait r ≡ ret false
      → poll_job host json s id m t ≡ (ret (conclude r buf), t'')
  unfolding poll_job
  poll_arrives zero w less h done = absurd (omega (arith, less))
  poll_arrives (suc m) at_once less h done = round_done _ h done
  poll_arrives (suc m) (and_again k again w) less h done =
      round_again _ k again ∙ poll_arrives m w (omega (arith, less)) h done

  poll_gives_up :
      {t t' : Trace} {n : ℕ}
      → Waits t n t'
      → poll_job host json s id n t
        ≡ (ret (none, some (with_log_msg ("Job never completed.  JobId: " <> id))), t')
  unfolding poll_job
  poll_gives_up at_once = refl
  poll_gives_up (and_again k again w) = round_again _ k again ∙ poll_gives_up w

  -- How the wait ends after them: with a reply that is not waited for, or at the last of 300.
  pub data Settles : ℕ → Trace → Option DataResult × Option PzCustomError → Trace → Type 0 where
    decides :
        {t t' : Trace} {r : JobStatusResp} {buf : String} {n : ℕ}
        → n < 300
        → Replies t r buf t'
        → must_wait r ≡ ret false
        → Settles n t (conclude r buf) t'
    gives_up :
        {t : Trace} {n : ℕ}
        → n ≡ 300
        → Settles n t (none, some (with_log_msg ("Job never completed.  JobId: " <> id))) t

  settled :
      {t t' t'' : Trace} {n : ℕ} {a : Option DataResult × Option PzCustomError}
      → Waits t n t'
      → Settles n t' a t''
      → poll_job host json s id 300 t ≡ (ret a, t'')
  settled w (decides less h done) = poll_arrives 300 w less h done
  settled w (gives_up {n = n} e) = rw (← e) (poll_gives_up w)

  -- For a job that is named, where fewer than 300 replies come that are waited for and then one that
  -- is not, the wait returns what that reply says; where 300 such replies come, it returns that the
  -- job was never completed. It sends nothing more.
  pub get_job_response-Settles :
      {t t' t'' : Trace} {n : ℕ} {a : Option DataResult × Option PzCustomError}
      → (id == "") ≡ false
      → Waits t n t'
      → Settles n t' a t''
      → get_job_response host json s id t ≡ (ret a, t'')
  unfolding get_job_response
  get_job_response-Settles named w h = rw named (settled w h)
