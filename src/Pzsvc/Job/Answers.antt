-- ===== src/Pzsvc/Job/Answers.antt =====
-- What a finished wait for a job answers with, and where it panics.
use pzsvc_exec.Prelude.{
  ℕ, zero, suc, String, ◌<>◌, ◌==◌, Bool, true, false, Option, none, some, ◌≡◌, refl, arith, eq_iff,
}
use pzsvc_exec.Host.{Host, Go, Trace, Outcome, ret, panic}
use pzsvc_exec.Host.Returns.{Returns, Returns-pure, Returns-crash, returns_rules}
use pzsvc_exec.Pzsvc.Model.{Session, DataResult, JobStatusResp}
use pzsvc_exec.Pzsvc.Json.{PzJson}
use pzsvc_exec.Pzsvc.Log.{log_audit}
use pzsvc_exec.Pzsvc.CustomError.{PzCustomError}
use pzsvc_exec.Pzsvc.Http.{request_known_json}
use pzsvc_exec.Pzsvc.Job.{must_wait, conclude, settle, poll_round, poll_job, get_job_response}

-- A result without an error, or an error without a result.
abbrev pub IsDecided : Option DataResult × Option PzCustomError → Type 0
IsDecided (some d, none) = Unit
IsDecided (none, some e) = Unit
IsDecided (some d, some e) = ⊥
IsDecided (none, none) = ⊥

conclude-IsDecided :
    (r : JobStatusResp) (buf : String) → must_wait r ≡ ret false → IsDecided (conclude r buf)
unfolding must_wait conclude
conclude-IsDecided r buf h =
    ground (arith, eq_iff r.status "Success", eq_iff r.status "Error", eq_iff r.status "Fail")

pub Returns-settle {ℓ} :
    {A : Type ℓ} {P : A → Type 0} (o : Outcome Bool) (m k : Go A)
    → Returns P m
    → (o ≡ ret false → Returns P k)
    → Returns P (settle o m k)
Returns-settle panic m k hm hk = Returns-crash
Returns-settle (ret true) m k hm hk = hm
Returns-settle (ret false) m k hm hk = hk refl

module _ (host : Host) (json : PzJson) (s : Session) (id : String) where
  poll_round-IsDecided :
      (m : Go (Option DataResult × Option PzCustomError))
      → Returns IsDecided m
      → Returns IsDecided (poll_round host json s id m)
  unfolding poll_round
  poll_round-IsDecided m h = search (returns_rules, Returns-settle, conclude-IsDecided) depth 12

  poll_job-IsDecided : (n : ℕ) → Returns IsDecided (poll_job host json s id n)
  unfolding poll_job
  poll_job-IsDecided zero = Returns-pure _ tt
  poll_job-IsDecided (suc n) = poll_round-IsDecided _ (poll_job-IsDecided n)

  -- Whenever the wait for a job returns, it returns a result without an error or an error without
  -- a result.
  pub get_job_response-IsDecided :
      (t : Trace) (r : Option DataResult × Option PzCustomError)
      → (get_job_response host json s id t).0 ≡ ret r
      → IsDecided r
  unfolding get_job_response
  get_job_response-IsDecided =
      let h : Returns IsDecided (get_job_response host json s id) =
        search (returns_rules, poll_job-IsDecided) in
      h.at

  must_wait_panics :
      (r : JobStatusResp) → r.status ≡ "Error" → r.result ≡ none → must_wait r ≡ panic
  unfolding must_wait
  must_wait_panics r st res = rw (st, res)

  poll_round_panics :
      (m : Go (Option DataResult × Option PzCustomError)) (t t' : Trace) (r : JobStatusResp)
      (buf : String)
      → s.log_audit ≡ false
      → request_known_json host "GET" "" (s.pz_addr <> "/job/" <> id) s.pz_auth json.job_status t
        ≡ (ret (r, buf, none), t')
      → must_wait r ≡ panic
      → (poll_round host json s id m t).0 ≡ panic
  unfolding poll_round log_audit
  poll_round_panics m t t' r buf quiet reply stop = rw (quiet, reply, stop) refl

  -- A first reply with the status "Error" and no result ends the program: the code reads the
  -- message of a nil result. The session has no audit log and the job ID is not empty.
  get_job_response_panics :
      (t t' : Trace) (r : JobStatusResp) (buf : String)
      → s.log_audit ≡ false
      → (id == "") ≡ false
      → request_known_json host "GET" "" (s.pz_addr <> "/job/" <> id) s.pz_auth json.job_status t
        ≡ (ret (r, buf, none), t')
      → r.status ≡ "Error"
      → r.result ≡ none
      → (get_job_response host json s id t).0 ≡ panic
  unfolding get_job_response poll_job
  get_job_response_panics t t' r buf quiet named reply st res =
      rw named (poll_round_panics _ t t' r buf quiet reply (must_wait_panics r st res))
