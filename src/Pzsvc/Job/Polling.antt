-- ===== src/Pzsvc/Job/Polling.antt =====
-- How long the polling of a job goes on, and what it answers with.
use pzsvc_exec.Prelude.{
  ℕ, zero, suc, ◌+◌, ◌≤◌, String, Bool, true, false, Option, ◌≡◌, refl, arith, count,
}
use pzsvc_exec.Host.{Host, Go, Event, Trace, Outcome, ret, panic, is_sent}
use pzsvc_exec.Host.Adds.{adds_rules}
use pzsvc_exec.Host.Counts.{
  AtMost, AtMost-after, AtMost-bind, AtMost-pure, AtMost-weaken, AtMost-crash, at_most_rules,
}
use pzsvc_exec.Pzsvc.Model.{Session, DataResult}
use pzsvc_exec.Pzsvc.Json.{PzJson}
use pzsvc_exec.Pzsvc.Log.Laws.{log_audit-Adds}
use pzsvc_exec.Pzsvc.CustomError.{PzCustomError}
use pzsvc_exec.Pzsvc.Http.Counts.{request_known_json-AtMost}
use pzsvc_exec.Pzsvc.Job.{settle, poll_round, poll_job, get_job_response}

abbrev NotSent : Event → Type 0
NotSent e = is_sent e ≡ false

AtMost-settle {ℓ} :
    {A : Type ℓ} {n : ℕ} (o : Outcome Bool) (m k : Go A)
    → AtMost is_sent n m
    → AtMost is_sent n k
    → AtMost is_sent n (settle o m k)
AtMost-settle panic m k hm hk = AtMost-crash
AtMost-settle (ret true) m k hm hk = hm
AtMost-settle (ret false) m k hm hk = hk

module _ (host : Host) (json : PzJson) (s : Session) (id : String) where
  poll_round-AtMost :
      (n : ℕ) (m : Go (Option DataResult × Option PzCustomError))
      → AtMost is_sent n m
      → AtMost is_sent (1 + n) (poll_round host json s id m)
  unfolding poll_round
  poll_round-AtMost n m h = AtMost-after _ _ (log_audit-Adds host (λ l. refl) s _ _ _ _ _) (λ _.
      AtMost-bind 1 n _ _ (request_known_json-AtMost host _ _ _ _ _) (λ (obj, buf, e).
        search
          (
            at_most_rules,
            AtMost-settle,
            adds_rules,
            log_audit-Adds host {Q = NotSent} (λ l. refl) s,
          )
          depth 9))

  poll_job-AtMost : (n : ℕ) → AtMost is_sent n (poll_job host json s id n)
  unfolding poll_job
  poll_job-AtMost zero = AtMost-pure _
  poll_job-AtMost (suc n) =
      AtMost-weaken (1 + n) _ (omega arith) (poll_round-AtMost n _ (poll_job-AtMost n))

  -- Waiting for a job sends at most 300 requests, whatever Piazza answers.
  pub get_job_response_bounded :
      (t : Trace) → count is_sent (get_job_response host json s id t).1 ≤ count is_sent t + 300
  unfolding get_job_response
  get_job_response_bounded =
      let h : AtMost is_sent 300 (get_job_response host json s id) =
        search (at_most_rules, poll_job-AtMost) in
      h.at
