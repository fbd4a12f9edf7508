-- ===== src/Pzsvc/Job/Laws.antt =====
-- What polling adds to the trace.
use pzsvc_exec.Prelude.{ℕ, zero, suc, String, ◌<>◌, Bool, true, false, Option}
use pzsvc_exec.Host.{Host, Go, Event, Outcome, ret, panic, logged, sent, slept}
use pzsvc_exec.Host.Adds.{Adds, adds_rules, Adds-crash}
use pzsvc_exec.Pzsvc.Model.{Session, DataResult}
use pzsvc_exec.Pzsvc.CustomError.{PzCustomError}
use pzsvc_exec.Pzsvc.Json.{PzJson}
use pzsvc_exec.Pzsvc.Log.Laws.{log_audit-Adds}
use pzsvc_exec.Pzsvc.Http.{json_request}
use pzsvc_exec.Pzsvc.Http.Laws.{request_known_json-Adds}
use pzsvc_exec.Pzsvc.Job.{poll_round, poll_job, get_job_response, settle}

Adds-settle {ℓ} :
    {A : Type ℓ} {Q : Event → Type 0} (o : Outcome Bool) (m n : Go A)
    → Adds Q m
    → Adds Q n
    → Adds Q (settle o m n)
Adds-settle panic m n hm hn = Adds-crash
Adds-settle (ret true) m n hm hn = hm
Adds-settle (ret false) m n hm hn = hn

module _ (host : Host) (json : PzJson) {Q : Event → Type 0} (q : (line : String) → Q (logged line))
    (w : Q (slept 1)) where
  module _ (s : Session) (id : String)
      (r : Q (sent (json_request "GET" "" (s.pz_addr <> "/job/" <> id) s.pz_auth))) where
    poll_round-Adds :
        (m : Go (Option DataResult × Option PzCustomError))
        → Adds Q m
        → Adds Q (poll_round host json s id m)
    unfolding poll_round
    poll_round-Adds m h =
        search
          (
            adds_rules,
            Adds-settle,
            log_audit-Adds host {Q = Q} q s,
            request_known_json-Adds host {Q = Q},
          )
          depth 9

    poll_job-Adds : (n : ℕ) → Adds Q (poll_job host json s id n)
    unfolding poll_job
    poll_job-Adds zero = search adds_rules
    poll_job-Adds (suc n) = poll_round-Adds _ (poll_job-Adds n)

    pub get_job_response-Adds : Adds Q (get_job_response host json s id)
    unfolding get_job_response
    get_job_response-Adds = search (adds_rules, poll_job-Adds)
