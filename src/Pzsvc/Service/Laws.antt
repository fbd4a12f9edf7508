-- ===== src/Pzsvc/Service/Laws.antt =====
-- Registration talks to the session's Piazza only, and what it answers with.
use pzsvc_exec.Prelude.{String, ◌<>◌}
use pzsvc_exec.Host.{Host, Event, logged, sent}
use pzsvc_exec.Host.Adds.{Adds, adds_rules}
use pzsvc_exec.Pzsvc.Model.{Session, Service}
use pzsvc_exec.Pzsvc.Json.{PzJson}
use pzsvc_exec.Pzsvc.Log.Laws.{log_info-Adds, log_audit-Adds, log_audit_response-Adds}
use pzsvc_exec.Pzsvc.CustomError.Laws.{log-Adds}
use pzsvc_exec.Pzsvc.Http.{json_request}
use pzsvc_exec.Pzsvc.Http.Laws.{
  submit_single_part-Adds, request_known_json-Adds, ToPiazza, json_request-ToPiazza,
}
use pzsvc_exec.Pzsvc.Service.{find_my_svc, submit_registration, manage_registration}

module _ (host : Host) (json : PzJson) (s : Session) {Q : Event → Type 0}
    (q : (line : String) → Q (logged line))
    (jr : (method body path : String)
      → Q (sent (json_request method body (s.pz_addr <> path) s.pz_auth))) where
  pub find_my_svc-Adds : (name : String) → Adds Q (find_my_svc host json s name)
  unfolding find_my_svc
  find_my_svc-Adds name =
      search
        (
          adds_rules,
          log_audit-Adds host {Q = Q} q s,
          log-Adds host {Q = Q} q s,
          request_known_json-Adds host {Q = Q},
          jr,
        )
        depth 12

  submit_registration-Adds : (id body : String) → Adds Q (submit_registration host json s id body)
  unfolding submit_registration
  submit_registration-Adds id body =
      search
        (
          adds_rules,
          log_info-Adds host {Q = Q} q s,
          log_audit-Adds host {Q = Q} q s,
          log_audit_response-Adds host {Q = Q} q s,
          submit_single_part-Adds host {Q = Q},
          jr,
        )
        depth 12

  pub manage_registration-Adds : (svc : Service) → Adds Q (manage_registration host json s svc)
  unfolding manage_registration
  manage_registration-Adds svc =
      search
        (
          adds_rules,
          log_info-Adds host {Q = Q} q s,
          log-Adds host {Q = Q} q s,
          find_my_svc-Adds,
          submit_registration-Adds,
        )
        depth 12

-- Every request of a registration, the search for the service included, goes to the session's
-- Piazza and carries the session's authorization.
pub manage_registration-ToPiazza :
    (host : Host) (json : PzJson) (s : Session) (svc : Service)
    → Adds (ToPiazza s) (manage_registration host json s svc)
manage_registration-ToPiazza host json s =
    manage_registration-Adds host json s {Q = ToPiazza s} (λ line. tt) (json_request-ToPiazza s)
