-- ===== src/Pzsvc/ExecResult/Laws.antt =====
-- What reporting adds to the trace.
use pzsvc_exec.Prelude.{String, ◌<>◌, Option}
use pzsvc_exec.Host.{Host, Event, logged, sent, slept}
use pzsvc_exec.Host.Adds.{Adds, adds_rules}
use pzsvc_exec.Pzsvc.Model.{Session}
use pzsvc_exec.Pzsvc.Json.{PzJson}
use pzsvc_exec.Pzsvc.Log.Laws.{log_info-Adds}
use pzsvc_exec.Pzsvc.Http.{json_request}
use pzsvc_exec.Pzsvc.Http.Laws.{submit_single_part-Adds}
use pzsvc_exec.Pzsvc.File.Laws.{IngestRequests, ingest-Adds}
use pzsvc_exec.Pzsvc.ExecResult.{send_exec_result_no_data, send_exec_result_data}

module _ (host : Host) (json : PzJson) (s : Session) {Q : Event → Type 0}
    (q : (line : String) → Q (logged line))
    (jr : (method body url : String) → Q (sent (json_request method body url s.pz_auth))) where
  pub send_exec_result_no_data-Adds :
      (addr svc job status : String)
      → Adds Q (send_exec_result_no_data host json s addr svc job status)
  unfolding send_exec_result_no_data
  send_exec_result_no_data-Adds addr svc job status =
      search (adds_rules, log_info-Adds host {Q = Q} q s, submit_single_part-Adds host {Q = Q}, jr)
        depth 9

module _ (host : Host) (json : PzJson) (s : Session) {Q : Event → Type 0}
    (q : (line : String) → Q (logged line)) where
  -- The report is one request to the address of the task, and the rest is the ingest's.
  pub send_exec_result_data-Adds :
      Q (slept 1)
      → IngestRequests Q host s
      → (addr svc job : String)
      → ((body : String)
          → Q (
              sent (
                json_request "POST" body
                  (addr <> "/service/" <> svc <> "/task/" <> job)
                  s.pz_auth)))
      → (status : String) (b : Option String)
      → Adds Q (send_exec_result_data host json s addr svc job status b)
  unfolding send_exec_result_data
  send_exec_result_data-Adds w i addr svc job report status b =
      search
        (
          adds_rules,
          log_info-Adds host {Q = Q} q s,
          submit_single_part-Adds host {Q = Q},
          report,
          ingest-Adds host json s {Q = Q} q w i,
        )
        depth 9
