-- ===== src/Pzsvc/ExecResult.antt =====
-- pzsvc/execresult.go: reporting the result of a job to Piazza.
pub mod Laws
use pzsvc_exec.Prelude.{String, ◌<>◌, Option, none, some, [], Map}
use pzsvc_exec.Host.{Host, Go, GoError, Try, pure, on_nil, on_error, ◌>>=◌, ◌>>◌}
use pzsvc_exec.Pzsvc.Model.{Session, piazza_status_fail}
use pzsvc_exec.Pzsvc.Status.{StatusUpdate, StatusResult}
use pzsvc_exec.Pzsvc.Json.{PzJson}
use pzsvc_exec.Pzsvc.Log.{log_info}
use pzsvc_exec.Pzsvc.CustomError.{PzCustomError}
use pzsvc_exec.Pzsvc.Http.{submit_single_part}
use pzsvc_exec.Pzsvc.File.{ingest}

-- The status that is sent: of a job whose output could not be stored it is a failure.
unfoldable pub status_update : String → Try String → StatusUpdate
status_update status r =
    on_error r (λ e. record { status = piazza_status_fail; result = none })
      (λ data_id. record {
        status = status;
        result = some (record { type_name = "data"; data_id = data_id });
      })

module _ (host : Host) (json : PzJson) (s : Session) where
  unfoldable pub send_exec_result_no_data :
      (pz_addr svc_id job_id status : String) → Go (Option PzCustomError)
  send_exec_result_no_data pz_addr svc_id job_id status = do
    let out_addr = pz_addr <> "/service/" <> svc_id <> "/task/" <> job_id
    log_info host s
        ("Sending exec results, no body data. URL=" <> out_addr <> " Status=" <> status <> " ")
    let out_json = json.encode_status (record { status = status; result = none })
    (_, e) ← submit_single_part host "POST" out_json out_addr s.pz_auth
    pure e

  unfoldable pub send_exec_result_data :
      (pz_addr svc_id job_id status : String) → Option String → Go (Option PzCustomError)
  unfolding status_update
  send_exec_result_data pz_addr svc_id job_id status result_data = do
    let out_addr = pz_addr <> "/service/" <> svc_id <> "/task/" <> job_id
    log_info host s
        ("Sending exec results, with body data. URL=" <> out_addr <> " Status=" <> status <> " ")
    log_info host s "Sending exec result: Ingesting body data..."
    r ← ingest host json s "Output" "text" "pzsvc-taskworker" "" result_data []
    on_error r (λ e. log_info host s "Sending exec result: Ingestion failed.")
        (λ _. log_info host s "Sending exec result: Ingestion succeeded.")
    let out_json = json.encode_status (status_update status r)
    (_, e) ← submit_single_part host "POST" out_json out_addr s.pz_auth
    pure e
