-- ===== src/Tests/WorkerRuns.antt =====
-- The theorems on the worker at concrete inputs.
use pzsvc_exec.Prelude.{
  String, true, Option, none, some, [], ◌∷◌, ◌≡◌, refl, arith, assign, sym, ◌∙◌, All, is_some,
}
use pzsvc_exec.Prelude.Int.{pos}
use pzsvc_exec.Text.{split_two, lower_ext, atoi}
use pzsvc_exec.Host.{Host, GoError, plain, present, ret, is_sent, Trace}
use pzsvc_exec.Host.Adds.{Adds}
use pzsvc_exec.Host.Exactly.{Exactly}
use pzsvc_exec.Host.Returns.{Returns}
use pzsvc_exec.Pzsvc.Log.{log_audit, log_info, log_message, log_audit_response}
use pzsvc_exec.Pzsvc.File.{
  ingest_file, ingest, submit_ingest, typed_content, await_data_id, copy_map, ingest_request,
  loc_string,
}
use pzsvc_exec.Pzsvc.Http.{get_job_id, request_known_json, send, submit_single_part}
use pzsvc_exec.Pzsvc.Http.Uploads.{submit_multipart, fill_multipart}
use pzsvc_exec.Pzsvc.Job.{conclude, get_job_response, must_wait, poll_job, poll_round}
use pzsvc_exec.Worker.Log.{info, simple_err}
use pzsvc_exec.Worker.Config.{parse_input_source, WorkerConfig}
use pzsvc_exec.Worker.Input.{
  attempts, download_input, start_downloads, collect, check_and_open, open_new, get_client_retries,
  fetch_inputs, error_of,
}
use pzsvc_exec.Worker.Input.Laws.{attempts-Exactly}
use pzsvc_exec.Worker.Ingest.{
  MultiIngestOutput, assemble_ingestor_calls, prepare_call, collect_results, ingest_file_async,
  detect_piazza_file_type, add_result, combine, output_files_to_piazza,
}
use pzsvc_exec.Worker.Ingest.Laws.{output_files_to_piazza-IsStored, IsStored}
use pzsvc_exec.Pzsvc.File.Given.{IsGiven}
use pzsvc_exec.Worker.Ingest.Given.{AllValues, output_files_to_piazza-AreGiven}
use pzsvc_exec.Worker.Exec.{new_worker, exec, WorkerOutputData}
use pzsvc_exec.Worker.Exec.Laws.{IsJobCommand}
use pzsvc_exec.Worker.Exec.Requests.{exec-IsDiscreet, IsDiscreet}
use pzsvc_exec.Host.Phases.{Phased}
use pzsvc_exec.Worker.Exec.Order.{exec-IsPhased, job_phases}
use pzsvc_exec.Worker.Exec.Commands.{exec-IsJobCommand}
use pzsvc_exec.Worker.Cmd.{complete, parse_inputs}
use pzsvc_exec.Worker.Cmd.Laws.{complete-IsComplete, IsComplete}
use pzsvc_exec.Tests.Sample.{host, session, json, worker_config, flags}

-- An encoder of outputs.
abbrev encode : WorkerOutputData → String
encode d = d.prog_std_out

exec-IsJobCommand_example :
    Adds (IsJobCommand host worker_config) (exec host worker_config (new_worker host json) encode)
exec-IsJobCommand_example = exec-IsJobCommand host worker_config json encode

exec-IsDiscreet_example :
    Adds (IsDiscreet worker_config) (exec host worker_config (new_worker host json) encode)
exec-IsDiscreet_example = exec-IsDiscreet host worker_config json encode

-- A worker without a log.
abbrev muted_config : WorkerConfig
muted_config = record worker_config { mute_logs = true }

-- A disk on which every file is there already.
abbrev crowded : Host
crowded = record host { stat = λ t f. present }

crowded-error :
    (t : Trace)
    → (fetch_inputs crowded muted_config muted_config.inputs t).0
      ≡ ret (some (plain "[error downloading source imagery;]"))
unfolding fetch_inputs start_downloads collect info download_input check_and_open open_new
    get_client_retries atoi error_of
crowded-error t = refl

crowded-fails :
    Returns (λ e. is_some e ≡ true) (fetch_inputs crowded muted_config muted_config.inputs)
crowded-fails = record { at = λ t e h. ret_some (sym (crowded-error t) ∙ h) }
  where
    ret_some : {m : GoError} {e : Option GoError} → ret (some m) ≡ ret e → is_some e ≡ true
    ret_some {m} {e} h = ground (arith, h)

attempts-Exactly_example :
    Exactly is_sent 3 (attempts host "https://h/a.tif" (pos 2) 3 0 (none, none))
attempts-Exactly_example = attempts-Exactly host "https://h/a.tif" (pos 2) 3 0 (none, none)

-- What its ingest gives.
abbrev clean : MultiIngestOutput
clean = record { data_ids = ("out.geojson", "d1") ∷ []; errors = []; combined_error = none }

output_files_to_piazza-IsStored_example : All (IsStored clean.data_ids) muted_config.outputs
unfolding output_files_to_piazza assemble_ingestor_calls prepare_call info collect_results
    ingest_file_async ingest_file log_audit ingest submit_ingest typed_content
    detect_piazza_file_type lower_ext log_info log_message submit_multipart await_data_id
    log_audit_response assign copy_map ingest_request fill_multipart get_job_id request_known_json
    send submit_single_part conclude get_job_response must_wait poll_job poll_round loc_string
    combine simple_err add_result
output_files_to_piazza-IsStored_example =
    output_files_to_piazza-IsStored crowded json muted_config "run" "1" [] clean refl refl

output_files_to_piazza-AreGiven_example :
    AllValues (IsGiven crowded json muted_config.session) clean.data_ids
unfolding output_files_to_piazza assemble_ingestor_calls prepare_call info collect_results
    ingest_file_async ingest_file log_audit ingest submit_ingest typed_content
    detect_piazza_file_type lower_ext log_info log_message submit_multipart await_data_id
    log_audit_response assign copy_map ingest_request fill_multipart get_job_id request_known_json
    send submit_single_part conclude get_job_response must_wait poll_job poll_round loc_string
    combine simple_err add_result
output_files_to_piazza-AreGiven_example =
    output_files_to_piazza-AreGiven crowded json muted_config "run" "1" [] clean refl

complete-IsComplete_example :
    IsComplete host flags
      (record worker_config { session = record session { pz_auth = "Basic key:" } })
unfolding complete parse_inputs parse_input_source split_two
complete-IsComplete_example = complete-IsComplete host flags worker_config _ refl

exec-IsPhased_example :
    Phased (job_phases host worker_config) (exec host worker_config (new_worker host json) encode)
exec-IsPhased_example = exec-IsPhased host worker_config json encode
