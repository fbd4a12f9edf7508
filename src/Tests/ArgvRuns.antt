-- ===== src/Tests/ArgvRuns.antt =====
-- The worker's flags at a concrete command.
use pzsvc_exec.Prelude.{String, ◌<>◌, none, List, [], ◌∷◌, ◌≡◌, refl, suc, if◌then◌else◌}
use pzsvc_exec.Text.{cut, atoi}
use pzsvc_exec.Host.{Host, ok, err, plain, present, ret}
use pzsvc_exec.Pzsvc.Config.{Config}
use pzsvc_exec.Dispatcher.Command.Executed.{run_cmd-argv, executed}
use pzsvc_exec.Worker.Cmd.{WorkerJson, run_cmd, execute, initial_config}
use pzsvc_exec.Worker.Cmd.Context.{
  Context, CliFlag, app_flags, flags_of, values_of, last_value, is_flag, ReadsFlags,
}
use pzsvc_exec.Dispatcher.Command.Reported.{job_url, run_cmd-ReportsOnce}
use pzsvc_exec.Worker.Exec.Reported.{is_task_report}
use pzsvc_exec.Pzsvc.Log.{log_info, log_message, log_simple_err}
use pzsvc_exec.Worker.Log.{info, simple_err}
use pzsvc_exec.Worker.Exec.{exec, output_to_piazza, failed_output}
use pzsvc_exec.Pzsvc.ExecResult.{send_exec_result_data}
use pzsvc_exec.Pzsvc.File.{ingest, typed_content, ingest_request, copy_map}
use pzsvc_exec.Pzsvc.Http.{submit_single_part, send}
use pzsvc_exec.Dispatcher.Command.Laws.{sources}
use pzsvc_exec.Worker.Input.{
  fetch_inputs, start_downloads, collect, download_input, check_and_open, open_new,
  get_client_retries, error_of,
}
use pzsvc_exec.Dispatcher.Command.{build_worker_command, worker_command, input_parts, output_parts}
use pzsvc_exec.Dispatcher.Command.Line.{IsLine}
use pzsvc_exec.Dispatcher.Command.Read.{IsPlain}
use pzsvc_exec.Host.Triple.{Triple}
use pzsvc_exec.Worker.Exec.Once.{HasReported, Always}
use pzsvc_exec.Text.{join}
use pzsvc_exec.Prelude.{ℕ}
use pzsvc_exec.Tests.Sample.{input, config, host, always, json}

-- The names of the flag that has this name.
abbrev aliases : List CliFlag → String → List String
aliases [] n = n ∷ []
aliases (f ∷ fs) n = if is_flag f.names ("-" <> n) then f.names else aliases fs n

abbrev parse : List String → Context
parse args = record {
  string = λ n. last_value (values_of (aliases app_flags n) args);
  string_slice = λ n. values_of (aliases app_flags n) args;
}

parse-ReadsFlags : ReadsFlags parse
parse-ReadsFlags = record {
  strings = λ args pairs. (
    (λ e. (refl, tt)),
    (
      (λ e. (refl, tt)),
      (
        (λ e. (refl, tt)),
        (
          (λ e. (refl, tt)),
          (
            (λ e. (refl, tt)),
            (
              (λ e. (refl, tt)),
              ((λ e. (refl, tt)), ((λ e. (refl, (refl, tt))), ((λ e. (refl, (refl, tt))), tt))),
            ),
          ),
        ),
      ),
    ),
  );
  slices = λ args pairs. (
    (λ e. (refl, tt)),
    (
      (λ e. (refl, tt)),
      (
        (λ e. (refl, tt)),
        (
          (λ e. (refl, tt)),
          (
            (λ e. (refl, tt)),
            (
              (λ e. (refl, tt)),
              ((λ e. (refl, tt)), ((λ e. (refl, (refl, tt))), ((λ e. (refl, (refl, tt))), tt))),
            ),
          ),
        ),
      ),
    ),
  );
}

-- A configuration that names the variables of the address and the key.
abbrev remote_config : Config
remote_config = record config { pz_addr_en_var = "ADDR" }

abbrev worker_json : WorkerJson
worker_json = record {
  pz = json;
  config = always remote_config;
  encode_output = λ o. "";
  marshal_config = λ cfg. ok "{}";
}

abbrev file_host : Host
file_host = record host { read_file = λ t path. ok "{}" }

-- The command of the job, and the conditions on what is written in it.
abbrev line : String
line =
    "worker --cliExtra '-x' --userID 'u' --config 'cfg.json' --serviceID 'svc' --jobID 'job' -i a.tif:https://h/a.tif -i b.tif:https://h/b.tif -o out.geojson"

input-IsPlain : IsPlain "cfg.json" "svc" input "job"
input-IsPlain = record {
  command = refl;
  user = refl;
  config = refl;
  service = refl;
  job = refl;
  inputs = (refl, (refl, tt));
  outputs = (refl, tt);
}

built : build_worker_command "cfg.json" "svc" input "job" ≡ ok line
unfolding build_worker_command worker_command input_parts output_parts join
built = refl

run_cmd-argv_example :
    (args : List String) × IsLine line "worker" args
    × (run_cmd file_host worker_json (flags_of (parse args))
        ≡ executed file_host worker_json remote_config parse "cfg.json" "svc" input "job")
unfolding cut
run_cmd-argv_example =
    run_cmd-argv file_host worker_json remote_config parse "cfg.json" "svc" input "job" built
      input-IsPlain parse-ReadsFlags refl refl (refl, (refl, tt)) refl refl refl (λ t. refl) refl

-- Every input is there already, and no output can be stored.
abbrev crowded : Host
crowded = record file_host { stat = λ t f. present }

abbrev storeless : WorkerJson
storeless = record worker_json { pz = record json { encode_ingest = λ r. err (plain "no JSON") } }

run_cmd-ReportsOnce_example :
    (args : List String) × IsLine line "worker" args
    × ((n : ℕ)
        → Triple Always
            (HasReported (is_task_report (job_url crowded remote_config "svc" "job")) n)
            (run_cmd crowded storeless (flags_of (parse args)))
            (λ _. HasReported (is_task_report (job_url crowded remote_config "svc" "job")) (suc n)))
unfolding cut
run_cmd-ReportsOnce_example =
    run_cmd-ReportsOnce crowded storeless remote_config parse "cfg.json" "svc" input "job" built
      input-IsPlain parse-ReadsFlags refl refl (refl, (refl, tt)) refl refl refl (λ t. refl) refl
      refl

-- On this host the worker returns.
crowded-returns :
    (executed crowded storeless remote_config parse "cfg.json" "svc" input "job" []).0 ≡ ret none
unfolding execute info log_info log_message exec fetch_inputs start_downloads collect download_input
    check_and_open open_new get_client_retries atoi error_of sources initial_config simple_err
    output_to_piazza send_exec_result_data ingest typed_content ingest_request copy_map
    log_simple_err submit_single_part send failed_output
crowded-returns = refl
