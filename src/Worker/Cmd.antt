-- ===== src/Worker/Cmd.antt =====
-- worker/cmd.go: the command line of the worker.
pub mod Laws
pub mod Context
use pzsvc_exec.Prelude.{
  ℕ, String, ◌<>◌, ◌==◌, Bool, false, Option, none, some, List, [], ◌∷◌, ◌++◌, if◌then◌else◌,
  nonempty,
}
use pzsvc_exec.Host.{
  Host, Go, GoError, Try, ok, err, error_text, pure, on_nil, on_error, ◌>>=◌, ◌>>◌,
}
use pzsvc_exec.Pzsvc.Model.{zero_session}
use pzsvc_exec.Pzsvc.Json.{Decoder, PzJson}
use pzsvc_exec.Pzsvc.Config.{Config}
use pzsvc_exec.Worker.Config.{
  WorkerConfig, InputSource, parse_input_source, read_pz_se_config, serialize,
}
use pzsvc_exec.Worker.Log.{info, simple_err}
use pzsvc_exec.Worker.Exec.{exec, new_worker, EncodeOutput}

-- The values of the flags, as the command-line library has parsed them.
pub record Flags : Type 0 where
  pub config : String
  pub cli_extra : String
  pub piazza_base_url : String
  pub piazza_api_key : String
  pub user_id : String
  pub service_id : String
  pub job_id : String
  pub input : List String
  pub output : List String

pub record WorkerJson : Type 0 where
  pub pz : PzJson
  pub config : Decoder Config
  pub encode_output : EncodeOutput
  pub marshal_config : WorkerConfig → Try String

-- cli.NewExitError
pub record ExitError : Type 0 where
  pub message : String
  pub code : ℕ

abbrev pub exit_one : String → Option ExitError
exit_one message = some (record { message = message; code = 1 })

-- The loop over the input flags.
unfoldable pub parse_inputs : List String → Try (List InputSource)
parse_inputs [] = ok []
parse_inputs (source_string ∷ rest) =
    on_error (parse_input_source source_string) err
      (λ in_file. on_error (parse_inputs rest) err (λ inputs. ok (in_file ∷ inputs)))

unfoldable pub initial_config : Decoder Config → Flags → WorkerConfig
initial_config d flags = record {
  session = record zero_session {
    app_name = "pzsvc-worker";
    session_id = "startup";
    log_root_dir = "pzsvc-exec";
  };
  cli_command_extra = flags.cli_extra;
  piazza_base_url = flags.piazza_base_url;
  piazza_api_key = flags.piazza_api_key;
  piazza_service_id = flags.service_id;
  user_id = flags.user_id;
  job_id = flags.job_id;
  inputs = [];
  outputs = flags.output;
  pz_se_config = d.zero;
  mute_logs = false;
}

-- A flag's value, or the environment's where the flag is not given.
abbrev pub or_env : Host → String → String → String
or_env host value variable = if value == "" then host.getenv variable else value

abbrev pub require_output : List String → Try WorkerConfig → Try WorkerConfig
require_output [] r = err (GoError.plain "1 or more output files are required")
require_output (o ∷ more) r = r

-- The checks of runCmd after the configuration was read: the complete configuration, or the
-- message of the first check that fails.
unfoldable pub complete : Host → Flags → WorkerConfig → Try WorkerConfig
unfolding parse_inputs
complete host flags cfg =
    let base_url = or_env host cfg.piazza_base_url cfg.pz_se_config.pz_addr_en_var in
    let api_key = or_env host cfg.piazza_api_key cfg.pz_se_config.api_key_en_var in
    if cfg.piazza_service_id == ""
    then err (GoError.plain "Service ID is required")
    else if base_url == ""
    then err (GoError.plain "Piazza base URL is required")
    else if api_key == ""
    then err (GoError.plain "Piazza API key is required")
    else require_output cfg.outputs (
        on_error (parse_inputs flags.input) err (λ inputs. ok (record cfg {
          piazza_base_url = base_url;
          piazza_api_key = api_key;
          session = record cfg.session {
            pz_addr = base_url;
            pz_auth = "Basic " <> host.base64 (api_key <> ":");
          };
          inputs = inputs;
        })))

module _ (host : Host) (json : WorkerJson) where
  unfoldable pub execute : WorkerConfig → Go (Option ExitError)
  execute cfg = do
    info host cfg ("config validated: " <> serialize json.marshal_config cfg)
    info host cfg "Starting actual worker execution"
    e ← exec host cfg (new_worker host json.pz) json.encode_output
    on_nil e (do info host cfg "worker done, exiting"; pure none)
        (λ e'. do
          simple_err host cfg "execution error, quitting with status 1" (some e')
          pure (exit_one (error_text e')))

  unfoldable pub run_cmd : Flags → Go (Option ExitError)
  unfolding initial_config complete
  run_cmd flags =
      let cfg0 = initial_config json.config flags in
      do
        info host cfg0 "startup"
        (if flags.config == "" then pure (exit_one "pzsvc-exec config file is required") else (do
          (e, cfg) ← read_pz_se_config host json.config flags.config cfg0
          on_nil e
              (on_error (complete host flags cfg) (λ e'. pure (exit_one (error_text e'))) execute)
              (λ e'. pure (exit_one (error_text e')))))
