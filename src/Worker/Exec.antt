-- ===== src/Worker/Exec.antt =====
-- worker/workerexec: a job is executed and its outcome is reported.
pub mod Allowed
pub mod Rules
pub mod Laws
pub mod Commands
pub mod Requests
pub mod Reports
pub mod Order
pub mod Once
pub mod Reported
use pzsvc_exec.Prelude.{
  ℕ, String, ◌<>◌, Option, none, some, List, [], ◌∷◌, ◌++◌, map, Map, if◌then◌else◌,
}
use pzsvc_exec.Text.{join, trim_space}
use pzsvc_exec.Host.{
  Host, Go, GoError, plain, exit_error, memory_limit, cf_error, error_text, ran, look, emit, pure,
  on_nil, ◌>>=◌, ◌>>◌,
}
use pzsvc_exec.Pzsvc.Model.{Session, piazza_status_success, piazza_status_error}
use pzsvc_exec.Pzsvc.Json.{PzJson}
use pzsvc_exec.Pzsvc.CustomError.{PzCustomError, log}
use pzsvc_exec.Pzsvc.ExecResult.{send_exec_result_data}
use pzsvc_exec.Worker.Config.{WorkerConfig, InputSource, inputs_as_map}
use pzsvc_exec.Worker.Log.{info, alert, simple_err}
use pzsvc_exec.Worker.Input.{fetch_inputs}
use pzsvc_exec.Worker.Ingest.{MultiIngestOutput, output_files_to_piazza}

pub record CommandOutput : Type 0 where
  pub stdout : String
  pub stderr : String
  pub failure : Option GoError

pub record WorkerOutputData : Type 0 where
  pub in_files : Map String
  pub out_files : Map String
  pub prog_std_out : String
  pub prog_std_err : String
  pub errors : List String
  pub http_status : ℕ

-- How commands are run: what they write to the standard output, and the error.
pub record CommandRunner : Type 0 where
  pub exec_func : (argv : List String) → Go (String × Option GoError)

pub record PiazzaOutputter : Type 0 where
  pub send_func :
      Session → (pz_addr svc_id job_id status : String) → Option String → Go (Option PzCustomError)

-- The functions that a worker calls outside its package.
pub record Worker : Type 0 where
  pub fetch_inputs_func : WorkerConfig → List InputSource → Go (Option GoError)
  pub output_files_to_piazza_func :
      WorkerConfig → (alg_full_command alg_version : String) → Go MultiIngestOutput
  pub piazza_outputter : PiazzaOutputter
  pub command_runner : CommandRunner

-- `exec.Command(...).Output()`
abbrev pub command_output : Host → (argv : List String) → Go (String × Option GoError)
command_output host argv = do r ← look (λ t. host.output t argv); emit (ran argv); pure r

abbrev pub new_command_runner : Host → CommandRunner
new_command_runner host = record { exec_func = command_output host }

abbrev pub new_piazza_outputter : Host → PzJson → PiazzaOutputter
new_piazza_outputter host json = record { send_func = send_exec_result_data host json }

abbrev pub new_worker : Host → PzJson → Worker
new_worker host json = record {
  fetch_inputs_func = fetch_inputs host;
  output_files_to_piazza_func = output_files_to_piazza host json;
  piazza_outputter = new_piazza_outputter host json;
  command_runner = new_command_runner host;
}

-- The encoder of the output.
abbrev pub EncodeOutput : Type 0
EncodeOutput = WorkerOutputData → String

unfoldable pub add_errors : WorkerOutputData → List GoError → WorkerOutputData
add_errors d errors = record d { errors = d.errors ++ map error_text errors }

-- The status that a job with this output has.
unfoldable pub job_status : WorkerOutputData → String
job_status d = elim d.errors [ [] ↦ piazza_status_success | e ∷ more ↦ piazza_status_error ]

-- The output of a failed step.
unfoldable pub failed_output : WorkerOutputData → List GoError → WorkerOutputData
unfolding add_errors
failed_output d errors = record (add_errors d errors) { http_status = 500 }

module _ (host : Host) (cfg : WorkerConfig) where
  -- Only an *exec.ExitError carries what the command wrote to its standard error.
  unfoldable pub stderr_of : GoError → Go String
  stderr_of (exit_error message stderr) = do
    simple_err host cfg "failed executing algorithm command; stderr below"
        (some (exit_error message stderr))
    alert host cfg stderr
    pure stderr
  stderr_of e = do
    simple_err host cfg "failed executing algorithm command; stderr not available" none
    pure ""

  unfoldable pub run_command : CommandRunner → (command : String) → Go CommandOutput
  run_command runner command = do
    info host cfg ("runCommand: " <> command)
    let argv = "sh" ∷ "-c" ∷ command ∷ []
    (stdout, e) ← runner.exec_func argv
    on_nil e
        (do
          info host cfg "runCommandOutput success"
          pure (record { stdout = stdout; stderr = ""; failure = none }))
        (λ e'. do
          stderr ← stderr_of e'
          pure (record { stdout = stdout; stderr = stderr; failure = some e' }))

  module _ (w : Worker) (encode : EncodeOutput) where
    unfoldable pub output_to_piazza : WorkerOutputData → Go (Option GoError)
    unfolding job_status
    output_to_piazza out_data = do
      let serialized = encode out_data
      info host cfg ("sending serialized output: " <> serialized)
      e ←
          w.piazza_outputter.send_func cfg.session cfg.piazza_base_url cfg.piazza_service_id
            cfg.job_id (job_status out_data) (some serialized)
      on_nil e (pure none) (λ e'. do
        (_, e'') ← log host cfg.session "failed to send result data" e'
        pure (some e''))

    -- From the ingest of the outputs on.
    unfoldable pub exec_ingest :
        (full_command version : String) → WorkerOutputData → Go (Option GoError)
    unfolding failed_output
    exec_ingest full_command version d = do
      info host cfg "Ingesting output files to Piazza"
      out ← w.output_files_to_piazza_func cfg full_command version
      on_nil out.combined_error
          (do
            info host cfg "Ingest successful"
            info host cfg "Setting successful Piazza job"
            e ← output_to_piazza (record d { out_files = out.data_ids })
            info host cfg "Piazza job status updated, worker execution finished"
            pure e)
          (λ e. do
            simple_err host cfg "Received combined error during ingestion" (some e)
            output_to_piazza (failed_output d out.errors))

    -- From the algorithm's command on.
    unfoldable pub exec_algorithm : (version : String) → WorkerOutputData → Go (Option GoError)
    unfolding failed_output
    exec_algorithm version d = do
      let full_command = join (cfg.pz_se_config.cli_cmd ∷ cfg.cli_command_extra ∷ []) " "
      info host cfg ("Running algorithm command: " <> full_command)
      out ← run_command w.command_runner full_command
      let d' = record d { prog_std_out = out.stdout; prog_std_err = out.stderr }
      on_nil out.failure
          (do info host cfg "Algorithm command successful"; exec_ingest full_command version d')
          (λ e. do
            simple_err host cfg "Failed running algorithm command" (some e)
            output_to_piazza (failed_output d' (e ∷ [])))

    -- From the version command on.
    unfoldable pub exec_version : WorkerOutputData → Go (Option GoError)
    unfolding failed_output
    exec_version d = do
      info host cfg "Running version command"
      out ← run_command w.command_runner cfg.pz_se_config.version_cmd
      on_nil out.failure
          (do
            let version = trim_space out.stdout
            info host cfg ("Retrieved algorithm version: " <> version)
            exec_algorithm version d)
          (λ e. do
            simple_err host cfg "Failed to get algorithm version" (some e)
            output_to_piazza (record (failed_output d (e ∷ [])) { prog_std_err = out.stderr }))

    unfoldable pub exec : Go (Option GoError)
    unfolding failed_output
    exec = do
      let d : WorkerOutputData = record {
        in_files = [];
        out_files = [];
        prog_std_out = "";
        prog_std_err = "";
        errors = [];
        http_status = 200;
      }
      info host cfg "Fetching inputs"
      e ← w.fetch_inputs_func cfg cfg.inputs
      on_nil e
          (do
            info host cfg "Inputs fetched"
            exec_version (record d { in_files = inputs_as_map cfg.inputs }))
          (λ e'. do
            simple_err host cfg "Failed to fetch inputs" (some e')
            output_to_piazza (failed_output d (e' ∷ [])))
