-- ===== src/Dispatcher/Poll.antt =====
-- dispatcher/poll: the polling loop and its iteration.
pub mod Rules
pub mod Idle
pub mod Tasks
pub mod Bounded
pub mod Schedule
pub mod Limit
pub mod Masking
pub mod Failures
pub mod Threads
pub mod Launched
pub mod Jobs
pub mod Progress
use pzsvc_exec.Prelude.{
  ℕ, String, ◌<>◌, ◌==◌, Bool, true, false, Option, none, some, List, [], ◌∷◌, Map, lookup,
  if◌then◌else◌, nonempty,
}
use pzsvc_exec.Prelude.Int.{ℤ, pos, at_least}
use pzsvc_exec.Text.{atoi}
use pzsvc_exec.Host.{
  Host, TaskRequest, Go, GoError, plain, Try, ok, err, error_text, pure, crash, on_nil, on_error,
  ◌>>=◌, ◌>>◌,
}
use pzsvc_exec.Pzsvc.Model.{Session, InpStruct, piazza_status_fail}
use pzsvc_exec.Pzsvc.Log.{log_info, log_audit, log_simple_err, info_level, error_level}
use pzsvc_exec.Pzsvc.CustomError.{PzCustomError, log, error}
use pzsvc_exec.Pzsvc.Http.{request_known_json}
use pzsvc_exec.Pzsvc.ExecResult.{send_exec_result_no_data}
use pzsvc_exec.Pzsvc.Config.{Config}
use pzsvc_exec.Dispatcher.JobData.{DispatcherJson, PzTaskItem, JsonValue, text, other}
use pzsvc_exec.Dispatcher.Cf.{
  DefaultFactory, WrappedCfSession, get_session, count_tasks_for_app, create_task,
  is_memory_limit_error,
}
use pzsvc_exec.Dispatcher.Limits.{calculate_disk_and_memory_limits}
use pzsvc_exec.Dispatcher.Command.{build_worker_command}

-- The factory is an object that the iterations share: they take it and give it back.
pub record Loop : Type 0 where
  pub pz_session : Session
  pub pz_config : Config
  pub svc_id : String
  pub config_path : String
  pub vcap_id : String
  pub task_limit : ℤ

-- The credentials are replaced before the input is written to a log.
unfoldable pub mask : InpStruct → InpStruct
mask inp = record inp {
  ext_auth = if nonempty inp.ext_auth then "*****" else inp.ext_auth;
  pz_auth = if nonempty inp.pz_auth then "*****" else inp.pz_auth;
}

module _ (host : Host) (json : DispatcherJson) where
  unfoldable pub get_vcap_application_id : Try String
  get_vcap_application_id =
      let (container, e) = json.vcap.decode (host.getenv "VCAP_APPLICATION") in
      let unreadable : Try String = err (
        plain
          "Cannot Read Application Name from VCAP Application properties: string type assertion failed") in
      on_nil e
        (on_nil (lookup "application_id" container) unreadable
          (λ v. elim v [ text id ↦ ok id | other ↦ unreadable ]))
        (λ e'. err (plain ("Error in reading VCAP Application properties: " <> error_text e')))

  -- The error of Atoi is dropped: a malformed TASK_LIMIT gives 0.
  unfoldable pub task_limit_of_env : ℤ
  task_limit_of_env =
      let limit = host.getenv "TASK_LIMIT" in if nonempty limit then (atoi limit).0 else pos 3

  unfoldable pub new_loop : Session → Config → (svc_id config_path : String) → Go (Try Loop)
  unfolding get_vcap_application_id task_limit_of_env
  new_loop s config svc_id config_path = do
    log_info host s "Initializing polling loop object"
    on_error get_vcap_application_id (λ e. pure (err e))
        (λ app_id. do
          log_info host s ("Found application name from VCAP Tree: " <> app_id)
          pure (
              ok (record {
                pz_session = s;
                pz_config = config;
                svc_id = svc_id;
                config_path = config_path;
                vcap_id = app_id;
                task_limit = task_limit_of_env;
              })))

  module _ (l : Loop) where
    unfoldable pub get_pz_task_item : Go (Try PzTaskItem)
    get_pz_task_item = do
      let url = l.pz_session.pz_addr <> "/service/" <> l.svc_id <> "/task"
      (item, byts, e) ← request_known_json host "POST" "" url l.pz_session.pz_auth json.task_item
      on_nil e (pure (ok item)) (λ e'. do
        (e'', _) ← log host l.pz_session ("Dispatcher: error getting new task:" <> byts) e'
        pure (err (plain (error e''))))

    unfoldable pub parse_job_input : String → Go (Try InpStruct)
    unfolding mask
    parse_job_input job_input_str =
        let (content, e) = json.inp_struct.decode job_input_str in
        on_nil e (pure (ok (mask content))) (λ e'. do
          _ ← log_simple_err host l.pz_session "Error decoding job input body" (some e')
          pure (err e'))

    -- After CreateTask: the job fails in Piazza unless a limit on memory was met.
    unfoldable pub after_create : (job_id : String) → Option GoError → Go (Option GoError)
    after_create job_id e = on_nil e (pure none) (λ e'.
        if is_memory_limit_error host e'
        then (do
          log_audit host l.pz_session l.pz_session.user_id "Audit failure" l.pz_session.app_name
              "The Memory limit of CF Org has been exceeded. No further jobs can be created."
              error_level
          pure (some (plain "CF memory limit hit, will retry job later")))
        else (do
          log_audit host l.pz_session l.pz_session.user_id "Audit failure" l.pz_session.app_name
              ("Could not Create PCF Task for Job. Job Failed: " <> error_text e') error_level
          _ ←
              send_exec_result_no_data host json.pz l.pz_session l.pz_session.pz_addr l.svc_id
                job_id piazza_status_fail
          pure (some e')))

    -- From the command of the worker on.
    unfoldable pub launch :
        WrappedCfSession → (job_id command : String) → InpStruct → Go (Option GoError)
    launch cf_session job_id command job_input = do
      (disk_mb, memory_mb) ← calculate_disk_and_memory_limits host l.pz_session job_input
      log_audit host l.pz_session l.pz_session.user_id
          ("Creating CF Task for Job " <> job_id <> " : " <> command) l.pz_session.app_name
          (json.encode_inp_struct job_input) info_level
      e ← create_task host cf_session (record {
        command = command;
        name = job_id;
        droplet_guid = l.vcap_id;
        disk_in_megabyte = disk_mb;
        memory_in_megabyte = memory_mb;
      })
      after_create job_id e

    -- From the data of the job on.
    unfoldable pub start_job : WrappedCfSession → PzTaskItem → Go (Option GoError)
    start_job cf_session item =
        let job_id = item.out_data.svc_data.job_id in
        let job_data = item.out_data.svc_data.in_data.data_inputs.body.content in
        if job_data == ""
        then (do
          log_info host l.pz_session
              "No jobs available in task queue (jobID=''); skipping this iteration cycle"
          pure none)
        else (do
          log_info host l.pz_session ("New Task Grabbed.  JobID: " <> job_id)
          r ← parse_job_input job_data
          on_error r (λ e. pure (some e))
              (λ job_input.
                on_error (build_worker_command l.config_path l.svc_id job_input job_id)
                  (λ e. pure (some e)) (λ command. launch cf_session job_id command job_input)))

    -- From the session on.
    unfoldable pub iterate : WrappedCfSession → Go (Option GoError)
    iterate cf_session = do
      n ← count_tasks_for_app host cf_session l.vcap_id
      on_error n
          (λ e. do
            _ ← log_simple_err host l.pz_session "Error checking running tasks. " (some e)
            pure (some e))
          (λ num_tasks.
            if at_least num_tasks l.task_limit
            then (do
              log_info host l.pz_session
                  "Too many tasks already running, skipping this iteration cycle"
              pure none)
            else (do
              r ← get_pz_task_item
              on_error r (λ e. pure (some e)) (λ item. start_job cf_session item)))

    unfoldable pub run_iteration : DefaultFactory → Go (Option GoError × DefaultFactory)
    run_iteration f = do
      log_info host l.pz_session "Starting polling loop iteration"
      (r, f') ← get_session host f
      on_error r
          (λ e. do
            _ ← log_simple_err host l.pz_session "Error generating valid CF Client" (some e)
            pure (some e, f'))
          (λ session. on_nil session crash (λ cf_session. do e ← iterate cf_session; pure (e, f')))

-- What the goroutine of Start receives: a tick of the clock, or the stop signal.
pub data Signal : Type 0 where
  tick stop : Signal

-- The errors sent so far, and whether the channel of errors was closed.
pub record LoopRun : Type 0 where
  pub errors : List GoError
  pub closed : Bool
  pub factory : DefaultFactory

abbrev pub with_error : Option GoError → LoopRun → LoopRun
with_error none r = r
with_error (some e) r = record r { errors = e ∷ r.errors }

module _ (host : Host) (json : DispatcherJson) (l : Loop) where
  unfoldable pub start : List Signal → DefaultFactory → Go LoopRun
  start [] f = pure (record { errors = []; closed = false; factory = f })
  start (stop ∷ signals) f = pure (record { errors = []; closed = true; factory = f })
  start (tick ∷ signals) f = do
    (e, f') ← run_iteration host json l f
    r ← start signals f'
    pure (with_error e r)
