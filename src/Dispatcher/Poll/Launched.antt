-- ===== src/Dispatcher/Poll/Launched.antt =====
-- A job that is there is launched, and nothing on the way panics.
use pzsvc_exec.Prelude.{ℕ, String, Option, some, List, [], ◌∷◌, ◌≡◌, refl}
use pzsvc_exec.Prelude.Int.{ℤ}
use pzsvc_exec.Host.{Host, Go, GoError, TaskRequest, is_created}
use pzsvc_exec.Host.Exactly.{Exactly, Exactly-pure, Exactly-after, Exactly-before, exactly_rules}
use pzsvc_exec.Pzsvc.Model.{Session, InpStruct}
use pzsvc_exec.Pzsvc.Log.{log_info, log_audit}
use pzsvc_exec.Pzsvc.Log.Laws.{log_message-Exactly, log_info-Exactly, log_audit-Exactly}
use pzsvc_exec.Pzsvc.CustomError.{PzCustomError, log}
use pzsvc_exec.Pzsvc.Http.{send, submit_single_part}
use pzsvc_exec.Pzsvc.Http.Sizes.{get_s3_file_size_in_megabytes}
use pzsvc_exec.Pzsvc.ExecResult.{send_exec_result_no_data}
use pzsvc_exec.Dispatcher.JobData.{DispatcherJson}
use pzsvc_exec.Dispatcher.Cf.{WrappedCfSession, create_task}
use pzsvc_exec.Dispatcher.Limits.{
  size_of_input, sum_sizes, calculate_aws_input_file_size_mb, calculate_disk_and_memory_limits,
}
use pzsvc_exec.Dispatcher.Poll.{Loop, after_create, launch}

-- An action that returns and creates no task.
abbrev pub Plain {ℓ} : {A : Type ℓ} → Go A → Type ℓ
Plain m = Exactly is_created 0 m

module _ (host : Host) where
  pub log_info-Plain : (s : Session) (m : String) → Plain (log_info host s m)
  log_info-Plain s m = log_info-Exactly host (λ line. refl) s m

  log_audit-Plain :
      (s : Session) (actor action actee m : String) (n : ℕ)
      → Plain (log_audit host s actor action actee m n)
  log_audit-Plain s actor action actee m n =
      log_audit-Exactly host (λ line. refl) s actor action actee m n

  log-Plain : (s : Session) (m : String) (e : PzCustomError) → Plain (log host s m e)
  unfolding log
  log-Plain s m e =
      search (exactly_rules, log_message-Exactly host {p = is_created} (λ line. refl)) depth 9

  submit_single_part-Plain :
      (method body url auth : String) → Plain (submit_single_part host method body url auth)
  unfolding submit_single_part send
  submit_single_part-Plain method body url auth = search exactly_rules depth 12

  get_s3-Plain : (url : String) → Plain (get_s3_file_size_in_megabytes host url)
  unfolding get_s3_file_size_in_megabytes
  get_s3-Plain url = search exactly_rules depth 12

  size_of_input-Plain : (s : Session) (url : String) → Plain (size_of_input host s url)
  unfolding size_of_input
  size_of_input-Plain s url =
      search (exactly_rules, get_s3-Plain, log_info-Plain, log-Plain) depth 12

  sum_sizes-Plain :
      (s : Session) (urls : List String) (total : ℤ) → Plain (sum_sizes host s urls total)
  unfolding sum_sizes
  sum_sizes-Plain s [] total = Exactly-pure total
  sum_sizes-Plain s (url ∷ urls) total =
      search (exactly_rules, size_of_input-Plain, sum_sizes-Plain s urls) depth 12

  calculate-Plain :
      (s : Session) (input : InpStruct) → Plain (calculate_disk_and_memory_limits host s input)
  unfolding calculate_disk_and_memory_limits calculate_aws_input_file_size_mb
  calculate-Plain s input = search (exactly_rules, sum_sizes-Plain, log_info-Plain) depth 12

  module _ (json : DispatcherJson) (l : Loop) where
    report-Plain :
        (addr svc_id job_id status : String)
        → Plain (send_exec_result_no_data host json.pz l.pz_session addr svc_id job_id status)
    unfolding send_exec_result_no_data
    report-Plain addr svc_id job_id status =
        search (exactly_rules, log_info-Plain, submit_single_part-Plain) depth 12

    after_create-Plain :
        (job_id : String) (e : Option GoError) → Plain (after_create host json l job_id e)
    unfolding after_create
    after_create-Plain job_id e = search (exactly_rules, log_audit-Plain, report-Plain) depth 12

    create_task-Exactly :
        (client : ℕ) (s : WrappedCfSession) (request : TaskRequest)
        → s.client ≡ some client
        → Exactly is_created 1 (create_task host s request)
    unfolding create_task
    create_task-Exactly client s request h = rw h (search exactly_rules depth 9)

    -- A job is launched with one task, whatever Cloud Foundry and Piazza answer.
    pub launch-Exactly :
        (client : ℕ) (s : WrappedCfSession) (job_id command : String) (input : InpStruct)
        → s.client ≡ some client
        → Exactly is_created 1 (launch host json l s job_id command input)
    unfolding launch
    launch-Exactly client s job_id command input h =
        Exactly-after _ _ (calculate-Plain l.pz_session input) (λ (disk, memory).
          Exactly-after _ _ (log_audit-Plain l.pz_session _ _ _ _ _) (λ _.
            Exactly-before _ _ (create_task-Exactly client s _ h)
              (λ e. after_create-Plain job_id e)))
