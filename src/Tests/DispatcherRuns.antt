-- ===== src/Tests/DispatcherRuns.antt =====
-- The theorems on the dispatcher at concrete inputs.
use pzsvc_exec.Prelude.{
  String, ◌+◌, ◌*◌, ◌≤◌, true, false, none, some, [], ◌∷◌, ◌≡◌, refl, subst, arith, count, length,
  lookup,
}
use pzsvc_exec.Prelude.Int.{pos, at_least}
use pzsvc_exec.Text.{atoi, contains}
use pzsvc_exec.Host.{Host, plain, ok, ret, sent, is_sent, is_created, on_error}
use pzsvc_exec.Host.Adds.{Adds}
use pzsvc_exec.Pzsvc.Model.{Session}
use pzsvc_exec.Pzsvc.Log.{log_info, log_message, log_simple_err, log_audit}
use pzsvc_exec.Pzsvc.Http.{request_known_json, submit_single_part}
use pzsvc_exec.Pzsvc.Http.Sizes.{get_s3_file_size_in_megabytes}
use pzsvc_exec.Pzsvc.Service.{find_my_svc, find_service}
use pzsvc_exec.Dispatcher.Cf.{
  FactoryConfig, DefaultFactory, new_factory, get_session, is_valid, is_memory_limit_error,
}
use pzsvc_exec.Dispatcher.Cf.Laws.{get_session-IsCurrent, IsCurrent, new_session-Adds}
use pzsvc_exec.Dispatcher.Limits.{
  calculate_disk_and_memory_limits, default_task_memory_mb, size_of_input,
}
use pzsvc_exec.Dispatcher.Limits.Laws.{calculate_limits_of_sizes, HasSize}
use pzsvc_exec.Dispatcher.Poll.{tick, stop, run_iteration, start, after_create, new_loop}
use pzsvc_exec.Dispatcher.Poll.Idle.{run_iteration_full, IsFull, CreatesIdly, IsIdle}
use pzsvc_exec.Dispatcher.Poll.{parse_job_input}
use pzsvc_exec.Dispatcher.Poll.Masking.{parse_job_input-IsMaskedFrom, IsMaskedFrom}
use pzsvc_exec.Dispatcher.Poll.Tasks.{run_iteration-IsWorkerTask, IsWorkerTask}
use pzsvc_exec.Dispatcher.Poll.Bounded.{Other}
use pzsvc_exec.Dispatcher.Poll.Schedule.{start_bounded}
use pzsvc_exec.Dispatcher.Poll.Limit.{new_loop_malformed}
use pzsvc_exec.Dispatcher.Poll.Failures.{after_create_lem, fail_report, before_report}
use pzsvc_exec.Dispatcher.Main.{checked, start_polling, discover_svc_id, polling}
use pzsvc_exec.Dispatcher.Main.Laws.{checked-IsReady, IsReady}
use pzsvc_exec.Tests.Sample.{
  host, session, dispatcher_json, config, polling_loop, factory_config, cf_session, input, response,
}

abbrev factory : DefaultFactory
factory = record (new_factory host session factory_config none) { cached_session = some cf_session }

full : IsFull host dispatcher_json polling_loop
full t client tasks e =
    subst (λ r. on_error r (λ e'. Unit) (λ ts. at_least (length ts) (pos 3) ≡ true)) e refl

idle : CreatesIdly factory
unfolding new_factory
idle = new_session-Adds host {Q = IsIdle} (λ line. (refl, refl)) (λ c. (refl, refl))

run_iteration_full_example :
    (count is_sent (run_iteration host dispatcher_json polling_loop factory []).1
      ≡ count is_sent [])
    × (count is_created (run_iteration host dispatcher_json polling_loop factory []).1
        ≡ count is_created [])
run_iteration_full_example =
    run_iteration_full host dispatcher_json polling_loop factory full idle []

run_iteration-IsWorkerTask_example :
    Adds
      (IsWorkerTask host dispatcher_json polling_loop)
      (run_iteration host dispatcher_json polling_loop factory)
unfolding new_factory
run_iteration-IsWorkerTask_example =
    run_iteration-IsWorkerTask host dispatcher_json polling_loop factory (
      new_session-Adds host {Q = IsWorkerTask host dispatcher_json polling_loop} (λ line. tt)
        (λ c. tt))

parse_job_input-IsMaskedFrom_example : IsMaskedFrom input (ok (record input { ext_auth = "*****" }))
unfolding parse_job_input
parse_job_input-IsMaskedFrom_example =
    parse_job_input-IsMaskedFrom host dispatcher_json polling_loop "{}" []
      (ok (record input { ext_auth = "*****" })) refl

start_bounded_example :
    count is_created
      (start host dispatcher_json polling_loop (tick ∷ stop ∷ tick ∷ []) factory []).1
    ≤ count is_created [] + 1
unfolding new_factory
start_bounded_example =
    start_bounded host dispatcher_json polling_loop (tick ∷ stop ∷ tick ∷ []) factory
      (new_session-Adds host {Q = Other} (λ line. refl) (λ c. refl)) []

after_create_lem_example :
    (is_memory_limit_error host (plain "full") ≡ false
      → after_create host dispatcher_json polling_loop "j1" (some (plain "full")) [] ≡ (
        ret (some (plain "full")),
        sent (fail_report host dispatcher_json polling_loop "j1" (plain "full"))
            ∷ before_report host dispatcher_json polling_loop "j1" (plain "full") [],
      ))
    × (is_memory_limit_error host (plain "full") ≡ true
        → after_create host dispatcher_json polling_loop "j1" (some (plain "full")) []
          ≡ (ret (some (plain "CF memory limit hit, will retry job later")), []))
after_create_lem_example =
    after_create_lem host dispatcher_json polling_loop "j1" (plain "full") [] refl refl refl

new_loop_malformed_example :
    (count is_sent
        (run_iteration host dispatcher_json
          (record polling_loop { task_limit = pos 0 })
          factory
          []).1
      ≡ count is_sent [])
    × (count is_created
          (run_iteration host dispatcher_json
            (record polling_loop { task_limit = pos 0 })
            factory
            []).1
        ≡ count is_created [])
unfolding new_loop log_info log_message lookup atoi
new_loop_malformed_example =
    new_loop_malformed host dispatcher_json session config "s1" "config.json"
      (record polling_loop { task_limit = pos 0 }) factory [] [] refl refl refl idle

-- What start-up makes of the session and of the environment.
abbrev started : Session
started = record session { pz_auth = "Basic many:" }

abbrev cf_settings : FactoryConfig
cf_settings = record {
  api_address = "many";
  username = "many";
  password = "many";
  http_client = some 120;
  token = "";
  token_source = none;
}

checked-IsReady_example : IsReady host dispatcher_json config (
    polling
      (record polling_loop { pz_session = started; task_limit = pos 0 })
      (new_factory host started cf_settings none))
unfolding checked log_simple_err log_message start_polling discover_svc_id find_my_svc log_audit
    request_known_json submit_single_part find_service log_info new_loop lookup new_factory atoi
checked-IsReady_example =
    checked-IsReady host dispatcher_json session config "config.json" [] _ refl

-- A store that gives the length of every file.
abbrev store_host : Host
store_host = record host {
  respond = λ t r. ok (record response { header = ("Content-Length", "2097152") ∷ [] });
}

abbrev stored : String
stored = "https://s3.amazonaws.com/a.tif"

stored-HasSize : HasSize store_host session (λ url. 2) stored
unfolding size_of_input get_s3_file_size_in_megabytes log_info log_message contains lookup atoi
stored-HasSize = record { at = λ t. refl }

calculate_limits_of_sizes_example :
    (calculate_disk_and_memory_limits store_host session
      (record input { in_ext_files = stored ∷ [] })
      []).0
    ≡ ret (pos (4096 + 2 * 2), pos (4096 + 2 * 5))
unfolding default_task_memory_mb atoi
calculate_limits_of_sizes_example =
    calculate_limits_of_sizes store_host session (λ url. 2)
      (record input { in_ext_files = stored ∷ [] }) 4096 1 [] (stored-HasSize, tt) refl refl
      (omega arith) (omega arith)

get_session-IsCurrent_example : IsCurrent host factory (ok (some cf_session), factory)
unfolding get_session is_valid log_info log_message
get_session-IsCurrent_example =
    get_session-IsCurrent host factory [] (ok (some cf_session), factory) refl
