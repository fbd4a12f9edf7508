-- ===== src/Tests/CapacityRuns.antt =====
-- The polling loop at concrete clients of Cloud Foundry.
use pzsvc_exec.Prelude.{[], refl, none, some}
use pzsvc_exec.Host.{Host, plain, ok, is_created}
use pzsvc_exec.Dispatcher.Cf.{DefaultFactory, new_factory}
use pzsvc_exec.Dispatcher.Poll.{start_job}
use pzsvc_exec.Host.Exactly.{Exactly}
use pzsvc_exec.Dispatcher.JobData.{DispatcherJson}
use pzsvc_exec.Dispatcher.Poll.Jobs.{IsStartable, IsDropped, start_job-IsDropped}
use pzsvc_exec.Tests.Sample.{
  host, item, input, session, dispatcher_json, polling_loop, factory_config, cf_session,
}

abbrev factory : DefaultFactory
factory = record (new_factory host session factory_config none) { cached_session = some cf_session }

-- A client that lists no task, as those that are still to start.
abbrev pending : Host
pending = record host {
  cloud_foundry = record host.cloud_foundry { tasks_by_app = λ t client app q. ok [] };
}

-- No input of a job can be decoded.
abbrev undecodable : DispatcherJson
undecodable = record dispatcher_json {
  inp_struct = record { zero = input; decode = λ text. (input, some (plain "no JSON")) };
}

start_job-IsDropped_example :
    (IsStartable undecodable item
      → Exactly is_created 1 (start_job host undecodable polling_loop cf_session item))
    × (¬ IsStartable undecodable item
        → IsDropped (start_job host undecodable polling_loop cf_session item))
start_job-IsDropped_example =
    start_job-IsDropped host undecodable polling_loop cf_session item refl 1 refl
