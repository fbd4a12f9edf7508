-- ===== src/Tests/PollRuns.antt =====
-- The theorems on the goroutines of the dispatcher at concrete interleavings.
use pzsvc_exec.Prelude.{none, some, [], ◌∷◌, ◌++◌, ◌≡◌, refl, count}
use pzsvc_exec.Host.{Host, Trace, GoError, err, plain, ret}
use pzsvc_exec.Pzsvc.Log.{log_info, log_simple_err, log_message}
use pzsvc_exec.Dispatcher.Cf.{
  DefaultFactory, new_factory, get_session, is_valid, count_tasks_for_app,
}
use pzsvc_exec.Dispatcher.Poll.{run_iteration, iterate}
use pzsvc_exec.Dispatcher.Poll.Threads.{
  Goroutine, selecting, sending, closing, closed, Stopper, signalling, returned, Reader, ranging,
  Polling, iterated, received, other, iterates, receives, calls_stop, stops, closes, Run, start,
  later, started,
}
use pzsvc_exec.Dispatcher.Poll.Threads.Errors.{
  returned_errors, received_errors, pending, Run-errors,
}
use pzsvc_exec.Dispatcher.Poll.Threads.Stopping.{is_iterated, Run-stopped}
use pzsvc_exec.Dispatcher.Poll.Threads.Draining.{CanStop, Run-CanStop}
use pzsvc_exec.Tests.Sample.{
  host, session, dispatcher_json, polling_loop, factory_config, cf_session,
}

abbrev factory : DefaultFactory
factory = record (new_factory host session factory_config none) { cached_session = some cf_session }

-- A Cloud Foundry that does not list the tasks.
abbrev failing : Host
failing = record host {
  cloud_foundry = record host.cloud_foundry { tasks_by_app = λ t c a q. err (plain "down") };
}

-- An iteration that fails, and the reader that receives its error.
abbrev failed : Trace
failed = (run_iteration failing dispatcher_json polling_loop factory []).1

one_failure :
    (run_iteration failing dispatcher_json polling_loop factory []).0
    ≡ ret (some (plain "down"), factory)
unfolding run_iteration iterate get_session is_valid count_tasks_for_app log_info log_simple_err
    log_message
one_failure = refl

abbrev down : GoError
down = plain "down"

abbrev at : Goroutine → Stopper → Reader → Polling
at g st rd = record { trace = failed; factory = factory; goroutine = g; stopper = st; reader = rd }

failure_sent :
    Run failing dispatcher_json polling_loop
      (started [] factory)
      (iterated (some down) ∷ [])
      (at (sending down) Stopper.absent ranging)
failure_sent = later start (iterates one_failure)

Run-errors_example :
    returned_errors (received down ∷ iterated (some down) ∷ [])
    ≡ pending selecting ++ received_errors (received down ∷ iterated (some down) ∷ [])
Run-errors_example =
    Run-errors failing dispatcher_json polling_loop [] factory
      (received down ∷ iterated (some down) ∷ [])
      (at selecting Stopper.absent (Reader.logging down)) (later failure_sent receives)

-- Stop while the error waits for the reader.
Run-CanStop_example :
    CanStop failing dispatcher_json polling_loop (at (sending down) signalling ranging)
Run-CanStop_example =
    Run-CanStop failing dispatcher_json polling_loop [] factory (other ∷ iterated (some down) ∷ [])
      (at (sending down) signalling ranging) (later failure_sent (calls_stop tt)) refl tt

-- Stop returns after the reader has received the error, and before it has logged it.
stopped_run :
    Run failing dispatcher_json polling_loop
      (started [] factory)
      (other ∷ other ∷ received down ∷ iterated (some down) ∷ [])
      (at closing returned (Reader.logging down))
stopped_run = later (later (later failure_sent receives) (calls_stop tt)) stops

Run-stopped_example : count is_iterated (other ∷ []) ≡ 0
Run-stopped_example =
    Run-stopped failing dispatcher_json polling_loop [] factory
      (other ∷ other ∷ received down ∷ iterated (some down) ∷ []) (other ∷ [])
      (at closing returned (Reader.logging down)) (at closed returned (Reader.logging down))
      stopped_run refl (later start closes)
