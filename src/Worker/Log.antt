-- ===== src/Worker/Log.antt =====
-- worker/log/workerlog.go: the worker's log, which its configuration can mute.
use pzsvc_exec.Prelude.{String, ◌<>◌, Option, if◌then◌else◌}
use pzsvc_exec.Host.{Host, Go, GoError, Event, logged, pure, ◌>>=◌}
use pzsvc_exec.Host.Adds.{Adds, adds_rules}
use pzsvc_exec.Pzsvc.Log as PzLog
use pzsvc_exec.Pzsvc.Log.Laws.{log_info-Adds, log_alert-Adds, log_simple_err-Adds}
use pzsvc_exec.Worker.Config.{WorkerConfig}

unfoldable pub apply_worker_prefix : WorkerConfig → String → String
apply_worker_prefix cfg message = "{Worker, jobID=" <> cfg.job_id <> "} " <> message

module _ (host : Host) (cfg : WorkerConfig) where
  unfoldable pub info : String → Go (Unit {0})
  info message =
      if cfg.mute_logs
      then pure tt
      else PzLog.log_info host cfg.session (apply_worker_prefix cfg message)

  unfoldable pub warn : String → Go (Unit {0})
  warn message =
      if cfg.mute_logs
      then pure tt
      else PzLog.log_warn host cfg.session (apply_worker_prefix cfg message)

  unfoldable pub alert : String → Go (Unit {0})
  alert message =
      if cfg.mute_logs
      then pure tt
      else PzLog.log_alert host cfg.session (apply_worker_prefix cfg message)

  unfoldable pub simple_err : String → Option GoError → Go (Unit {0})
  simple_err message err = if cfg.mute_logs then pure tt else (do
    _ ← PzLog.log_simple_err host cfg.session (apply_worker_prefix cfg message) err
    pure tt)

  module _ {Q : Event → Type 0} (q : (line : String) → Q (logged line)) where
    pub info-Adds : (m : String) → Adds Q (info m)
    unfolding info
    info-Adds m = search (adds_rules, log_info-Adds host {Q = Q} q cfg.session)

    pub alert-Adds : (m : String) → Adds Q (alert m)
    unfolding alert
    alert-Adds m = search (adds_rules, log_alert-Adds host {Q = Q} q cfg.session)

    pub simple_err-Adds : (m : String) (e : Option GoError) → Adds Q (simple_err m e)
    unfolding simple_err
    simple_err-Adds m e = search (adds_rules, log_simple_err-Adds host {Q = Q} q cfg.session)
