-- ===== src/Pzsvc/CustomError/Laws.antt =====
-- What `Log` does to an error, and what it tells the caller.
use pzsvc_exec.Prelude.{String, ◌<>◌, ◌==◌, true, ◌||◌, ◌≡◌, arith, if◌then◌else◌, count, suc}
use pzsvc_exec.Host.{Host, Event, Trace, plain, logged, ret, is_log}
use pzsvc_exec.Host.Adds.{Adds, adds_rules}
use pzsvc_exec.Pzsvc.Model.{Session}
use pzsvc_exec.Pzsvc.Log.{log_message}
use pzsvc_exec.Pzsvc.Log.Laws.{log_message-Adds}
use pzsvc_exec.Pzsvc.CustomError.{PzCustomError, log, error}

module _ (host : Host) where
  pub log-Adds :
      {Q : Event → Type 0} (q : (line : String) → Q (logged line)) (s : Session) (m : String)
      (e : PzCustomError)
      → Adds Q (log host s m e)
  unfolding log
  log-Adds {Q} q s m e = search (adds_rules, log_message-Adds host {Q = Q} q s)

  -- The error after `Log`: it counts as logged, and the context is put before its message the
  -- first time only.
  abbrev pub after_log : String → PzCustomError → PzCustomError
  after_log m e = record e {
    has_logged = true;
    log_msg = if e.has_logged || (m == "") then e.log_msg else m <> ": " <> e.log_msg;
  }

  -- `Log` returns the marked error and its text for the caller, and adds exactly one log line.
  pub log_lem :
      (s : Session) (m : String) (e : PzCustomError) (t : Trace)
      → ((log host s m e t).0 ≡ ret (after_log m e, plain (error (after_log m e))))
        × (count is_log (log host s m e t).1 ≡ suc (count is_log t))
  unfolding log log_message
  log_lem s m e t = (ground arith, ground arith)
