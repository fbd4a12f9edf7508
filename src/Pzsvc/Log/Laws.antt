-- ===== src/Pzsvc/Log/Laws.antt =====
-- Logging adds log lines to the trace and nothing else.
use pzsvc_exec.Prelude.{ℕ, String, Option, Bool, false, ◌≡◌, refl}
use pzsvc_exec.Host.{Host, Response, GoError, Event, logged}
use pzsvc_exec.Host.Adds.{Adds, adds_rules}
use pzsvc_exec.Host.Exactly.{Exactly, exactly_rules}
use pzsvc_exec.Host.Runs.{Runs}
use pzsvc_exec.Pzsvc.Model.{Session}
use pzsvc_exec.Pzsvc.Log.{
  log_message, log_simple_err, log_info, log_warn, log_alert, log_audit, log_audit_response,
}

module _ (host : Host) {Q : Event → Type 0} (q : (line : String) → Q (logged line))
    (s : Session) where
  pub log_message-Adds : (n : ℕ) (m : String) → Adds Q (log_message host s n m)
  unfolding log_message
  log_message-Adds n m = search (adds_rules, q)

  pub log_simple_err-Adds : (m : String) (e : Option GoError) → Adds Q (log_simple_err host s m e)
  unfolding log_simple_err
  log_simple_err-Adds m e = search (adds_rules, log_message-Adds)

  pub log_info-Adds : (m : String) → Adds Q (log_info host s m)
  unfolding log_info
  log_info-Adds m = log_message-Adds 6 m

  pub log_warn-Adds : (m : String) → Adds Q (log_warn host s m)
  unfolding log_warn
  log_warn-Adds m = log_message-Adds 4 m

  pub log_alert-Adds : (m : String) → Adds Q (log_alert host s m)
  unfolding log_alert
  log_alert-Adds m = log_message-Adds 5 _

  pub log_audit-Adds :
      (actor action actee m : String) (n : ℕ) → Adds Q (log_audit host s actor action actee m n)
  unfolding log_audit
  log_audit-Adds actor action actee m n = search (adds_rules, log_message-Adds)

  pub log_audit_response-Adds :
      (actor action actee : String) (r : Option Response) (n : ℕ)
      → Adds Q (log_audit_response host s actor action actee r n)
  unfolding log_audit_response
  log_audit_response-Adds actor action actee r n = search (adds_rules, log_audit-Adds)

module _ (host : Host) {p : Event → Bool} (q : (line : String) → p (logged line) ≡ false)
    (s : Session) where
  pub log_message-Exactly : (n : ℕ) (m : String) → Exactly p 0 (log_message host s n m)
  unfolding log_message
  log_message-Exactly n m = search (exactly_rules, q) depth 9

  pub log_info-Exactly : (m : String) → Exactly p 0 (log_info host s m)
  unfolding log_info
  log_info-Exactly m = log_message-Exactly 6 m

  pub log_simple_err-Exactly :
      (m : String) (e : Option GoError) → Exactly p 0 (log_simple_err host s m e)
  unfolding log_simple_err
  log_simple_err-Exactly m e = search (exactly_rules, log_message-Exactly) depth 9

  pub log_audit-Exactly :
      (actor action actee m : String) (n : ℕ)
      → Exactly p 0 (log_audit host s actor action actee m n)
  unfolding log_audit
  log_audit-Exactly actor action actee m n = search (exactly_rules, log_message-Exactly) depth 9

module _ (host : Host) (s : Session) where
  pub log_info-Runs : (m : String) → Runs tt (log_info host s m)
  unfolding log_info log_message
  log_info-Runs m = record { at = λ t. refl }

  pub log_alert-Runs : (m : String) → Runs tt (log_alert host s m)
  unfolding log_alert log_message
  log_alert-Runs m = record { at = λ t. refl }
