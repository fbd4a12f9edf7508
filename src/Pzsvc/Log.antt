-- ===== src/Pzsvc/Log.antt =====
-- pzsvc/utils.go: log lines, their severities and the audit log.
pub mod Laws
use pzsvc_exec.Prelude.{ℕ, ◌+◌, String, ◌<>◌, Bool, Option, none, some, if◌then◌else◌, nonempty}
use pzsvc_exec.Text.{after_last, decimal, remove_all}
use pzsvc_exec.Host.{
  Host, Go, Response, GoError, plain, error_text, logged, look, emit, pure, crash, on_nil, ◌>>=◌,
  ◌>>◌,
}
use pzsvc_exec.Pzsvc.Model.{Session}

-- The severities that the program names, of RFC 5424.
abbrev pub error_level : ℕ
error_level = 3

abbrev pub info_level : ℕ
info_level = 6

-- The call site's file, from the session's root directory on.
unfoldable pub short_file : String → String → String
short_file root file =
    if nonempty root then on_nil (after_last file root) file (λ rest. root <> rest) else file

module _ (host : Host) where
  unfoldable pub log_message : Session → ℕ → String → Go (Unit {0})
  unfolding short_file
  log_message s severity msg = do
    c ← look host.caller
    time ← look (λ t. host.now t "2006-01-02T15:04:05.999Z")
    emit (
        logged (
          "<"
          <> decimal (8 + severity)
          <> ">1 "
          <> time
          <> " "
          <> host.host_name
          <> " "
          <> s.app_name
          <> " - ID"
          <> decimal host.pid
          <> " [pzsource@48851 file=\""
          <> short_file s.log_root_dir c.file
          <> "\" line=\""
          <> decimal c.line
          <> "\" function=\""
          <> c.function
          <> "\"] "
          <> msg))

  -- The error's text goes through `fmt.Errorf` as a format.
  unfoldable pub log_simple_err : Session → String → Option GoError → Go GoError
  log_simple_err s message err = do
    let message' = on_nil err message (λ e. message <> error_text e)
    log_message s 3 message'
    pure (plain (host.errorf message'))

  unfoldable pub log_info : Session → String → Go (Unit {0})
  log_info s message = log_message s 6 message

  unfoldable pub log_warn : Session → String → Go (Unit {0})
  log_warn s message = log_message s 4 message

  unfoldable pub log_alert : Session → String → Go (Unit {0})
  log_alert s message = log_message s 5 ("ALERT:" <> message)

  unfoldable pub log_audit : Session → (actor action actee msg : String) → ℕ → Go (Unit {0})
  log_audit s actor action actee msg severity =
      if s.log_audit
      then log_message s severity (
          "[pzaudit@48851 actor=\"" <> actor <> "\" action=\"" <> action <> "\" actee=\"" <> actee
          <> "\"] " <> msg)
      else pure tt

  -- The body is read, closed and replaced by a fresh one over the same bytes.
  unfoldable pub log_audit_response :
      Session → (actor action actee : String) → Option Response → ℕ → Go (Option Response)
  log_audit_response s actor action actee resp severity =
      if s.log_audit
      then on_nil resp crash (λ r. do
        log_audit s actor action actee (remove_all r.body.content "\n") severity
        pure (some (record r { body = record { content = r.body.content; failure = none } })))
      else pure resp
