-- ===== src/Pzsvc/CustomError.antt =====
-- pzsvc/utils.go: PzCustomError, an error that is logged once, with the request it is about.
pub mod Laws
use pzsvc_exec.Prelude.{ℕ, String, ◌<>◌, Bool, true, false, ◌||◌, if◌then◌else◌, nonempty}
use pzsvc_exec.Host.{Host, Go, GoError, plain, pure, ◌>>=◌, ◌>>◌}
use pzsvc_exec.Pzsvc.Model.{Session}
use pzsvc_exec.Pzsvc.Log.{log_message}

pub record PzCustomError : Type 0 where
  pub has_logged : Bool
  pub log_msg : String
  pub simple_msg : String
  pub request : String
  pub response : String
  pub url : String
  pub http_status : ℕ

-- A literal that gives the log message alone.
abbrev pub with_log_msg : String → PzCustomError
with_log_msg msg = record {
  has_logged = false;
  log_msg = msg;
  simple_msg = "";
  request = "";
  response = "";
  url = "";
  http_status = 0;
}

unfoldable pub overwrite_request : PzCustomError → String → PzCustomError
overwrite_request err in_req = record err { request = in_req }

unfoldable pub error : PzCustomError → String
error err = if nonempty err.simple_msg then err.simple_msg else err.log_msg

module _ (host : Host) where
  unfoldable pub gen_extended_msg : PzCustomError → String
  gen_extended_msg err =
      let line_break : String = "\n/**************************************/\n" in
      let part = λ (label text : String). if nonempty text then label <> text <> "\n" else "" in
      "Http Error: "
      <> err.log_msg
      <> line_break
      <> part "\nURL: " err.url
      <> part "\nRequest: " err.request
      <> part "\nResponse: " err.response
      <> part "\nHTTP Status: " (host.status_text err.http_status)
      <> line_break

  -- `Log` changes the error that it is called on, and returns a fresh one.
  unfoldable pub log : Session → String → PzCustomError → Go (PzCustomError × GoError)
  unfolding gen_extended_msg error
  log s msg_add err =
      if err.has_logged
      then (do
        log_message host s 3 "Meta-error.  Tried to log same message for a second time."
        pure (err, plain (error err)))
      else (do
        let err' = record err {
          log_msg = if nonempty msg_add then msg_add <> ": " <> err.log_msg else err.log_msg;
          has_logged = true;
        }
        log_message host s 3 (
            if nonempty err.request || nonempty err.response
            then gen_extended_msg err'
            else err'.log_msg)
        pure (err', plain (error err')))
