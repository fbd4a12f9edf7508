-- ===== src/Pzsvc/Http.antt =====
-- pzsvc/http.go: requests to Piazza and what their replies mean.
pub mod Laws
pub mod Counts
pub mod Failures
pub mod Uploads
pub mod Sizes
pub mod Replies
use pzsvc_exec.Prelude.{
  ℕ, String, ◌<>◌, ◌==◌, Bool, true, false, ◌||◌, Option, none, some, List, [], ◌∷◌, ltb,
  if◌then◌else◌, nonempty,
}
use pzsvc_exec.Host.{
  Host, Multipart, Go, Request, Response, Body, GoError, Try, ok, err, plain, error_text, sent,
  look, emit, pure, crash, on_nil, on_error, ◌>>=◌, ◌>>◌,
}
use pzsvc_exec.Text.{atoi}
use pzsvc_exec.Prelude.{lookup, Map}
use pzsvc_exec.Prelude.Int
use pzsvc_exec.Prelude.Int.{ℤ, pos}
use pzsvc_exec.Pzsvc.Model.{Session, JobInitResp}
use pzsvc_exec.Pzsvc.Json.{Decoder, PzJson}
use pzsvc_exec.Pzsvc.Log.{log_audit, info_level}
use pzsvc_exec.Pzsvc.CustomError.{PzCustomError, with_log_msg}

-- The status codes that are no success.
abbrev pub is_failure : ℕ → Bool
is_failure code = ltb code 200 || ltb 299 code

-- The reply after its body was read to the end and closed.
abbrev pub drained : Response → Response
drained r = record r {
  body = record { content = ""; failure = some (plain "http: read on closed response body") };
}

-- `ReadAll` and `json.Unmarshal`: the value, the bytes and the error.
unfoldable pub read_body_json : {A : Type 0} → Decoder A → Body → A × String × Option PzCustomError
read_body_json d body =
    on_nil body.failure
      (let (a, e) = d.decode body.content in
        on_nil e (a, body.content, none)
          (λ e'. (
            a,
            "",
            some
                (record (with_log_msg (
                  "Unmarshal failed: "
                  <> error_text e'
                  <> ".  Original input: "
                  <> body.content
                  <> ".")) { simple_msg = "JSON error when reading HTTP Response.  See log." }),
          )))
      (λ e'. (d.zero, "", some (with_log_msg "Could not read HTTP response.")))

unfoldable pub get_job_id : Decoder JobInitResp → Response → String × Option PzCustomError
unfolding read_body_json
get_job_id d resp =
    let (obj, byts, e) = read_body_json d resp.body in
    on_nil e
      (if obj.job_id == ""
        then (
          "",
          some (with_log_msg ("Response did not contain Job ID.  initial response: " <> byts)),
        )
        else (obj.job_id, none))
      (λ e'. (obj.job_id, some e'))

-- The request that carries a JSON body, or none.
abbrev pub json_request : (method body_str url auth_key : String) → Request
json_request method body_str url auth_key = record {
  method = method;
  url = url;
  header =
      if nonempty body_str
      then ("Content-Type", "application/json") ∷ ("Authorization", auth_key) ∷ []
      else ("Authorization", auth_key) ∷ [];
  body = body_str;
}

module _ (host : Host) where
  -- client.Do
  unfoldable pub send : Request → Go (Try Response)
  send req = do answer ← look (λ t. host.respond t req); emit (sent req); pure answer

  -- The error for a reply that is no success. It keeps what was read from the body.
  abbrev pub reply_error : (url body_str : String) → Response → PzCustomError
  reply_error url body_str resp = record (with_log_msg "Failed HTTP request") {
    simple_msg =
        "Received "
        <> host.status_text resp.status_code
        <> " on call to "
        <> url
        <> ".  Further details logged.";
    request = body_str;
    response = resp.body.content;
    url = url;
    http_status = resp.status_code;
  }

  unfoldable pub submit_single_part :
      (method body_str url auth_key : String) → Go (Option Response × Option PzCustomError)
  unfolding send
  submit_single_part method body_str url auth_key =
      if method == "" || url == ""
      then pure (
        none,
        some (
            with_log_msg
              ("method:\"" <> method <> "\", url:\"" <> url <> "\".  You must have both.")),
      )
      else on_nil (host.request_error method url)
          (do
            answer ← send (json_request method body_str url auth_key)
            on_error answer
                (λ e.
                  pure (none, some (record (with_log_msg (error_text e)) { request = body_str })))
                (λ resp.
                  if is_failure resp.status_code
                  then pure (some (drained resp), some (reply_error url body_str resp))
                  else pure (some resp, none)))
          (λ e. pure (none, some (with_log_msg (error_text e))))

  -- The value, the bytes of the reply and the error.
  unfoldable pub request_known_json :
      {A : Type 0} (method body_str address auth_key : String)
      → Decoder A
      → Go (A × String × Option PzCustomError)
  unfolding read_body_json
  request_known_json method body_str address auth_key d = do
    (resp, e) ← submit_single_part method body_str address auth_key
    on_nil e (on_nil resp crash (λ r. pure (read_body_json d r.body))) (λ e'.
        on_nil resp (pure (d.zero, "", some e')) (λ r. pure (d.zero, r.body.content, some e')))

  unfoldable pub check_auth : Session → Go (Option PzCustomError)
  check_auth s = do
    let targ_url = s.pz_addr <> "/service"
    log_audit host s s.user_id "verify Piazza auth key request" targ_url "" info_level
    (resp, e) ← submit_single_part "GET" "" targ_url s.pz_auth
    on_nil e
        (do
          log_audit host s targ_url "verify Piazza auth key response" s.user_id "" info_level
          pure none)
        (λ _. pure (some (with_log_msg "Could not confirm user authorization.")))
