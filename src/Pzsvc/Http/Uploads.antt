-- ===== src/Pzsvc/Http/Uploads.antt =====
-- pzsvc/http.go: SubmitMultipart.
use pzsvc_exec.Prelude.{String, ◌<>◌, Option, none, some, [], ◌∷◌, if◌then◌else◌}
use pzsvc_exec.Host.{
  Host, Multipart, Go, Request, Response, error_text, pure, on_nil, on_error, ◌>>=◌,
}
use pzsvc_exec.Pzsvc.CustomError.{PzCustomError, with_log_msg}
use pzsvc_exec.Pzsvc.Http.{is_failure, drained, send}

module _ (host : Host) where
  upload_error : (prefix : String) → String → PzCustomError
  upload_error prefix text = record (with_log_msg (prefix <> text)) {
    simple_msg = "Internal Error on file upload.  See logs.";
  }

  -- The steps that fill the multipart writer: the first error, if any.
  unfoldable pub fill_multipart :
      (body_str filename : String) → Option String → Option PzCustomError
  unfolding upload_error
  fill_multipart body_str filename file_data =
      on_nil (m.write_field body_str)
        (on_nil file_data closed (λ bytes.
          on_error (m.create_form_file filename)
            (λ e. some (upload_error "Error on CreateFormFile: " (error_text e)))
            (λ part.
              if part
              then on_nil (m.copy bytes) closed
                  (λ e. some (upload_error "Error on file data Copy: " (error_text e)))
              else some (upload_error "CreateFormFile returned empty form." ""))))
        (λ e. some (
          upload_error ("Could not write string " <> body_str <> "to message body: ")
            (error_text e)))
    where
      m : Multipart
      m = host.multipart

      closed : Option PzCustomError
      closed =
          on_nil m.close none (λ e. some (upload_error "Error on Writer close: " (error_text e)))

  -- The request that carries the multipart form.
  abbrev pub form_request : (body_str address filename auth_key : String) → Option String → Request
  form_request body_str address filename auth_key file_data = record {
    method = "POST";
    url = address;
    header = ("Content-Type", host.multipart.content_type) ∷ ("Authorization", auth_key) ∷ [];
    body = host.multipart.message body_str filename file_data;
  }

  unfoldable pub submit_multipart :
      (body_str address filename auth_key : String)
      → Option String
      → Go (Option Response × Option PzCustomError)
  unfolding fill_multipart upload_error send
  submit_multipart body_str address filename auth_key file_data =
      on_nil (fill_multipart body_str filename file_data)
        (on_nil (host.request_error "POST" address)
          (do
            answer ← send host (form_request body_str address filename auth_key file_data)
            on_error answer
                (λ e. pure (
                  none,
                  some (record (with_log_msg ("Error on POST multipart: " <> error_text e)) {
                    url = address;
                    request = body_str;
                    simple_msg = "HTTP error on file upload.  See logs.";
                  }),
                ))
                (λ resp.
                  if is_failure resp.status_code
                  then pure (
                    some (drained resp),
                    some (record (with_log_msg "Failed multipart HTTP request") {
                      url = address;
                      request = body_str;
                      response = resp.body.content;
                      http_status = resp.status_code;
                      simple_msg =
                          "Received "
                          <> host.status_text resp.status_code
                          <> " on multipart POST call to "
                          <> address
                          <> ".  Further details logged.";
                    }),
                  )
                  else pure (some resp, none)))
          (λ e. pure (none, some (upload_error "Error on Request creation: " (error_text e)))))
        (λ e. pure (none, some e))
