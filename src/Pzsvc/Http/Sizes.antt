-- ===== src/Pzsvc/Http/Sizes.antt =====
-- pzsvc/http.go: GetS3FileSizeInMegabytes.
use pzsvc_exec.Prelude.{String, ◌<>◌, ◌==◌, Option, none, some, [], if◌then◌else◌}
use pzsvc_exec.Host.{Host, Go, Response, pure, on_nil, on_error, ◌>>=◌}
use pzsvc_exec.Text.{atoi}
use pzsvc_exec.Prelude.{lookup}
use pzsvc_exec.Prelude.Int
use pzsvc_exec.Prelude.Int.{ℤ, pos}
use pzsvc_exec.Pzsvc.CustomError.{PzCustomError, with_log_msg}
use pzsvc_exec.Pzsvc.Http.{send}

module _ (host : Host) where
  -- The size in megabytes that a reply to HEAD states.
  unfoldable pub size_of_reply : Response → ℤ × Option PzCustomError
  size_of_reply r =
      if r.status == "200 OK"
      then on_nil (lookup "Content-Length" r.header)
          (pos 0, some (with_log_msg "No content-length header found in S3 HEAD request."))
          (λ text.
            if text == ""
            then (pos 0, some (with_log_msg "No content-length header found in S3 HEAD request."))
            else (let (n, fine) = atoi text in
                if fine then (Int.div n 1000000, none) else (
                  pos 0,
                  some (with_log_msg "Content-Length Header from S3 HEAD Request is not a number."),
                )))
      else (
        pos 0,
        some (
            with_log_msg
              ("Non-OK HTTP Status received from S3 Service HEAD request: " <> r.status)),
      )

  unfoldable pub get_s3_file_size_in_megabytes : String → Go (ℤ × Option PzCustomError)
  unfolding send size_of_reply
  get_s3_file_size_in_megabytes url = do
    answer ← send host (record { method = "HEAD"; url = url; header = []; body = "" })
    on_error answer
        (λ e. pure (pos 0, some (with_log_msg "Error during HEAD request to S3 Service.")))
        (λ r. pure (size_of_reply r))
