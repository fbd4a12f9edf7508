-- ===== src/Pzsvc/Writer.antt =====
-- pzsvc/http.go: what is written to the http.ResponseWriter of a request, and the preflight test.
pub mod Laws
use pzsvc_exec.Prelude.{
  ℕ, String, ◌<>◌, ◌==◌, Bool, Option, none, some, nonempty, if◌then◌else◌, lookup,
}
use pzsvc_exec.Host.{Request, Try, ok, err, error_text, on_error, on_nil}

-- http.ResponseWriter, on a state of its own: Header().Set, WriteHeader and Write.
pub record ResponseWriter (W : Type 0) : Type 0 where
  pub set_header : String → String → W → W
  pub write_header : ℕ → W → W
  pub write : String → W → W × Try ℕ

-- r.Header.Get, which is "" for a key that is not there.
abbrev pub header_of : Request → String → String
header_of r key = on_nil (lookup key r.header) "" (λ v. v)

module _ {W : Type 0} (w : ResponseWriter W) where
  unfoldable pub http_out : (output : String) (code : ℕ) → W → W
  http_out output code s = (w.write output (w.write_header code s)).0

  -- Whether the request is an OPTIONS request. The headers are set where there is an origin.
  unfoldable pub preflight : Request → W → Bool × W
  preflight r s =
      let origin = header_of r "Origin" in
      (
        r.method == "OPTIONS",
        if nonempty origin
            then w.set_header "Access-Control-Allow-Headers"
                "Accept, Content-Type, Content-Length, Accept-Encoding, X-CSRF-Token, Authorization"
                (w.set_header "Access-Control-Allow-Methods" "POST, OPTIONS"
                  (w.set_header "Access-Control-Allow-Origin" origin s))
            else s,
      )

  -- From the answer of json.Marshal on: the bytes, which are none where it failed.
  unfoldable pub print_json : Try String → (http_status : ℕ) → W → String × W
  unfolding http_out
  print_json out_buf http_status s =
      on_error out_buf
        (λ e. (
          "",
          http_out ("{\"Errors\":\"JSON marshal failure on output: " <> error_text e <> "\"}") 500
              s,
        ))
        (λ bytes. (bytes, http_out bytes http_status s))
