-- ===== src/Pzsvc/TestUtils.antt =====
-- pzsvc/testutils.go and the client that pzsvc/http.go keeps: the doubles that stand for the HTTP
-- client and for the writer of a reply.
pub mod Laws
use pzsvc_exec.Prelude.{
  ℕ, zero, suc, ◌+◌, String, ◌==◌, Bool, Option, none, some, List, [], ◌∷◌, if◌then◌else◌,
}
use pzsvc_exec.Host.{Request, Response, Try, ok, on_nil}
use pzsvc_exec.Pzsvc.Writer.{ResponseWriter}
use Prim.Native.String

-- The iterator is behind a pointer: it is given back.
pub record StringSliceMockTransport : Type 0 where
  pub status_code : ℕ
  pub outputs : List String
  pub iter : ℕ

-- An http.Client, by its transport.
pub data HttpClient : Type 0 where
  insecure_skip_verify : HttpClient
  mocking : StringSliceMockTransport → HttpClient

-- The client, and the global variable that keeps it.
unfoldable pub http_client : Option HttpClient → HttpClient × Option HttpClient
http_client kept = on_nil kept (insecure_skip_verify, some insecure_skip_verify) (λ c. (c, some c))

abbrev pub set_http_client : Option HttpClient → Option HttpClient → Option HttpClient
set_http_client new_client kept = new_client

unfoldable pub set_mock_client : List String → ℕ → Option HttpClient → Option HttpClient
set_mock_client outputs status kept =
    set_http_client (some (mocking (record { status_code = status; outputs = outputs; iter = 0 })))
      kept

-- outputs[i], where i is in range
unfoldable pub output_at : List String → ℕ → Option String
output_at [] i = none
output_at (o ∷ os) zero = some o
output_at (o ∷ os) (suc i) = output_at os i

-- The reply with this body. GetMockReadCloser gives a body that is read without an error.
abbrev pub mock_reply : ℕ → String → Response
mock_reply status body = record {
  status_code = status;
  status = "";
  header = ("Content-Type", "application/json") ∷ [];
  body = record { content = body; failure = none };
}

-- One request. An empty output lets it out through the transport of net/http.
unfoldable pub round_trip :
    (Request → Try Response)
    → StringSliceMockTransport
    → Request
    → Try Response × StringSliceMockTransport
unfolding output_at
round_trip outside t req =
    on_nil (output_at t.outputs t.iter) (ok (mock_reply t.status_code "{}"), t)
      (λ o.
        let t' = record t { iter = t.iter + 1 } in
        if o == "" then (outside req, t') else (ok (mock_reply t.status_code o), t'))

-- Requests one after the other.
abbrev pub round_trips :
    (Request → Try Response) → StringSliceMockTransport → List Request → List (Try Response)
round_trips outside t [] = []
round_trips outside t (req ∷ reqs) =
    let (answer, t') = round_trip outside t req in answer ∷ round_trips outside t' reqs

-- Both fields are behind pointers.
pub record FakeRespWriter : Type 0 where
  pub output_string : String
  pub status_code : ℕ

abbrev pub get_mock_response_writer : FakeRespWriter
get_mock_response_writer = record { output_string = ""; status_code = 200 }

-- Header() makes a new map each time: what is set in it is lost. Each Write replaces the text.
abbrev pub fake_resp_writer : ResponseWriter FakeRespWriter
fake_resp_writer = record {
  set_header = λ key value frw. frw;
  write_header = λ status frw. record frw { status_code = status };
  write = λ byts frw. (record frw { output_string = byts }, ok (String.len byts));
}
