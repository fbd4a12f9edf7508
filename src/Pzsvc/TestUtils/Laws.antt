-- ===== src/Pzsvc/TestUtils/Laws.antt =====
-- pzsvc/testutils.go: the replies of the mock client, and the text of the fake writer.
use pzsvc_exec.Prelude.{
  ℕ, ◌+◌, String, ◌==◌, ◌≡◌, ◌∙◌, refl, ap, sym, Option, List, [], ◌∷◌, ◌++◌, if◌then◌else◌, arith,
  length, length-append,
}
use mathlib.Core.List.{append_assoc}
use pzsvc_exec.Host.{Request, Response, GoError, Try, ok, err}
use pzsvc_exec.Pzsvc.Writer.{http_out, print_json}
use pzsvc_exec.Pzsvc.TestUtils.{
  StringSliceMockTransport, HttpClient, insecure_skip_verify, mocking, http_client, set_mock_client,
  output_at, mock_reply, round_trip, round_trips, FakeRespWriter, fake_resp_writer,
}

-- The replies to these requests: each output as it comes, and "{}" once they are used up.
abbrev pub played :
    (Request → Try Response) → (status : ℕ) → List String → List Request → List (Try Response)
played outside status outputs [] = []
played outside status [] (req ∷ reqs) = ok (mock_reply status "{}") ∷ played outside status [] reqs
played outside status (o ∷ os) (req ∷ reqs) =
    (if o == "" then outside req else ok (mock_reply status o)) ∷ played outside status os reqs

output_at-skip :
    (before after : List String) → output_at (before ++ after) (length before) ≡ output_at after 0
unfolding output_at
output_at-skip [] after = refl
output_at-skip (o ∷ before) after = output_at-skip before after

abbrev transport_of : HttpClient → StringSliceMockTransport
transport_of insecure_skip_verify = record { status_code = 0; outputs = []; iter = 0 }
transport_of (mocking t) = t

-- A transport that has played the first outputs.
abbrev at_output : ℕ → List String → List String → StringSliceMockTransport
at_output status before after = record {
  status_code = status;
  outputs = before ++ after;
  iter = length before;
}

module _ (outside : Request → Try Response) (status : ℕ) where
  round_trip_done :
      (before : List String) (req : Request)
      → round_trip outside (at_output status before []) req
        ≡ (ok (mock_reply status "{}"), at_output status before [])
  unfolding round_trip
  round_trip_done before req = rw (output_at-skip before [], output_at) refl

  next_output :
      (before after : List String) (o : String)
      → record (at_output status before (o ∷ after)) { iter = length before + 1 }
        ≡ at_output status (before ++ (o ∷ [])) after
  next_output before after o =
      cc (append_assoc before (o ∷ []) after, length-append before (o ∷ []))

  round_trip_next :
      (before after : List String) (o : String) (req : Request)
      → round_trip outside (at_output status before (o ∷ after)) req ≡ (
        (if o == "" then outside req else ok (mock_reply status o)),
        at_output status (before ++ (o ∷ [])) after,
      )
  unfolding round_trip
  round_trip_next before after o req =
      rw (output_at-skip before (o ∷ after), output_at) (ground (arith, next_output before after o))

  round_trips_from :
      (before after : List String) (reqs : List Request)
      → round_trips outside (at_output status before after) reqs ≡ played outside status after reqs
  round_trips_from before after [] = refl
  round_trips_from before [] (req ∷ reqs) =
      rw (round_trip_done before req)
        (ap (λ l. ok (mock_reply status "{}") ∷ l) (round_trips_from before [] reqs))
  round_trips_from before (o ∷ after) (req ∷ reqs) = rw (round_trip_next before after o req) (
      ap (λ l. (if o == "" then outside req else ok (mock_reply status o)) ∷ l)
        (round_trips_from (before ++ (o ∷ [])) after reqs))

  -- A client that was set to these outputs answers requests with the outputs in their order, lets
  -- the request of an empty one out, and answers "{}" once they are used up.
  pub set_mock_client-played :
      (outputs : List String) (kept : Option HttpClient) (t : StringSliceMockTransport)
      (reqs : List Request)
      → (http_client (set_mock_client outputs status kept)).0 ≡ mocking t
      → round_trips outside t reqs ≡ played outside status outputs reqs
  unfolding http_client set_mock_client
  set_mock_client-played outputs kept t reqs h =
      ap (λ u. round_trips outside u reqs) (sym (ap transport_of h))
      ∙ round_trips_from [] outputs reqs

-- What is printed is what the fake writer holds: the encoded value with its status, or the text of
-- an error with the status 500.
pub print_json_lem :
    (out_buf : Try String) (status : ℕ) (frw : FakeRespWriter)
    → let s = (print_json fake_resp_writer out_buf status frw).1 in
      ((bytes : String) → out_buf ≡ ok bytes → (s.output_string ≡ bytes) × (s.status_code ≡ status))
      × ((e : GoError) → out_buf ≡ err e → s.status_code ≡ 500)
unfolding print_json http_out
print_json_lem out_buf status frw = ((λ bytes e. rw e (refl, refl)), (λ e e'. rw e' refl))
