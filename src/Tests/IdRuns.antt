-- ===== src/Tests/IdRuns.antt =====
-- The identifiers, the writer and the mock client at concrete inputs.
use pzsvc_exec.Prelude.{ltb→lt, ℕ, List, [], ◌∷◌, ◌≡◌, refl}
use pzsvc_exec.Host.{ok, err, plain, Request}
use pzsvc_exec.Pzsvc.Ids.{hex, hex_digit, psu_uuid, slice_to_comma_sep}
use pzsvc_exec.Pzsvc.Ids.Laws.{bytes_of, bytes_of-psu_uuid}
use pzsvc_exec.Pzsvc.Writer.{print_json}
use pzsvc_exec.Pzsvc.TestUtils.{
  fake_resp_writer, get_mock_response_writer, round_trip, round_trips, mock_reply,
}

abbrev random_bytes : List ℕ
random_bytes = 0 ∷ 255 ∷ 18 ∷ 3 ∷ 4 ∷ 5 ∷ 6 ∷ 7 ∷ 8 ∷ 9 ∷ 10 ∷ 11 ∷ 12 ∷ 13 ∷ 14 ∷ 160 ∷ []

test_uuid : psu_uuid (ok random_bytes) ≡ ok "00FF1203-0405-0607-0809-0A0B0C0D0EA0"
unfolding psu_uuid hex hex_digit
test_uuid = refl

bytes_of-psu_uuid_example : bytes_of "00FF1203-0405-0607-0809-0A0B0C0D0EA0" ≡ random_bytes
bytes_of-psu_uuid_example =
    bytes_of-psu_uuid random_bytes "00FF1203-0405-0607-0809-0A0B0C0D0EA0"
      (
        ltb→lt 0 256 refl,
        (
          ltb→lt 255 256 refl,
          (
            ltb→lt 18 256 refl,
            (
              ltb→lt 3 256 refl,
              (
                ltb→lt 4 256 refl,
                (
                  ltb→lt 5 256 refl,
                  (
                    ltb→lt 6 256 refl,
                    (
                      ltb→lt 7 256 refl,
                      (
                        ltb→lt 8 256 refl,
                        (
                          ltb→lt 9 256 refl,
                          (
                            ltb→lt 10 256 refl,
                            (
                              ltb→lt 11 256 refl,
                              (
                                ltb→lt 12 256 refl,
                                (
                                  ltb→lt 13 256 refl,
                                  (ltb→lt 14 256 refl, (ltb→lt 160 256 refl, tt)),
                                ),
                              ),
                            ),
                          ),
                        ),
                      ),
                    ),
                  ),
                ),
              ),
            ),
          ),
        ),
      )
      test_uuid

test_list : slice_to_comma_sep ("a" ∷ "b" ∷ "c" ∷ []) ≡ "a,b,c"
unfolding slice_to_comma_sep
test_list = refl

test_print : print_json fake_resp_writer (err (plain "bad")) 200 get_mock_response_writer ≡ (
  "",
  record {
    output_string = "{\"Errors\":\"JSON marshal failure on output: bad\"}";
    status_code = 500;
  },
)
unfolding print_json
test_print = refl

abbrev request : Request
request = record { method = "GET"; url = "https://piazza/job/1"; header = []; body = "" }

-- The empty output goes out to a server that cannot be reached.
test_mock :
    round_trips
      (λ req. err (plain "no route"))
      (record { status_code = 250; outputs = "a" ∷ "" ∷ []; iter = 0 })
      (request ∷ request ∷ request ∷ [])
    ≡ ok (mock_reply 250 "a") ∷ err (plain "no route") ∷ ok (mock_reply 250 "{}") ∷ []
unfolding round_trip
test_mock = refl
