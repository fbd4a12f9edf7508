-- ===== src/Pzsvc/Http/Laws.antt =====
-- The HTTP helpers send at most one request, the one that their arguments describe.
use pzsvc_exec.Prelude.{String, Option, some, [], ◌≡◌, ◌<>◌, lookup, arith}
use pzsvc_exec.Host.{Host, Event, Request, sent}
use pzsvc_exec.Host.Adds.{Adds, adds_rules}
use pzsvc_exec.Pzsvc.Json.{Decoder}
use pzsvc_exec.Pzsvc.Model.{Session}
use pzsvc_exec.Pzsvc.Http.{send, submit_single_part, request_known_json, json_request}
use pzsvc_exec.Pzsvc.Http.Sizes.{get_s3_file_size_in_megabytes}
use pzsvc_exec.Pzsvc.Http.Uploads.{submit_multipart, form_request}

module _ (host : Host) {Q : Event → Type 0} where
  pub send-Adds : (r : Request) → Q (sent r) → Adds Q (send host r)
  unfolding send
  send-Adds r q = search adds_rules

  pub submit_single_part-Adds :
      (method body url auth : String)
      → Q (sent (json_request method body url auth))
      → Adds Q (submit_single_part host method body url auth)
  unfolding submit_single_part
  submit_single_part-Adds method body url auth q = search adds_rules depth 9

  pub submit_multipart-Adds :
      (body address filename auth : String) (file : Option String)
      → Q (sent (form_request host body address filename auth file))
      → Adds Q (submit_multipart host body address filename auth file)
  unfolding submit_multipart
  submit_multipart-Adds body address filename auth file q = search adds_rules depth 9

  pub request_known_json-Adds :
      {A : Type 0} (method body url auth : String) (d : Decoder A)
      → Q (sent (json_request method body url auth))
      → Adds Q (request_known_json host method body url auth d)
  unfolding request_known_json
  request_known_json-Adds method body url auth d q =
      search (adds_rules, submit_single_part-Adds) depth 9

  pub get_s3_file_size_in_megabytes-Adds :
      (url : String)
      → Q (sent (record { method = "HEAD"; url = url; header = []; body = "" }))
      → Adds Q (get_s3_file_size_in_megabytes host url)
  unfolding get_s3_file_size_in_megabytes
  get_s3_file_size_in_megabytes-Adds url q = search adds_rules depth 9

-- A request goes to the session's Piazza address and carries its authorization. Other events pass.
abbrev pub ToPiazza : Session → Event → Type 0
ToPiazza s (sent r) =
    (path : String) × (r.url ≡ s.pz_addr <> path)
    × (lookup "Authorization" r.header ≡ some s.pz_auth)
ToPiazza s _ = Unit

module _ (s : Session) where
  pub json_request-ToPiazza :
      (method body path : String)
      → ToPiazza s (sent (json_request method body (s.pz_addr <> path) s.pz_auth))
  unfolding lookup
  json_request-ToPiazza method body path = (path, ground arith, ground arith)

  pub form_request-ToPiazza :
      (host : Host) (body path filename : String) (file : Option String)
      → ToPiazza s (sent (form_request host body (s.pz_addr <> path) filename s.pz_auth file))
  unfolding lookup
  form_request-ToPiazza host body path filename file = (path, ground arith, ground arith)
