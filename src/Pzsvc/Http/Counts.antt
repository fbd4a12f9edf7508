-- ===== src/Pzsvc/Http/Counts.antt =====
-- Each helper sends one request at most.
use pzsvc_exec.Prelude.{String}
use pzsvc_exec.Host.{Host, Request, is_sent}
use pzsvc_exec.Host.Adds.{adds_rules}
use pzsvc_exec.Host.Counts.{AtMost, AtMost-before, at_most_rules}
use pzsvc_exec.Pzsvc.Json.{Decoder}
use pzsvc_exec.Pzsvc.Http.{send, submit_single_part, request_known_json}

module _ (host : Host) where
  pub send-AtMost : (r : Request) → AtMost is_sent 1 (send host r)
  unfolding send
  send-AtMost r = search (at_most_rules, adds_rules, AtMost-before)

  pub submit_single_part-AtMost :
      (method body url auth : String)
      → AtMost is_sent 1 (submit_single_part host method body url auth)
  unfolding submit_single_part
  submit_single_part-AtMost method body url auth =
      search (at_most_rules, adds_rules, AtMost-before) depth 9

  pub request_known_json-AtMost :
      {A : Type 0} (method body url auth : String) (d : Decoder A)
      → AtMost is_sent 1 (request_known_json host method body url auth d)
  unfolding request_known_json
  request_known_json-AtMost method body url auth d =
      search (adds_rules, AtMost-before, submit_single_part-AtMost) depth 9
