-- ===== src/Pzsvc/Http/Failures.antt =====
-- What the callers get of a reply whose status is no success.
use pzsvc_exec.Prelude.{String, ◌==◌, true, false, Option, none, some, ◌∷◌, ◌≡◌, refl, arith}
use pzsvc_exec.Host.{Host, Go, ◌>>=◌, Trace, Request, Response, GoError, ret, sent, ok, err, Try}
use pzsvc_exec.Host.Returns.{Returns, Returns-bind, returns_rules}
use pzsvc_exec.Host.Panics.{Panics, Panics-bind}
use pzsvc_exec.Pzsvc.Json.{Decoder}
use pzsvc_exec.Pzsvc.CustomError.{PzCustomError}
use pzsvc_exec.Pzsvc.Http.{
  json_request, is_failure, reply_error, send, submit_single_part, request_known_json,
}

module _ (host : Host) (method body url auth : String) (t : Trace) (r : Response) where
  -- The body was read for the error and closed, so the bytes that are handed back are empty; the
  -- error has them. The request can be made, is answered, and its status is no success.
  pub request_known_json_of_failure :
      {A : Type 0} (d : Decoder A)
      → (method == "") ≡ false
      → (url == "") ≡ false
      → host.request_error method url ≡ none
      → host.respond t (json_request method body url auth) ≡ ok r
      → is_failure r.status_code ≡ true
      → request_known_json host method body url auth d t ≡ (
        ret (d.zero, "", some (reply_error host url body r)),
        sent (json_request method body url auth) ∷ t,
      )
  unfolding request_known_json submit_single_part
  request_known_json_of_failure d hm hu free reply bad = rw (hm, hu, free, reply, bad) refl

-- Where no reply comes, the response is nil.
module _ (host : Host) (e : GoError)
    (down : (t : Trace) (r : Request) → host.respond t r ≡ err e) where
  send_down : (r : Request) → Returns (λ a. a ≡ err e) (send host r)
  unfolding send
  send_down r = record { at = λ t a h. ground (arith, down t r) }

  Returns-send_down {ℓ} :
      {A : Type ℓ} {P : A → Type 0} (r : Request) (f : Try Response → Go A)
      → Returns P (f (err e))
      → Returns P (send host r >>= f)
  Returns-send_down r f h = Returns-bind (λ a. a ≡ err e) _ f (send_down r) (λ a eq. rw eq h)

  pub submit_single_part_down :
      (method body url auth : String)
      → Returns (λ a. a.0 ≡ none) (submit_single_part host method body url auth)
  unfolding submit_single_part
  submit_single_part_down method body url auth = search (returns_rules, Returns-send_down) depth 9

  pub Panics-submit_down {ℓ} :
      {A : Type ℓ} (method body url auth : String)
      (f : Option Response × Option PzCustomError → Go A)
      → ((p : Option PzCustomError) → Panics (f (none, p)))
      → Panics (submit_single_part host method body url auth >>= f)
  Panics-submit_down method body url auth f h =
      Panics-bind (λ a. a.0 ≡ none) _ f (submit_single_part_down method body url auth)
        (λ (r, p) n. rw n (h p))
