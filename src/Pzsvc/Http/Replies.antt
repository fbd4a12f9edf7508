-- ===== src/Pzsvc/Http/Replies.antt =====
-- What the HTTP helpers return without an error is what some reply said.
use pzsvc_exec.Prelude.{String, Option, none, some, ◌≡◌, refl, subst, arith}
use pzsvc_exec.Host.{
  Host, Request, Response, Trace, GoError, Try, Go, err, ◌>>=◌, ok, sent, emit, pure, ◌>>◌,
}
use pzsvc_exec.Host.Returns.{
  Returns, Returns-pure, Returns-crash, Returns-if, Returns-then, Returns-bind, Returns-ask,
  Returns-on_nil, Returns-on_nil_eq, Returns-on_nil_both,
}
use pzsvc_exec.Pzsvc.Json.{Decoder}
use pzsvc_exec.Pzsvc.CustomError.{PzCustomError}
use pzsvc_exec.Pzsvc.Http.{
  json_request, read_body_json, send, submit_single_part, request_known_json,
}

module _ (host : Host) where
  -- The reply came to the request.
  abbrev IsReply : Request → Response → Type 0
  IsReply r reply = (t : Trace) × (host.respond t r ≡ ok reply)

  -- The value is decoded from a reply to the request.
  abbrev pub IsSaid : {A : Type 0} → Request → Decoder A → A → Type 0
  IsSaid r d a = (reply : Response) × IsReply r reply × (a ≡ (d.decode reply.body.content).0)

  -- The value is, where there is no error.
  abbrev pub Said : {A : Type 0} → Request → Decoder A → A × String × Option PzCustomError → Type 0
  Said r d (a, byts, e) = e ≡ none → IsSaid r d a

  send-IsReply :
      (r : Request)
      → Returns (λ a. (reply : Response) → a ≡ ok reply → IsReply r reply) (send host r)
  unfolding send
  send-IsReply r =
      Returns-ask (λ t. host.respond t r) (λ answer. emit (sent r) >> pure answer)
        (λ t. Returns-then (emit (sent r)) _ (λ _. Returns-pure _ (λ reply e. (t, e))))

  -- What comes without an error is a reply.
  abbrev FromReply : Request → Option Response × Option PzCustomError → Type 0
  FromReply q (o, some e) = Unit
  FromReply q (none, none) = Unit
  FromReply q (some reply, none) = IsReply q reply

  FromReply-IsReply :
      (q : Request) (o : Option Response) (e : Option PzCustomError) (reply : Response)
      → FromReply q (o, e)
      → e ≡ none
      → o ≡ some reply
      → IsReply q reply
  FromReply-IsReply q o (some e) reply h n k = absurd (cc)
  FromReply-IsReply q none none reply h n k = absurd (cc)
  FromReply-IsReply q (some r) none reply h n k =
      let same : r ≡ reply = ground (arith, k) in subst (IsReply q) same h

  FromReply-error :
      (q : Request) (o : Option Response) (e : PzCustomError)
      → Returns (FromReply q) (pure (o, some e))
  FromReply-error q o e = Returns-pure (o, some e) tt

  FromReply-good :
      (q : Request) (reply : Response)
      → IsReply q reply
      → Returns (FromReply q) (pure (some reply, none))
  FromReply-good q reply h = Returns-pure (some reply, none) h

  FromReply-send :
      (r : Request) (f : Try Response → Go (Option Response × Option PzCustomError))
      → ((e : GoError) → Returns (FromReply r) (f (err e)))
      → ((reply : Response) → IsReply r reply → Returns (FromReply r) (f (ok reply)))
      → Returns (FromReply r) (send host r >>= f)
  FromReply-send r f he hr = Returns-bind _ _ f (send-IsReply r) (λ a h. by_answer a h)
    where
      by_answer :
          (a : Try Response)
          → ((reply : Response) → a ≡ ok reply → IsReply r reply)
          → Returns (FromReply r) (f a)
      by_answer (err e) h = he e
      by_answer (ok reply) h = hr reply (h reply refl)

  submit-FromReply :
      (method body url auth : String)
      → Returns
          (FromReply (json_request method body url auth))
          (submit_single_part host method body url auth)
  unfolding submit_single_part
  submit-FromReply method body url auth =
      search
        (
          Returns-if,
          Returns-on_nil,
          FromReply-error (json_request method body url auth),
          FromReply-good (json_request method body url auth),
          FromReply-send,
        )
        depth 12

  read-IsSaid :
      {A : Type 0} (q : Request) (d : Decoder A) (reply : Response)
      → IsReply q reply
      → Said q d (read_body_json d reply.body)
  unfolding read_body_json
  read-IsSaid q d reply h = λ n. (reply, h, ground (arith, n))

  pub request_known_json-Said :
      {A : Type 0} (method body url auth : String) (d : Decoder A)
      → Returns
          (Said (json_request method body url auth) d)
          (request_known_json host method body url auth d)
  unfolding request_known_json
  request_known_json-Said method body url auth d =
      Returns-bind _ _ _ (submit-FromReply method body url auth) (λ (resp, e) h.
        Returns-on_nil_both e _ _
          (λ n. Returns-on_nil_eq resp _ _ Returns-crash (λ reply k.
            Returns-pure _ (read-IsSaid _ d reply (FromReply-IsReply _ resp e reply h n k))))
          (λ e' n.
            Returns-on_nil resp _ _ (Returns-pure _ (λ k. absurd (cc)))
              (λ reply. Returns-pure _ (λ k. absurd (cc)))))
