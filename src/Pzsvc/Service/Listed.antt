-- ===== src/Pzsvc/Service/Listed.antt =====
-- The service that is found is one that Piazza has listed.
use pzsvc_exec.Prelude.{String, ◌<>◌, Option, none, some, ◌≡◌, refl, inl, inr, ◌⊎◌}
use pzsvc_exec.Host.{Host, Request, Go, GoError, Try, ok, err, pure, ◌>>=◌}
use pzsvc_exec.Host.Returns.{Returns, Returns-pure, Returns-then, Returns-bind, Returns-on_nil}
use pzsvc_exec.Pzsvc.Model.{Session, SvcList}
use pzsvc_exec.Pzsvc.Json.{PzJson}
use pzsvc_exec.Pzsvc.CustomError.{PzCustomError}
use pzsvc_exec.Pzsvc.Http.{json_request, request_known_json}
use pzsvc_exec.Pzsvc.Http.Replies.{IsSaid, Said, request_known_json-Said}
use pzsvc_exec.Pzsvc.Service.{find_service, find_my_svc}
use pzsvc_exec.Pzsvc.Service.Search.{IsFirst, find_service-IsFirst}

-- The request for the services of a user that match a name.
abbrev pub listing_request : Host → Session → (name user : String) → Request
listing_request host s name user =
    json_request "GET" ""
      (s.pz_addr
        <> "/service?per_page=1000&keyword="
        <> host.query_escape name
        <> "&createdBy="
        <> user)
      s.pz_auth

module _ (host : Host) (json : PzJson) (name : String) (s : Session) where
  -- The list that Piazza replied to the request for the services of some user.
  abbrev pub IsListing : SvcList → Type 0
  IsListing l = (user : String) × IsSaid host (listing_request host s name user) json.svc_list l

  -- The ID is that of the first service with the name in such a list, or empty.
  abbrev pub IsListed : String → Type 0
  IsListed id = (id ≡ "") ⊎ ((l : SvcList) × IsListing l × IsFirst name l.services id)

  abbrev pub IsListedIf : Try String → Type 0
  IsListedIf (ok id) = IsListed id
  IsListedIf (err e) = Unit

  listed : (l : SvcList) → IsListing l → IsListed (find_service name l.services)
  listed l h = elim (find_service-IsFirst name l.services) [
    | inl f ↦ inr (l, h, f)
    | inr (o, e) ↦ inl e
  ]

  good : (l : SvcList) → IsListing l → Returns IsListedIf (pure (ok (find_service name l.services)))
  good l h = Returns-pure (ok (find_service name l.services)) (listed l h)

  failed : (e : GoError) → Returns IsListedIf (pure (err e))
  failed e = Returns-pure (err e) tt

  ask_list :
      (user : String) (f : SvcList × String × Option PzCustomError → Go (Try String))
      → ((l : SvcList) (byts : String) → IsListing l → Returns IsListedIf (f (l, byts, none)))
      → ((l : SvcList) (byts : String) (e : PzCustomError)
          → Returns IsListedIf (f (l, byts, some e)))
      → Returns IsListedIf (
          request_known_json host "GET" ""
            (s.pz_addr
              <> "/service?per_page=1000&keyword="
              <> host.query_escape name
              <> "&createdBy="
              <> user)
            s.pz_auth
            json.svc_list
          >>= f)
  ask_list user f hn he =
      Returns-bind _ _ f (request_known_json-Said host "GET" "" _ s.pz_auth json.svc_list)
        (λ (l, byts, e) h. by_error l byts e h)
    where
      by_error :
          (l : SvcList) (byts : String) (e : Option PzCustomError)
          → Said host (listing_request host s name user) json.svc_list (l, byts, e)
          → Returns IsListedIf (f (l, byts, e))
      by_error l byts none h = hn l byts (user, h refl)
      by_error l byts (some e) h = he l byts e

  pub find_my_svc-IsListed : Returns IsListedIf (find_my_svc host json s name)
  unfolding find_my_svc
  find_my_svc-IsListed = search (ask_list, good, failed, Returns-on_nil, Returns-then) depth 14
