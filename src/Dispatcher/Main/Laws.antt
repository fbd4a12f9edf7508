-- ===== src/Dispatcher/Main/Laws.antt =====
-- What holds when start-up comes to polling.
use pzsvc_exec.Prelude.{
  String, ◌==◌, ◌<>◌, true, false, Option, some, ◌≡◌, refl, if◌then◌else◌, nonempty, eq_iff, inl,
  inr, ◌⊎◌, arith,
}
use pzsvc_exec.Host.{Host, Go, ◌>>=◌, Trace, GoError, Try, ok, err, ret, on_error, pure}
use pzsvc_exec.Host.Returns.{
  Returns, Returns-pure, Returns-then, Returns-bind, Returns-if, Returns-if_eq, returns_rules,
}
use pzsvc_exec.Pzsvc.Model.{Session, SvcList}
use pzsvc_exec.Pzsvc.Log.{log_info}
use pzsvc_exec.Pzsvc.Config.{Config, ConfigParseOut}
use pzsvc_exec.Pzsvc.Config.Startup.{parse_config_and_register}
use pzsvc_exec.Pzsvc.Service.{find_my_svc}
use pzsvc_exec.Pzsvc.Service.Search.{IsFirst}
use pzsvc_exec.Pzsvc.Service.Listed.{IsListing, IsListed, IsListedIf, find_my_svc-IsListed}
use pzsvc_exec.Dispatcher.JobData.{DispatcherJson}
use pzsvc_exec.Dispatcher.Cf.{DefaultFactory}
use pzsvc_exec.Dispatcher.Poll.{Loop, new_loop}
use pzsvc_exec.Dispatcher.Poll.Limit.{IsNew, new_loop-IsNew}
use pzsvc_exec.Dispatcher.Main.{
  Startup, polling, discover_svc_id, fail_with, start_polling, checked,
}

module _ (host : Host) (json : DispatcherJson) where
  -- The session itself, or the one that registering the service in it has made.
  abbrev pub IsRegistered : Session → Config → Session → Type 0
  IsRegistered s c s' =
      (s' ≡ s)
      ⊎ ((t : Trace) × (o : ConfigParseOut) × (c' : Config) × ((parse_config_and_register host
              json.pz s c t).0
            ≡ ret (o, s', c')))

  -- The ID of the first service with the configured name in a list of services that Piazza replied
  -- to the request for them, in such a session.
  abbrev pub IsService : Session → Config → String → Type 0
  IsService s c id =
      (nonempty id ≡ true)
      × ((s' : Session) × IsRegistered s c s'
          × ((l : SvcList) × IsListing host json.pz c.svc_name s' l
              × IsFirst c.svc_name l.services id))

  -- A service that is there, or an error.
  abbrev IsFound : Session → Config → Try String × Config → Type 0
  IsFound s c (ok id, c') = IsService s c id
  IsFound s c (err e, c') = Unit

  -- A loop with such a service, an address to poll and an authorization.
  abbrev pub IsReady : Config → Startup → Type 0
  IsReady c (polling l f) =
      IsService l.pz_session c l.svc_id
      × (nonempty l.pz_session.pz_addr ≡ true)
      × ((auth : String) × (l.pz_session.pz_auth ≡ "Basic " <> auth))
  IsReady c _ = Unit

  module _ (s : Session) (c : Config) where
    module _ (s' : Session) (reg : IsRegistered s c s') where
      IsFound-nonempty :
          (id : String) (c' : Config)
          → IsListed host json.pz c.svc_name s' id
          → nonempty id ≡ true
          → Returns (IsFound s c) (pure (ok id, c'))
      IsFound-nonempty id c' (inl e) h = absurd (ground (arith, eq_iff id "", e, h))
      IsFound-nonempty id c' (inr f) h = Returns-pure (ok id, c') (h, (s', reg, f))

      IsFound-named :
          (id : String) (c' : Config)
          → IsListed host json.pz c.svc_name s' id
          → (id == "") ≡ false
          → Returns (IsFound s c) (pure (ok id, c'))
      IsFound-named id c' f h = IsFound-nonempty id c' f (rw h refl)

      IsFound-search :
          (k : GoError → Go (Try String × Config)) (g : String → Go (Try String × Config))
          → ((e : GoError) → Returns (IsFound s c) (k e))
          → ((id : String) → IsListed host json.pz c.svc_name s' id → Returns (IsFound s c) (g id))
          → Returns (IsFound s c) (find_my_svc host json.pz s' c.svc_name >>= λ r. on_error r k g)
      IsFound-search k g hk hg =
          Returns-bind _ _ _ (find_my_svc-IsListed host json.pz c.svc_name s')
            (λ r h. by_result r h)
        where
          by_result :
              (r : Try String)
              → IsListedIf host json.pz c.svc_name s' r
              → Returns (IsFound s c) (on_error r k g)
          by_result (ok id) h = hg id h
          by_result (err e) h = hk e

    IsFound-error : (e : GoError) (c' : Config) → Returns (IsFound s c) (pure (err e, c'))
    IsFound-error e c' = Returns-pure (err e, c') tt

    IsFound-again :
        (s' : Session) (c' : Config) (k : GoError → Go (Try String × Config))
        (m : Go (Try String × Config))
        → IsRegistered s c s'
        → ((e : GoError) → Returns (IsFound s c) (k e))
        → Returns (IsFound s c) m
        → Returns (IsFound s c) (
            find_my_svc host json.pz s' c.svc_name >>= λ r.
            on_error r k (λ id. if id == "" then m else pure (ok id, c')))
    IsFound-again s' c' k m reg hk hm =
        IsFound-search s' reg k _ hk
          (λ id h. Returns-if_eq _ _ _ (λ _. hm) (λ n. IsFound-named s' reg id c' h n))

    IsFound-register :
        (g : ConfigParseOut × Session × Config → Go (Try String × Config))
        → ((o : ConfigParseOut) (s' : Session) (c' : Config)
            → IsRegistered s c s'
            → Returns (IsFound s c) (g (o, s', c')))
        → Returns (IsFound s c) (parse_config_and_register host json.pz s c >>= g)
    IsFound-register g h =
        Returns-bind (λ r. (t : Trace) × ((parse_config_and_register host json.pz s c t).0 ≡ ret r))
          (parse_config_and_register host json.pz s c) g (record { at = λ t r e. (t, e) })
          (λ (o, s', c') (t, e). h o s' c' (inr (t, o, c', e)))

    discover_svc_id-IsFound : Returns (IsFound s c) (discover_svc_id host json s c)
    unfolding discover_svc_id
    discover_svc_id-IsFound =
        let own : IsRegistered s c s = inl refl in
        search
          (
            IsFound-again,
            IsFound-search s own,
            IsFound-register,
            IsFound-nonempty s own,
            IsFound-error,
            Returns-if_eq,
            Returns-then,
          )
          depth 18

  fail_with-IsReady :
      (c : Config) (s : Session) (m : String) (e : Option GoError)
      → Returns (IsReady c) (fail_with host json s m e)
  unfolding fail_with
  fail_with-IsReady c s m e = search returns_rules

  module _ (s : Session) (c : Config) (path : String) (addr : nonempty s.pz_addr ≡ true)
      (auth : String) (has : s.pz_auth ≡ "Basic " <> auth) where
    IsReady-loop :
        (id : String) (f : DefaultFactory) (c' : Config) (r : Try Loop) (k : GoError → Go Startup)
        → IsService s c id
        → ((e : GoError) → Returns (IsReady c) (k e))
        → IsNew host json s c' id path r
        → Returns (IsReady c) (on_error r k (λ l. pure (polling l f)))
    IsReady-loop id f c' (ok l) k h hk (a, b, d) =
        Returns-pure _ (rw (a, b) h, rw a addr, (auth, rw a has))
    IsReady-loop id f c' (err e) k h hk n = hk e

    bind_new :
        (id : String) (f : DefaultFactory) (c' : Config) (k : GoError → Go Startup)
        → IsService s c id
        → ((e : GoError) → Returns (IsReady c) (k e))
        → Returns
            (IsReady c)
            (new_loop host json s c' id path >>= λ r. on_error r k (λ l. pure (polling l f)))
    bind_new id f c' k h hk =
        Returns-bind _ _ _ (new_loop-IsNew host json s c' id path)
          (λ r n. IsReady-loop id f c' r k h hk n)

    start_found :
        (r : Try String) (k : GoError → Go Startup) (g : String → Go Startup)
        → (c' : Config) → IsFound s c (r, c')
        → ((e : GoError) → Returns (IsReady c) (k e))
        → ((id : String) → IsService s c id → Returns (IsReady c) (g id))
        → Returns (IsReady c) (on_error r k g)
    start_found (ok id) k g c' h hk hg = hg id h
    start_found (err e) k g c' h hk hg = hk e

    start_polling-IsReady : Returns (IsReady c) (start_polling host json s c path)
    unfolding start_polling
    start_polling-IsReady =
        Returns-bind (IsFound s c) (discover_svc_id host json s c) _ (discover_svc_id-IsFound s c)
          (λ (r, c') h.
            start_found r _ _ c' h (λ e. fail_with-IsReady c s _ _)
              (λ id found. Returns-then (log_info host s _) _ (λ _.
                Returns-then (log_info host s _) _ (λ _.
                  bind_new id _ c' (λ e. fail_with host json s _ (some e)) found
                    (λ e. fail_with-IsReady c s _ _)))))

  start_addressed :
      (s : Session) (key : String) (c : Config) (path : String)
      → (s.pz_addr == "") ≡ false
      → Returns
          (IsReady c)
          (start_polling host json (record s { pz_auth = "Basic " <> key }) c path)
  start_addressed s key c path h = start_polling-IsReady _ c path (rw h refl) key refl

  -- Start-up comes to polling only with the ID of a service, a Piazza address and a Basic
  -- authorization, whatever the configuration and the environment are. The service is the first of
  -- the configured name in a list that Piazza replied to the request for the services of a user, in
  -- the session that is polled, or in the one that registering the service in it has made.
  pub checked-IsReady :
      (s : Session) (c : Config) (path : String) (t : Trace) (r : Startup)
      → (checked host json s c path t).0 ≡ ret r
      → IsReady c r
  unfolding checked
  checked-IsReady s c path =
      let h : Returns (IsReady c) (checked host json s c path) =
        search (Returns-if_eq, Returns-if, fail_with-IsReady c, start_addressed) depth 14 in
      h.at
