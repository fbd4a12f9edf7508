-- ===== src/Dispatcher/Cf/Laws.antt =====
-- What the cached session is good for.
use pzsvc_exec.Prelude.{
  ℕ, String, Bool, true, false, Option, none, some, ◌≡◌, ◌⊎◌, inl, inr, refl, ap, sym, subst, ◌∙◌,
  count, if◌then◌else◌,
}
use pzsvc_exec.Host.{
  Host, Event, Trace, GoError, Try, ok, err, TaskRequest, CfConfig, ret, logged, listed_apps,
  counted, created, connected, is_created, is_connected, pure, on_nil, on_error,
}
use pzsvc_exec.Host.Adds.{Adds, adds_rules}
use pzsvc_exec.Host.Counts.{AtMost, AtMost-before, at_most_rules}
use pzsvc_exec.Host.Returns.{
  Returns, Returns-pure, Returns-then, Returns-bind, Returns-on_nil_both, returns_rules,
}
use pzsvc_exec.Pzsvc.Model.{Session}
use pzsvc_exec.Pzsvc.Log.{log_info, log_message}
use pzsvc_exec.Pzsvc.Log.Laws.{log_info-Adds, log_simple_err-Adds}
use pzsvc_exec.Dispatcher.Cf.{
  validation_query, DefaultFactory, CreateSessionFunc, WrappedCfSession, is_valid,
  count_tasks_for_app, create_task, refresh_cached_client, refreshed, get_session, FactoryConfig,
  new_wrapped_cf_session,
}

module _ (host : Host) where
  -- This was the answer of a validation of the session.
  abbrev pub IsJudged : WrappedCfSession → Bool → Type 0
  IsJudged s b = (t : Trace) × ((is_valid host s t).0 ≡ ret (ok b))

  -- This was the session that the factory's function made.
  abbrev pub IsMade : DefaultFactory → Option WrappedCfSession → Type 0
  IsMade f o = (t : Trace) × ((f.create_session f.pz_session f.config t).0 ≡ ret (ok o))

  -- There is no cached session, or it was judged invalid.
  abbrev pub IsStale : DefaultFactory → Type 0
  IsStale f =
      (f.cached_session ≡ none)
      ⊎ ((s : WrappedCfSession) × (f.cached_session ≡ some s) × IsJudged s false)

  -- The cached session, judged valid, with the factory as it was; or the one made in place of a
  -- stale one, which the factory then keeps.
  abbrev pub IsCurrent : DefaultFactory → Try (Option WrappedCfSession) × DefaultFactory → Type 0
  IsCurrent f (err e, f') = Unit
  IsCurrent f (ok o, f') =
      ((s : WrappedCfSession) × (o ≡ some s)
        × (f.cached_session ≡ some s)
        × IsJudged s true
        × (f' ≡ f))
      ⊎ (IsStale f × IsMade f o × (f' ≡ record f { cached_session = o }))

  abbrev IsRefreshed : DefaultFactory → Option GoError × DefaultFactory → Type 0
  IsRefreshed f (some e, f') = Unit
  IsRefreshed f (none, f') =
      (o : Option WrappedCfSession) × IsMade f o × (f' ≡ record f { cached_session = o })

  made :
      (f : DefaultFactory) (r : Try (Option WrappedCfSession)) (t : Trace)
      → (f.create_session f.pz_session f.config t).0 ≡ ret r
      → Returns
          (IsRefreshed f)
          (on_error r (λ e. pure (some e, f)) (λ o. pure (none, record f { cached_session = o })))
  made f (ok o) t h = Returns-pure _ (o, (t, h), refl)
  made f (err e) t h = Returns-pure _ tt

  refresh-IsRefreshed :
      (f : DefaultFactory) → Returns (IsRefreshed f) (refresh_cached_client host f)
  unfolding refresh_cached_client
  refresh-IsRefreshed f = Returns-then _ _ (λ _.
      Returns-bind (λ r. (t : Trace) × ((f.create_session f.pz_session f.config t).0 ≡ ret r))
        (f.create_session f.pz_session f.config) _ (record { at = λ t r e. (t, e) })
        (λ r (t, h). made f r t h))

  after_refresh :
      (f : DefaultFactory) (e : Option GoError) (f' : DefaultFactory)
      → IsStale f
      → IsRefreshed f (e, f')
      → Returns (IsCurrent f) (on_nil e (pure (ok f'.cached_session, f')) (λ e'. pure (err e', f')))
  after_refresh f none f' stale (o, m, h) =
      let same : f'.cached_session ≡ o = ap (λ x. x.cached_session) h in
      Returns-pure (ok f'.cached_session, f')
        (inr (
          stale,
          subst (IsMade f) (sym same) m,
          h ∙ ap (λ x. record f { cached_session = x }) (sym same),
        ))
  after_refresh f (some e) f' stale h = Returns-pure (err e, f') tt

  refreshed-IsCurrent : (f : DefaultFactory) → IsStale f → Returns (IsCurrent f) (refreshed host f)
  unfolding refreshed
  refreshed-IsCurrent f stale =
      Returns-bind (IsRefreshed f) _ _ (refresh-IsRefreshed f)
        (λ (e, f') h. after_refresh f e f' stale h)

  after_judgement :
      (f : DefaultFactory) (s : WrappedCfSession) (v : Try Bool) (t : Trace)
      → f.cached_session ≡ some s
      → (is_valid host s t).0 ≡ ret v
      → Returns (IsCurrent f) (
          on_error v
            (λ e. pure (err e, f))
            (λ valid. if valid then pure (ok f.cached_session, f) else refreshed host f))
  after_judgement f s (err e) t h j = Returns-pure (err e, f) tt
  after_judgement f s (ok true) t h j =
      Returns-pure (ok f.cached_session, f) (inl (s, h, h, (t, j), refl))
  after_judgement f s (ok false) t h j = refreshed-IsCurrent f (inr (s, h, (t, j)))

  -- Whatever GetSession returns without an error is the cached session, which was judged valid, with
  -- the factory as it was; or, where no session was cached or the cached one was judged invalid, the
  -- session that the factory's function made, which the factory then keeps.
  pub get_session-IsCurrent :
      (f : DefaultFactory) (t : Trace) (r : Try (Option WrappedCfSession) × DefaultFactory)
      → (get_session host f t).0 ≡ ret r
      → IsCurrent f r
  unfolding get_session
  get_session-IsCurrent f =
      let h : Returns (IsCurrent f) (get_session host f) =
        Returns-on_nil_both f.cached_session _ _ (λ h. refreshed-IsCurrent f (inl h))
          (λ s h.
            Returns-bind (λ v. (t : Trace) × ((is_valid host s t).0 ≡ ret v)) (is_valid host s) _
              (record { at = λ t v e. (t, e) }) (λ v (t, j). after_judgement f s v t h j)) in
      h.at

  -- A cached session with a client whose validation query succeeds is used again: the factory does
  -- not change and no connection is made.
  pub get_session_cached :
      (f : DefaultFactory) (s : WrappedCfSession) (client : ℕ) (t : Trace)
      → f.cached_session ≡ some s
      → s.client ≡ some client
      → ((t' : Trace) → host.cloud_foundry.list_apps t' client validation_query ≡ none)
      → ((get_session host f t).0 ≡ ret (ok (some s), f))
        × (count is_connected (get_session host f t).1 ≡ count is_connected t)
  unfolding get_session is_valid log_info log_message
  get_session_cached f s client t h k valid = (simp (h, k, valid) refl, simp (h, k, valid) refl)

  -- The function that makes sessions stays the same.
  module _ (P : CreateSessionFunc → Type 0) (f : DefaultFactory) (h : P f.create_session) where
    refresh-keeps : Returns (λ r. P (r.1).create_session) (refresh_cached_client host f)
    unfolding refresh_cached_client
    refresh-keeps = search (returns_rules, h) depth 12

    refreshed-keeps : Returns (λ r. P (r.1).create_session) (refreshed host f)
    unfolding refreshed
    refreshed-keeps =
        Returns-bind (λ r. P (r.1).create_session) _ _ refresh-keeps
          (λ (e, f') k. search (returns_rules, k) depth 9)

    pub get_session-keeps : Returns (λ r. P (r.1).create_session) (get_session host f)
    unfolding get_session
    get_session-keeps = search (returns_rules, refreshed-keeps, h) depth 9

  module _ {Q : Event → Type 0} (q : (line : String) → Q (logged line)) where
    pub is_valid-Adds : (s : WrappedCfSession) → Q listed_apps → Adds Q (is_valid host s)
    unfolding is_valid
    is_valid-Adds s l = search (adds_rules, log_info-Adds host {Q = Q} q) depth 9

    pub count_tasks_for_app-Adds :
        (s : WrappedCfSession) (app : String)
        → Q (counted app)
        → Adds Q (count_tasks_for_app host s app)
    unfolding count_tasks_for_app
    count_tasks_for_app-Adds s app c =
        search (adds_rules, log_simple_err-Adds host {Q = Q} q) depth 9

    refresh_cached_client-Adds :
        (f : DefaultFactory)
        → ((s : Session) (c : FactoryConfig) → Adds Q (f.create_session s c))
        → Adds Q (refresh_cached_client host f)
    unfolding refresh_cached_client
    refresh_cached_client-Adds f create =
        search (adds_rules, log_info-Adds host {Q = Q} q, create) depth 9

    refreshed-Adds :
        (f : DefaultFactory)
        → ((s : Session) (c : FactoryConfig) → Adds Q (f.create_session s c))
        → Adds Q (refreshed host f)
    unfolding refreshed
    refreshed-Adds f create = search (adds_rules, refresh_cached_client-Adds) depth 9

    pub create_task-Adds :
        (s : WrappedCfSession) (r : TaskRequest) → Q (created r) → Adds Q (create_task host s r)
    unfolding create_task
    create_task-Adds s r c = search adds_rules depth 9

    pub new_session-Adds :
        ((c : CfConfig) → Q (connected c))
        → (s : Session) (c : FactoryConfig) → Adds Q (new_wrapped_cf_session host s c)
    unfolding new_wrapped_cf_session
    new_session-Adds connect s c = search (adds_rules, connect) depth 9

    pub get_session-Adds :
        (f : DefaultFactory)
        → ((s : Session) (c : FactoryConfig) → Adds Q (f.create_session s c))
        → Q listed_apps
        → Adds Q (get_session host f)
    unfolding get_session
    get_session-Adds f create l = search (adds_rules, is_valid-Adds, refreshed-Adds) depth 9

  pub create_task-AtMost :
      (s : WrappedCfSession) (r : TaskRequest) → AtMost is_created 1 (create_task host s r)
  unfolding create_task
  create_task-AtMost s r = search (at_most_rules, adds_rules, AtMost-before) depth 9
