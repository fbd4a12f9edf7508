-- ===== src/Dispatcher/Cf.antt =====
-- dispatcher/cfwrapper: the Cloud Foundry session, its validation and the factory that caches it.
pub mod Laws
use pzsvc_exec.Prelude.{
  ℕ, String, ◌<>◌, Bool, true, false, ◌||◌, Option, none, some, List, [], ◌∷◌, length,
  if◌then◌else◌,
}
use pzsvc_exec.Text.{contains}
use pzsvc_exec.Host.{
  Host, CfConfig, TaskRequest, Go, GoError, memory_limit, Try, ok, err, error_text, connected,
  listed_apps, counted, created, look, emit, pure, crash, on_nil, on_error, ◌>>=◌, ◌>>◌,
}
use pzsvc_exec.Pzsvc.Model.{Session}
use pzsvc_exec.Pzsvc.Log.{log_info, log_simple_err}

-- `createSessionFunc` is an argument of `new_factory`.
pub record FactoryConfig : Type 0 where
  pub api_address : String
  pub username : String
  pub password : String
  pub http_client : Option ℕ
  pub token : String
  pub token_source : Option ℕ

unfoldable pub cf_client_config : FactoryConfig → CfConfig
cf_client_config fc = record {
  api_address = fc.api_address;
  username = fc.username;
  password = fc.password;
  http_client = fc.http_client;
  token = fc.token;
  token_source = fc.token_source;
  user_agent = "venicegeo/pzsvc-exec/dispatcher/cfwrapper 2.0";
}

-- A session over a client, which may be a nil pointer.
pub record WrappedCfSession : Type 0 where
  pub pz_session : Session
  pub client : Option ℕ

-- The session is an interface, which may be nil.
abbrev pub CreateSessionFunc : Type 0
CreateSessionFunc = Session → FactoryConfig → Go (Try (Option WrappedCfSession))

pub record DefaultFactory : Type 0 where
  pub pz_session : Session
  pub config : FactoryConfig
  pub cached_session : Option WrappedCfSession
  pub create_session : CreateSessionFunc

-- A query that leaves everything out, and one for the tasks in the state RUNNING.
abbrev pub validation_query : List (String × String)
validation_query = ("q", "name:ndwi") ∷ []

abbrev pub count_query : List (String × String)
count_query = ("states", "RUNNING") ∷ []

module _ (host : Host) where
  -- The errors of the limits that the organization or the space sets.
  unfoldable pub is_memory_limit_error : GoError → Bool
  is_memory_limit_error (memory_limit m) = true
  is_memory_limit_error e =
      host.cloud_foundry.is_app_memory_quota_exceeded e
      || host.cloud_foundry.is_quota_instance_limit_exceeded e
      || host.cloud_foundry.is_quota_instance_memory_limit_exceeded e
      || host.cloud_foundry.is_space_quota_instance_memory_limit_exceeded e

  -- What the error of the validation query says: the session is stale, or the query failed.
  unfoldable pub judge : GoError → Try Bool
  judge e =
      if host.cloud_foundry.is_not_authorized e || host.cloud_foundry.is_not_authenticated e
      then ok false
      else if contains (error_text e) "oauth2: cannot fetch token"
      then ok false
      else err e

  unfoldable pub is_valid : WrappedCfSession → Go (Try Bool)
  unfolding judge
  is_valid s = on_nil s.client (pure (ok false)) (λ client. do
    log_info host s.pz_session "Submitting client validation request."
    e ← look (λ t. host.cloud_foundry.list_apps t client validation_query)
    emit listed_apps
    log_info host s.pz_session "Validation request complete."
    pure (on_nil e (ok true) judge))

  unfoldable pub count_tasks_for_app : WrappedCfSession → (app_id : String) → Go (Try ℕ)
  count_tasks_for_app s app_id = on_nil s.client crash (λ client. do
    r ← look (λ t. host.cloud_foundry.tasks_by_app t client app_id count_query)
    emit (counted app_id)
    on_error r
        (λ e. do _ ← log_simple_err host s.pz_session "Cannot poll CF tasks" (some e); pure (err e))
        (λ tasks. pure (ok (length tasks))))

  unfoldable pub create_task : WrappedCfSession → TaskRequest → Go (Option GoError)
  create_task s request = on_nil s.client crash (λ client. do
    e ← look (λ t. host.cloud_foundry.create_task t client request)
    emit (created request)
    pure e)

  unfoldable pub new_wrapped_cf_session : CreateSessionFunc
  unfolding cf_client_config
  new_wrapped_cf_session pz_session config = do
    r ← look (λ t. host.cloud_foundry.new_client t (cf_client_config config))
    emit (connected (cf_client_config config))
    on_error r (λ e. pure (err e))
        (λ client. pure (ok (some (record { pz_session = pz_session; client = some client }))))

  unfoldable pub new_factory : Session → FactoryConfig → Option CreateSessionFunc → DefaultFactory
  new_factory pz_session config create = record {
    pz_session = pz_session;
    config = config;
    cached_session = none;
    create_session = on_nil create new_wrapped_cf_session (λ f. f);
  }

  -- The error, and the factory after it.
  unfoldable pub refresh_cached_client : DefaultFactory → Go (Option GoError × DefaultFactory)
  refresh_cached_client f = do
    log_info host f.pz_session
        ("Regenerating Cloud Foundry Client with create function: " <> host.func_text)
    r ← f.create_session f.pz_session f.config
    on_error r (λ e. pure (some e, f))
        (λ session. pure (none, record f { cached_session = session }))

  refreshed : DefaultFactory → Go (Try (Option WrappedCfSession) × DefaultFactory)
  refreshed f = do
    (e, f') ← refresh_cached_client f
    on_nil e (pure (ok f'.cached_session, f')) (λ e'. pure (err e', f'))

  unfoldable pub get_session : DefaultFactory → Go (Try (Option WrappedCfSession) × DefaultFactory)
  unfolding refreshed
  get_session f = on_nil f.cached_session (refreshed f) (λ cached. do
    v ← is_valid cached
    on_error v (λ e. pure (err e, f))
        (λ valid. if valid then pure (ok f.cached_session, f) else refreshed f))
