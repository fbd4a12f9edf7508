-- ===== src/Dispatcher/Main.antt =====
-- dispatcher/main.go and dispatcher/pzsvc_discover.go: start-up, up to the polling loop.
pub mod Laws
use pzsvc_exec.Prelude.{
  ℕ, String, ◌<>◌, ◌==◌, Bool, true, Option, none, some, List, [], ◌∷◌, if◌then◌else◌, nonempty,
}
use pzsvc_exec.Host.{
  Host, Go, GoError, plain, Try, ok, err, read, slept, look, emit, pure, on_nil, on_error, ◌>>=◌,
  ◌>>◌,
}
use pzsvc_exec.Pzsvc.Model.{Session, zero_session}
use pzsvc_exec.Pzsvc.Log.{log_info, log_audit, log_simple_err, info_level}
use pzsvc_exec.Pzsvc.Service.{find_my_svc}
use pzsvc_exec.Pzsvc.Config.{Config}
use pzsvc_exec.Pzsvc.Config.Startup.{parse_config_and_register}
use pzsvc_exec.Dispatcher.JobData.{DispatcherJson}
use pzsvc_exec.Dispatcher.Cf.{DefaultFactory, new_factory}
use pzsvc_exec.Dispatcher.Poll.{Loop, new_loop}

-- How `main` goes on: it exits with a status, returns, or polls.
pub data Startup : Type 0 where
  exit_with : ℕ → Startup
  stopped : Startup
  polling : Loop → DefaultFactory → Startup

abbrev pub startup_session : Session
startup_session = record zero_session {
  app_name = "Dispatcher";
  session_id = "Startup";
  log_root_dir = "pzsvc-exec";
}

-- PzAddr, which a set variable replaces.
unfoldable pub address_of : Host → Config → String
address_of host c =
    let new_addr = host.getenv c.pz_addr_en_var in
    if nonempty c.pz_addr_en_var
    then (if nonempty new_addr then new_addr else c.pz_addr)
    else c.pz_addr

module _ (host : Host) (json : DispatcherJson) where
  -- The registration fills the port of the configuration in.
  unfoldable pub discover_svc_id : Session → Config → Go (Try String × Config)
  discover_svc_id s config = do
    r ← find_my_svc host json.pz s config.svc_name
    on_error r
        (λ e. do
          _ ←
              log_simple_err host s "Dispatcher could not find Piazza Service ID.  Initial Error: "
                (some e)
          pure (err e, config))
        (λ svc_id. if nonempty svc_id then pure (ok svc_id, config) else (do
          log_info host s "Could not find service.  Will attempt to register it."
          (_, new_session, config') ← parse_config_and_register host json.pz s config
          emit (slept 1)
          r' ← find_my_svc host json.pz new_session config.svc_name
          on_error r'
              (λ e. do
                _ ←
                    log_simple_err host s
                      "Dispatcher could not find new Service ID post registration.  Initial Error: "
                      (some e)
                pure (err e, config'))
              (λ new_id.
                if new_id == ""
                then (do
                  log_info host s
                      "Could not find service ID post registration. The application cannot start. Please verify Service Registration and restart the application."
                  pure (err (plain "could not find service ID post registration"), config'))
                else pure (ok new_id, config'))))

  fail_with : Session → String → Option GoError → Go Startup
  fail_with s msg e = do _ ← log_simple_err host s msg e; pure stopped

  -- From the API key on.
  unfoldable pub start_polling : Session → Config → (config_path : String) → Go Startup
  unfolding fail_with
  start_polling s config config_path = do
    (r, config') ← discover_svc_id s config
    on_error r (λ e. fail_with s "Dispatcher could not find Piazza Service ID. Error: " (some e))
        (λ svc_id. do
          log_info host s ("Found target service.  ServiceID: " <> svc_id <> ".")
          let factory =
              new_factory host s
                (record {
                  api_address = host.getenv "CF_API";
                  username = host.getenv "CF_USER";
                  password = host.getenv "CF_PASS";
                  http_client = some 120;
                  token = "";
                  token_source = none;
                })
                none
          log_info host s "Cloud Foundry Client initialized. Beginning Polling."
          l ← new_loop host json s config' svc_id config_path
          on_error l (λ e. fail_with s "Error in initializing dispatch polling loop: " (some e))
              (λ poll_loop. pure (polling poll_loop factory)))

  -- The ladder of checks before the service is looked for.
  unfoldable pub checked : Session → Config → (config_path : String) → Go Startup
  unfolding fail_with
  checked s config config_path =
      let api_key = host.getenv config.api_key_en_var in
      if s.pz_addr == ""
      then fail_with s
          "Config: Cannot work tasks.  Must have either a valid PzAddr, or a valid and populated PzAddrEnVar."
          none
      else if config.svc_name == ""
      then fail_with s "Config: Cannot work tasks without service name." none
      else if config.api_key_en_var == ""
      then fail_with s "Config: Cannot work tasks without valid APIKeyEnVar." none
      else if api_key == ""
      then fail_with s "No API key at APIKeyEnVar.  Cannot work." none
      else start_polling (record s { pz_auth = "Basic " <> host.base64 (api_key <> ":") }) config
          config_path

  -- The configuration that was read.
  unfoldable pub configured : Session → Config → (config_path : String) → Go Startup
  unfolding address_of
  configured s config config_path = do
    let s' = record s { log_audit = config.log_audit }
    log_info host s' (
        if config.log_audit
        then "Config: Audit logging enabled."
        else "Config: Audit logging disabled.")
    checked (record s' { pz_addr = address_of host config }) config config_path

  -- `os.Args` with the command's name first.
  unfoldable pub main : List String → Go Startup
  unfolding fail_with
  main (command ∷ config_path ∷ more) = do
    log_audit host startup_session startup_session.app_name "startup" startup_session.app_name ""
        info_level
    content ← look (λ t. host.read_file t config_path)
    emit (read config_path)
    on_error content
        (λ e. fail_with startup_session "Dispatcher error in reading config: " (some e))
        (λ bytes.
          let (config, e) = json.config.decode bytes in
          on_nil e (configured startup_session config config_path) (λ e'.
            fail_with startup_session "Dispatcher error in unmarshalling config: " (some e')))
  main _ = do
    log_audit host startup_session startup_session.app_name "startup" startup_session.app_name ""
        info_level
    _ ←
        log_simple_err host startup_session
          "error: Insufficient parameters.  You must specify a config file." none
    pure (exit_with 1)
