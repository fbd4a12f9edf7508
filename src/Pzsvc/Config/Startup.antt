-- ===== src/Pzsvc/Config/Startup.antt =====
-- pzsvc/config.go: ParseConfigAndRegister, from the environment to the registration.
use pzsvc_exec.Prelude.{
  String, ◌<>◌, ◌==◌, Bool, true, false, ◌||◌, ◌&&◌, some, [], if◌then◌else◌, nonempty,
}
use pzsvc_exec.Prelude.Int.{ℤ, pos, positive}
use pzsvc_exec.Text.{itoa, atoi}
use pzsvc_exec.Host.{Host, Go, pure, on_nil, ◌>>=◌, ◌>>◌, when}
use pzsvc_exec.Pzsvc.Model.{Session, Service, zero_res_meta}
use pzsvc_exec.Pzsvc.Json.{PzJson}
use pzsvc_exec.Pzsvc.Log.{log_info, log_simple_err}
use pzsvc_exec.Pzsvc.File.{copy_map}
use pzsvc_exec.Pzsvc.Service.{manage_registration}
use pzsvc_exec.Pzsvc.Config.{also, can_pz_file, Config, ConfigParseOut, check_config, get_version}

-- The port after the environment was consulted, and whether the variable was of no use.
unfoldable pub resolve_port : Host → Config → ℤ × Bool
resolve_port host c =
    let port : ℤ = if positive c.port then c.port else pos 8080 in
    if nonempty c.port_en_var
    then (let (new_port, fine) = atoi (host.getenv c.port_en_var) in
        if fine && positive new_port then (new_port, false) else (port, true))
    else (port, false)

-- The service that is registered.
unfoldable pub service_of : Config → (version : String) → Service
service_of c version = record {
  contract_url = c.doc_url;
  method = "POST";
  res_meta = record zero_res_meta {
    name = c.svc_name;
    description = c.description;
    class_type = record { classification = "UNCLASSIFIED" };
    version = version;
    metadata = copy_map c.attributes [];
  };
  service_id = "";
  timeout = c.max_run_time;
  is_task_managed = c.reg_for_task_mgr;
  task_administrators = [];
  url = if nonempty c.url then c.url <> "/execute" else "";
}

module _ (host : Host) where
  -- PzAddr and PzAddrEnVar: the session with its address, and whether registration stays possible.
  unfoldable pub resolve_address : Session → Config → Bool → Go (Session × Bool)
  unfolding can_pz_file
  resolve_address s c can_reg =
      let s' = record s { pz_addr = c.pz_addr } in
      let new_addr = host.getenv c.pz_addr_en_var in
      if c.pz_addr_en_var == ""
      then pure (s', can_reg)
      else if nonempty new_addr
      then (do
        let s'' = record s { pz_addr = new_addr }
        log_info host s'' ("Config: PzAddr updated to " <> c.pz_addr <> " based on PzAddrEnVar.")
        pure (s'', can_reg))
      else if nonempty c.pz_addr
      then (do
        log_info host s'
            "Config: PzAddrEnVar specified in config, but no such env var exists.  Reverting to specified PzAddr."
        pure (s', can_reg))
      else (do
        log_info host s' (
            "Config: PzAddrEnVar specified in config, but no such env var exists, and PzAddr not specified."
            <> also can_reg "  Autoregistration disabled."
            <> also (can_pz_file c)
                "  Client will have to provide Piazza Address for uploads and Piazza downloads.")
        pure (s', false))

  -- The API key of the environment, as basic authorization.
  unfoldable pub resolve_key : Session → Config → Bool → Go (Session × Bool)
  unfolding can_pz_file
  resolve_key s c can_reg =
      let api_key = host.getenv c.api_key_en_var in
      if nonempty c.api_key_en_var && (can_reg || can_pz_file c)
      then (if api_key == ""
          then (do
            log_info host s (
                "No api key at APIKeyEnVar."
                <> also can_reg "  Registration disabled."
                <> also (can_pz_file c)
                    "  Client will have to provide authKey for Pz file interactions.")
            pure (s, false))
          else pure (record s { pz_auth = "Basic " <> host.base64 (api_key <> ":") }, can_reg))
      else pure (s, can_reg)

  unfoldable pub register : PzJson → Session → Config → (version : String) → Go (Unit {0})
  register json s c version = do
    log_info host s "About to manage registration."
    e ← manage_registration host json s (service_of c version)
    on_nil e (log_info host s "Registration managed.") (λ e'. do
      _ ← log_simple_err host s "pzsvc-exec error in managing registration: " (some e')
      pure tt)

  -- The outputs, the session, and the configuration with its port filled in.
  unfoldable pub parse_config_and_register :
      PzJson → Session → Config → Go (ConfigParseOut × Session × Config)
  parse_config_and_register json s c = do
    can_reg ← check_config host s c
    (s1, can_reg1) ← resolve_address s c can_reg
    (s2, can_reg2) ← resolve_key s1 c can_reg1
    let (port, unusable) = resolve_port host c
    when unusable (
        log_info host s2
          ("Config: Could not find/interpret PortVar properly.  Reverting to port " <> itoa port))
    when c.local_only
        (log_info host s2 "Local Only specified.  Limiting incoming requests to localhost.")
    let c' = record c { port = port }
    let port_str = also c.local_only "localhost" <> ":" <> itoa port
    version ← get_version host s2 c'
    when can_reg2 (register json s2 c' version)
    pure (
      record { port_str = port_str; version = version },
      record s2 { app_name = c.svc_name; log_root_dir = "pzsvc-exec"; log_audit = c.log_audit },
      c',
    )
