-- ===== src/Pzsvc/Config.antt =====
-- pzsvc/config.go: the configuration and its checks; getVersion of pzsvc/utils.go.
pub mod Laws
pub mod Startup
pub mod Unregistered
use pzsvc_exec.Prelude.{
  String, ◌<>◌, ◌==◌, Bool, true, false, not, ◌||◌, ◌&&◌, Option, none, some, [], ◌∷◌, List, Map,
  if◌then◌else◌, nonempty,
}
use pzsvc_exec.Prelude.Int.{ℤ, pos, positive, is_zero}
use pzsvc_exec.Text.{split, trim_space, itoa, atoi}
use pzsvc_exec.Host.{Host, Go, GoError, ran, look, emit, pure, on_nil, ◌>>=◌, ◌>>◌, when}
use pzsvc_exec.Pzsvc.Model.{Session, Service, zero_res_meta}
use pzsvc_exec.Pzsvc.Json.{PzJson}
use pzsvc_exec.Pzsvc.Log.{log_info, log_alert, log_simple_err}
use pzsvc_exec.Pzsvc.File.{copy_map}
use pzsvc_exec.Pzsvc.Service.{manage_registration}

pub record Config : Type 0 where
  pub cli_cmd : String
  pub version_str : String
  pub version_cmd : String
  pub pz_addr : String
  pub pz_addr_en_var : String
  pub api_key_en_var : String
  pub svc_name : String
  pub url : String
  pub port : ℤ
  pub port_en_var : String
  pub description : String
  pub attributes : Map String
  pub num_procs : ℤ
  pub can_upload : Bool
  pub can_downl_pz : Bool
  pub can_downl_ext : Bool
  pub reg_for_task_mgr : Bool
  pub max_run_time : ℤ
  pub local_only : Bool
  pub log_audit : Bool
  pub limit_user_data : Bool
  pub ext_retry_on202 : Bool
  pub doc_url : String

pub record ConfigParseOut : Type 0 where
  pub port_str : String
  pub version : String

unfoldable pub split_or_nil : (in_string knife : String) → Option (List String)
split_or_nil in_string knife = if in_string == "" then none else some (split in_string knife)

unfoldable pub can_pz_file : Config → Bool
can_pz_file c = c.can_upload || c.can_downl_pz

abbrev pub also : Bool → String → String
also b text = if b then text else ""

-- The ladder of checkConfig: the message of the first test that forbids registration.
unfoldable pub registration_problem : Config → Option String
unfolding can_pz_file
registration_problem c =
    if c.pz_addr == "" && c.pz_addr_en_var == ""
    then some (
        "Config: Did not specify PzAddr or PzAddrEnVar.  Autoregistration disabled."
        <> also (can_pz_file c)
            "  Client will have to provide Piazza Address for uploads and Piazza downloads.")
    else if c.api_key_en_var == ""
    then some (
        "Config: APIKeyEnVar was not specified.  Autoregistration disabled."
        <> also (can_pz_file c)
            "  Client will have to provide authKey for uploads and Piazza downloads.")
    else if c.svc_name == ""
    then some "Config: SvcName not specified.  Autoregistration disabled."
    else if c.url == "" && not c.reg_for_task_mgr
    then some
        "Config: URL not specified.  URL required unless registering for task manager.  Autoregistration disabled."
    else if c.reg_for_task_mgr && is_zero c.max_run_time
    then some
        "Config: Cannot register for task manager use without MaxRunTime (in seconds).  Registration disabled."
    else none

module _ (host : Host) (s : Session) where
  -- The remarks of checkConfig where registration is disabled.
  unfoldable pub remarks_without : Config → Go (Unit {0})
  unfolding can_pz_file
  remarks_without c = do
    when (nonempty c.version_cmd) (
        log_info host s
          "Config: VersionCmd was specified, but is much less useful without autoregistration.")
    when (nonempty c.version_str) (
        log_info host s
          "Config: VersionStr was specified, but is much less useful without without autoregistration.")
    when (nonempty c.api_key_en_var) (
        if can_pz_file c
        then log_info host s
            "Config: APIKeyEnVar was specified, but PzAddr was not.  APIKeyEnVar useless without a Pz instance to authenticate against."
        else log_info host s
            "Config: APIKeyEnVar was specified, but is meaningless without autoregistration or Pz file interactions.")
    when (nonempty c.svc_name) (
        log_info host s
          "Config: SvcName was specified, but is meaningless without autoregistration.")
    when (nonempty c.url)
        (log_info host s "Config: URL was specified, but is meaningless without autoregistration.")
    when c.reg_for_task_mgr (
        log_info host s
          "Config: RegForTaskMgr was specified as true, but is meaningless without autoregistration.")
    when (is_zero c.max_run_time) (
        log_info host s
          "Config: MaxRunTime was specified, but is meaningless without autoregistration.")

  -- The remarks of checkConfig where registration is possible.
  unfoldable pub remarks_with : Config → Go (Unit {0})
  remarks_with c = do
    when (c.pz_addr == "" && c.pz_addr_en_var == "") (
        log_info host s
          "Config: Both PzAddr and PzAddrEnVar were specified.  Redundant.  Default to PzAddrEnVar.")
    when (c.version_cmd == "" && c.version_str == "") (
        log_info host s
          "Config: Neither VersionCmd nor VersionStr were specified.  Version will be left blank.")
    when (nonempty c.version_cmd && nonempty c.version_str) (
        log_info host s
          "Config: Both VersionCmd and VersionStr were specified.  Redundant.  Default to VersionCmd.")
    when (c.description == "") (
        log_info host s
          "Config: Description not specified.  When autoregistering, descriptions are strongly encouraged.")
    when (not (is_zero c.max_run_time) && not c.reg_for_task_mgr) (
        log_info host s
          "Config: MaxRunTime not meaningful unless registering for task manager use.")

  unfoldable pub check_config : Config → Go Bool
  check_config c = do
    when (c.cli_cmd == "") (
        log_alert host s
          "Config: Warning: CliCmd is blank.  This is a major security vulnerability.")
    can_reg ←
        on_nil (registration_problem c) (pure true) (λ msg. do log_info host s msg; pure false)
    if can_reg then remarks_with c else remarks_without c
    when (not (positive c.port) && c.port_en_var == "") (
        log_info host s
          "Config: Neither Port nor PortEnVar were properly specified.  Default to Port 8080.")
    when (positive c.port && nonempty c.port_en_var) (
        log_info host s
          "Config: Both Port and PortEnVar were specified.  Redundant.  Default to PortEnVar.")
    pure can_reg

  unfoldable pub get_version : Config → Go String
  unfolding split_or_nil
  get_version c = on_nil (split_or_nil c.version_cmd " ") (pure c.version_str) (λ parts. do
    (out, e) ← look (λ t. host.combined_output t parts)
    emit (ran parts)
    let ver_str = trim_space out
    log_info host s ("Called VersionCmd " <> c.version_cmd <> ".  Results: " <> ver_str)
    on_nil e (pure tt) (λ e'. do _ ← log_simple_err host s "VersionCmd failed: " (some e'); pure tt)
    pure (if nonempty ver_str then ver_str else c.version_str))
