-- ===== src/Pzsvc/Service.antt =====
-- pzsvc/service.go: finding and registering the service in Piazza.
pub mod Laws
pub mod Search
pub mod Listed
use pzsvc_exec.Prelude.{String, ◌<>◌, ◌==◌, Option, none, some, List, [], ◌∷◌, if◌then◌else◌}
use pzsvc_exec.Host.{Host, Go, GoError, Try, ok, err, pure, on_nil, on_error, ◌>>=◌, ◌>>◌}
use pzsvc_exec.Pzsvc.Model.{Session, Service}
use pzsvc_exec.Pzsvc.Json.{PzJson}
use pzsvc_exec.Pzsvc.Log.{log_info, log_audit, log_audit_response, info_level}
use pzsvc_exec.Pzsvc.CustomError.{PzCustomError, log}
use pzsvc_exec.Pzsvc.Http.{submit_single_part, request_known_json}

-- The ID of the first service of the list with this name, and "" if there is none.
unfoldable pub find_service : String → List Service → String
find_service svc_name [] = ""
find_service svc_name (c ∷ rest) =
    if c.res_meta.name == svc_name then c.service_id else find_service svc_name rest

module _ (host : Host) (json : PzJson) (s : Session) where
  unfoldable pub find_my_svc : String → Go (Try String)
  find_my_svc svc_name = do
    let query = s.pz_addr <> "/profile"
    log_audit host s s.user_id ("http request - looking for profile " <> svc_name) query ""
        info_level
    (profile, byts, e) ← request_known_json host "GET" "" query s.pz_auth json.profile
    log_audit host s query "http response to profile request" s.user_id byts info_level
    on_nil e
        (do
          let query' =
              s.pz_addr
              <> "/service?per_page=1000&keyword="
              <> host.query_escape svc_name
              <> "&createdBy="
              <> profile.user_name
          log_audit host s s.user_id ("http request - looking for service " <> svc_name) query' ""
              info_level
          (found, byts', e2) ← request_known_json host "GET" "" query' s.pz_auth json.svc_list
          log_audit host s query' "http response to service listing request" s.user_id byts'
              info_level
          on_nil e2 (pure (ok (find_service svc_name found.services)))
              (λ e3. do (_, e4) ← log host s "Error when finding Pz Service" e3; pure (err e4)))
        (λ e'. do (_, e'') ← log host s "Error when acquiring profile" e'; pure (err e''))

  -- The request that registers the service, or updates its registration.
  unfoldable pub submit_registration : (svc_id svc_json : String) → Go (Option PzCustomError)
  submit_registration svc_id svc_json =
      if svc_id == ""
      then (do
        let targ_url = s.pz_addr <> "/service"
        log_info host s "Registering Service"
        log_audit host s s.app_name "Registering Service request" targ_url svc_json info_level
        (resp, e) ← submit_single_part host "POST" svc_json targ_url s.pz_auth
        _ ←
            log_audit_response host s targ_url "Registering Service Response" s.app_name resp
              info_level
        pure e)
      else (do
        let targ_url = s.pz_addr <> "/service/" <> svc_id
        log_info host s "Updating Service Registration"
        log_audit host s s.app_name "Updating Service request" targ_url svc_json info_level
        (resp, e) ← submit_single_part host "PUT" svc_json targ_url s.pz_auth
        _ ←
            log_audit_response host s targ_url "Updating Service Response" s.app_name resp
              info_level
        pure e)

  -- The error, or nil.
  unfoldable pub manage_registration : Service → Go (Option GoError)
  manage_registration svc_obj = do
    log_info host s "Searching for service in Pz service list"
    r ← find_my_svc svc_obj.res_meta.name
    on_error r (λ e. pure (some e))
        (λ svc_id. do
          e ← submit_registration svc_id (json.encode_service svc_obj)
          on_nil e (pure none)
              (λ e'. do (_, e'') ← log host s "Error managing registration: " e'; pure (some e'')))
