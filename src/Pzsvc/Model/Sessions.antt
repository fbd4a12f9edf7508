-- ===== src/Pzsvc/Model/Sessions.antt =====
-- pzsvc/model.go: the session that the calls carry, and the request from Piazza.
use pzsvc_exec.Prelude.{String, Bool, List}

pub record Session : Type 0 where
  pub app_name : String
  pub session_id : String
  pub user_id : String
  pub pz_addr : String
  pub pz_auth : String
  pub ext_auth : String
  pub sub_fold : String
  pub log_root_dir : String
  pub log_audit : Bool

-- A `Session` literal's fields that are not given.
abbrev pub zero_session : Session
zero_session = record {
  app_name = "";
  session_id = "";
  user_id = "";
  pz_addr = "";
  pz_auth = "";
  ext_auth = "";
  sub_fold = "";
  log_root_dir = "";
  log_audit = Bool.false;
}

pub record InpStruct : Type 0 where
  pub command : String
  pub user_id : String
  pub in_pz_files : List String
  pub in_ext_files : List String
  pub in_pz_names : List String
  pub in_ext_names : List String
  pub out_tiffs : List String
  pub out_txts : List String
  pub out_geo_js : List String
  pub ext_auth : String
  pub pz_auth : String
  pub pz_addr : String

-- The string constants of type `PiazzaStatus`.
abbrev pub piazza_status_success : String
piazza_status_success = "Success"

abbrev pub piazza_status_error : String
piazza_status_error = "Error"

abbrev pub piazza_status_fail : String
piazza_status_fail = "Fail"
