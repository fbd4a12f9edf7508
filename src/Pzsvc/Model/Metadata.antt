-- ===== src/Pzsvc/Model/Metadata.antt =====
-- pzsvc/model.go: data descriptions, ingest requests, services and their lists.
use pzsvc_exec.Prelude.{ℕ, String, Bool, false, Option, none, List, [], Map}
use pzsvc_exec.Prelude.Int.{ℤ, pos}

pub record FileLoc : Type 0 where
  pub file_name : String
  pub file_size : ℤ
  pub type_name : String
  pub bucket_name : String
  pub domain_name : String
  pub file_path : String

pub record DataType : Type 0 where
  pub content : String
  pub type_name : String
  pub mime_type : String
  pub location : Option FileLoc
  pub dat_tab_name : String
  pub geo_j_content : String
  pub lit_type : String
  pub database : String
  pub table : String
  pub feature_type : String
  pub url : String
  pub version : String

-- A Go `float64` is carried as its 64-bit pattern: the program does no arithmetic on it.
pub record Float64 : Type 0 where
  pub bits : ℕ

pub record SpatMeta : Type 0 where
  pub coord_ref_system : String
  pub epsg_code : ℤ
  pub min_x : Float64
  pub min_y : Float64
  pub min_z : Float64
  pub max_x : Float64
  pub max_y : Float64
  pub max_z : Float64
  pub num_features : ℤ

pub record ClassType : Type 0 where
  pub classification : String

pub record NumKeyVal : Type 0 where
  pub key : String
  pub value : ℤ

pub record TxtKeyVal : Type 0 where
  pub key : String
  pub value : String

pub record ResMeta : Type 0 where
  pub availability : String
  pub class_type : ClassType
  pub cli_cert_req : Bool
  pub contacts : String
  pub created_by : String
  pub created_on : String
  pub cred_req : Bool
  pub description : String
  pub format : String
  pub metadata : Map String
  pub name : String
  pub network_avail : String
  pub num_key_val_list : List NumKeyVal
  pub pre_auth_req : Bool
  pub qos : String
  pub reason : String
  pub status_type : String
  pub tags : String
  pub txt_key_val_list : List TxtKeyVal
  pub version : String

-- A `ResMeta` literal's fields that are not given.
abbrev pub zero_res_meta : ResMeta
zero_res_meta = record {
  availability = "";
  class_type = record { classification = "" };
  cli_cert_req = false;
  contacts = "";
  created_by = "";
  created_on = "";
  cred_req = false;
  description = "";
  format = "";
  metadata = [];
  name = "";
  network_avail = "";
  num_key_val_list = [];
  pre_auth_req = false;
  qos = "";
  reason = "";
  status_type = "";
  tags = "";
  txt_key_val_list = [];
  version = "";
}

-- A `DataType` literal with its type alone.
abbrev pub data_type_of : String → DataType
data_type_of t = record {
  content = "";
  type_name = t;
  mime_type = "";
  location = none;
  dat_tab_name = "";
  geo_j_content = "";
  lit_type = "";
  database = "";
  table = "";
  feature_type = "";
  url = "";
  version = "";
}

pub record DataDesc : Type 0 where
  pub data_id : String
  pub data_type : DataType
  pub res_meta : ResMeta
  pub spat_meta : Option SpatMeta

pub record IngestReq : Type 0 where
  pub desc : DataDesc
  pub host : Bool
  pub type_name : String

pub record Service : Type 0 where
  pub contract_url : String
  pub method : String
  pub res_meta : ResMeta
  pub service_id : String
  pub timeout : ℤ
  pub is_task_managed : Bool
  pub task_administrators : List String
  pub url : String

pub record PagStruct : Type 0 where
  pub count : ℤ
  pub order : String
  pub page : ℤ
  pub per_page : ℤ
  pub sort_by : String

pub record SvcList : Type 0 where
  pub type_name : String
  pub services : List Service
  pub pagination : PagStruct

abbrev pub zero_svc_list : SvcList
zero_svc_list = record {
  type_name = "";
  services = [];
  pagination = record { count = pos 0; order = ""; page = pos 0; per_page = pos 0; sort_by = "" };
}
