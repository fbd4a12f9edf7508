-- ===== src/Tests/Sample.antt =====
-- A concrete environment, with a Piazza that answers every request with the status 200, and the
-- data that the examples use.
use pzsvc_exec.Prelude.{String, true, false, none, some, [], ◌∷◌}
use pzsvc_exec.Prelude.Int.{pos}
use pzsvc_exec.Host.{Host, Response, plain, ok, absent}
use pzsvc_exec.Pzsvc.Model.{
  Session, zero_session, InpStruct, zero_job_status, zero_svc_list, zero_res_meta, Service,
  DataResult,
}
use pzsvc_exec.Pzsvc.Json.{Decoder, PzJson}
use pzsvc_exec.Pzsvc.Config.{Config}
use pzsvc_exec.Dispatcher.JobData.{DispatcherJson, PzTaskItem, text}
use pzsvc_exec.Dispatcher.Cf.{FactoryConfig, WrappedCfSession}
use pzsvc_exec.Dispatcher.Poll.{Loop}
use pzsvc_exec.Worker.Config.{WorkerConfig, InputSource}
use pzsvc_exec.Worker.Cmd.{Flags}

abbrev pub response : Response
response = record {
  status_code = 200;
  status = "200 OK";
  header = [];
  body = record { content = ""; failure = none };
}

-- The variables of the environment.
abbrev pub variable : String → String
variable name = "many"

abbrev pub host : Host
host = record {
  request_error = λ method url. none;
  respond = λ t r. ok response;
  status_text = λ n. "status";
  multipart = record {
    write_field = λ s. none;
    create_form_file = λ s. ok true;
    copy = λ s. none;
    close = none;
    message = λ b f d. b;
    content_type = "multipart/form-data";
  };
  now = λ t layout. "now";
  host_name = "machine";
  pid = 7;
  caller = λ t. record { file = "pzsvc/http.go"; line = 1; function = "f" };
  errorf = λ s. s;
  map_text = λ m. "map[]";
  func_text = "0x1";
  getenv = variable;
  stat = λ t f. absent (plain "no such file");
  open_file = λ t f. none;
  write_file = λ t f c. none;
  read_file = λ t f. ok "{}";
  output = λ t c. ("1.0", none);
  combined_output = λ t c. ("1.0", none);
  times_out = λ t f. false;
  base64 = λ s. s;
  query_escape = λ s. s;
  cloud_foundry = record {
    new_client = λ t c. ok 1;
    list_apps = λ t c q. none;
    tasks_by_app = λ t c a q. ok ("one" ∷ "two" ∷ "three" ∷ []);
    create_task = λ t c r. none;
    is_not_authorized = λ e. false;
    is_not_authenticated = λ e. false;
    is_app_memory_quota_exceeded = λ e. false;
    is_quota_instance_limit_exceeded = λ e. false;
    is_quota_instance_memory_limit_exceeded = λ e. false;
    is_space_quota_instance_memory_limit_exceeded = λ e. false;
  };
}

abbrev pub session : Session
session = record zero_session {
  app_name = "app";
  pz_addr = "https://piazza";
  pz_auth = "Basic key";
}

abbrev pub result_data : DataResult
result_data = record {
  data_id = "d1";
  deployment = record {
    capabilities_url = "";
    data_id = "";
    depl_id = "";
    host = "";
    layer = "";
    port = "";
  };
  details = "";
  message = "";
  job_id = "";
  text = "";
}

abbrev pub always : {A : Type 0} → A → Decoder A
always a = record { zero = a; decode = λ s. (a, none) }

abbrev pub service : Service
service = record {
  contract_url = "";
  method = "POST";
  res_meta = record zero_res_meta { name = "svc" };
  service_id = "s1";
  timeout = pos 1;
  is_task_managed = true;
  task_administrators = [];
  url = "";
}

abbrev pub json : PzJson
json = record {
  job_status = always (record zero_job_status { status = "Success"; result = some result_data });
  job_init = always (record { job_id = "j1" });
  profile = always (record { user_name = "u"; distinguished_name = ""; created_on = "" });
  svc_list = always (record zero_svc_list { services = service ∷ [] });
  encode_service = λ s. s.service_id;
  encode_ingest = λ r. ok r.type_name;
  encode_status = λ u. u.status;
}

abbrev pub config : Config
config = record {
  cli_cmd = "run";
  version_str = "1";
  version_cmd = "run -v";
  pz_addr = "https://piazza";
  pz_addr_en_var = "";
  api_key_en_var = "KEY";
  svc_name = "svc";
  url = "https://here";
  port = pos 80;
  port_en_var = "";
  description = "";
  attributes = [];
  num_procs = pos 1;
  can_upload = true;
  can_downl_pz = true;
  can_downl_ext = true;
  reg_for_task_mgr = false;
  max_run_time = pos 10;
  local_only = false;
  log_audit = false;
  limit_user_data = false;
  ext_retry_on202 = false;
  doc_url = "";
}

abbrev pub input : InpStruct
input = record {
  command = "-x";
  user_id = "u";
  in_pz_files = [];
  in_ext_files = "https://h/a.tif" ∷ "https://h/b.tif" ∷ [];
  in_pz_names = [];
  in_ext_names = "a.tif" ∷ "b.tif" ∷ [];
  out_tiffs = [];
  out_txts = [];
  out_geo_js = "out.geojson" ∷ [];
  ext_auth = "secret";
  pz_auth = "";
  pz_addr = "";
}

abbrev pub item : PzTaskItem
item = record {
  out_data = record {
    svc_data = record {
      in_data = record { data_inputs = record { body = record { content = "{}" } } };
      job_id = "j1";
    };
  };
}

abbrev pub dispatcher_json : DispatcherJson
dispatcher_json = record {
  pz = json;
  task_item = always item;
  inp_struct = always input;
  config = always config;
  vcap = always (("application_id", text "app-1") ∷ []);
  encode_inp_struct = λ i. i.command;
}

abbrev pub polling_loop : Loop
polling_loop = record {
  pz_session = session;
  pz_config = config;
  svc_id = "s1";
  config_path = "config.json";
  vcap_id = "app-1";
  task_limit = pos 3;
}

abbrev pub factory_config : FactoryConfig
factory_config = record {
  api_address = "";
  username = "";
  password = "";
  http_client = none;
  token = "";
  token_source = none;
}

abbrev pub cf_session : WrappedCfSession
cf_session = record { pz_session = session; client = some 1 }

abbrev pub source : InputSource
source = record { file_name = "a.tif"; url = "https://h/a.tif" }

abbrev pub worker_config : WorkerConfig
worker_config = record {
  session = session;
  piazza_base_url = "https://piazza";
  piazza_api_key = "key";
  piazza_service_id = "s1";
  cli_command_extra = "-x";
  user_id = "u";
  job_id = "j1";
  inputs = source ∷ [];
  outputs = "out.geojson" ∷ [];
  pz_se_config = config;
  mute_logs = false;
}

abbrev pub flags : Flags
flags = record {
  config = "config.json";
  cli_extra = "-x";
  piazza_base_url = "";
  piazza_api_key = "";
  user_id = "u";
  service_id = "s1";
  job_id = "j1";
  input = "a.tif:https://h/a.tif" ∷ [];
  output = "out.geojson" ∷ [];
}
