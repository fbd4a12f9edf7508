-- ===== src/Pzsvc/File.antt =====
-- pzsvc/file.go: ingesting bytes and files into Piazza.
pub mod Laws
pub mod Given
use pzsvc_exec.Prelude.{
  String, ◌<>◌, ◌==◌, Bool, true, Option, none, some, List, [], ◌∷◌, Map, assign, if◌then◌else◌,
  is_some,
}
use pzsvc_exec.Host.{
  Host, Go, Response, GoError, Try, ok, err, read, look, emit, pure, crash, on_nil, on_error, ◌>>=◌,
  ◌>>◌,
}
use pzsvc_exec.Pzsvc.Model.{
  Session, ResMeta, zero_res_meta, DataType, data_type_of, DataDesc, IngestReq,
}
use pzsvc_exec.Pzsvc.Json.{PzJson}
use pzsvc_exec.Pzsvc.Log.{log_info, log_audit, log_audit_response, log_simple_err, info_level}
use pzsvc_exec.Pzsvc.CustomError.{PzCustomError, log}
use pzsvc_exec.Pzsvc.Http.{submit_single_part, get_job_id}
use pzsvc_exec.Pzsvc.Http.Uploads.{submit_multipart}
use pzsvc_exec.Pzsvc.Job.{get_job_response}

unfoldable pub loc_string : (sub_fold fname : String) → String
loc_string sub_fold fname =
    if sub_fold == "" then "./" <> fname else "./" <> sub_fold <> "/" <> fname

-- `for key, val := range props { metadata[key] = val }`
unfoldable pub copy_map : Map String → Map String → Map String
unfolding assign
copy_map [] m = m
copy_map ((k, v) ∷ props) m = copy_map props (assign k v m)

-- The switch on the file type: the description, and the bytes that are uploaded as a file.
-- `none` is a nil slice.
unfoldable pub typed_content : (f_type : String) → Option String → DataType × Option String
typed_content f_type ing_data =
    if f_type == "raster"
    then (data_type_of f_type, ing_data)
    else if f_type == "geojson"
    then (record (data_type_of f_type) { mime_type = "application/vnd.geo+json" }, ing_data)
    else if f_type == "text"
    then (
      record (data_type_of f_type) {
        mime_type = "application/text";
        content = on_nil ing_data "" (λ b. b);
      },
      none,
    )
    else (data_type_of f_type, none)

unfoldable pub ingest_request :
    (f_name f_type source_name version : String) → DataType → Map String → IngestReq
unfolding copy_map
ingest_request f_name f_type source_name version d_type props = record {
  desc = record {
    data_id = "";
    data_type = d_type;
    res_meta = record zero_res_meta {
      name = f_name;
      format = f_type;
      class_type = record { classification = "UNCLASSIFIED" };
      version = version;
      description = f_type <> " uploaded by " <> source_name <> ".";
      metadata = copy_map props [];
    };
    spat_meta = none;
  };
  host = true;
  type_name = "ingest";
}

module _ (host : Host) (json : PzJson) (s : Session) where
  -- The request goes to /data/file with the bytes, or to /data without.
  unfoldable pub submit_ingest :
      (f_name bbuff : String) → Option String → Go (String × Option Response × Option PzCustomError)
  submit_ingest f_name bbuff file_data =
      on_nil file_data
        (do
          let targ_addr = s.pz_addr <> "/data"
          log_audit host s s.user_id "file upload http request" targ_addr bbuff info_level
          (resp, e) ← submit_single_part host "POST" bbuff targ_addr s.pz_auth
          pure (targ_addr, resp, e))
        (λ bytes. do
          let targ_addr = s.pz_addr <> "/data/file"
          log_info host s "beginning file upload"
          log_audit host s s.user_id "file upload http request" targ_addr bbuff info_level
          (resp, e) ← submit_multipart host bbuff targ_addr f_name s.pz_auth (some bytes)
          pure (targ_addr, resp, e))

  failing : PzCustomError → String → Go (Try String)
  failing e msg = do (_, e') ← log host s msg e; pure (err e')

  -- From the reply of the ingest request to the data ID.
  unfoldable pub await_data_id : String → Option Response → Go (Try String)
  unfolding failing
  await_data_id targ_addr resp = do
    resp' ←
        log_audit_response host s targ_addr "file upload http response" s.user_id resp info_level
    on_nil resp' crash (λ r.
        let (job_id, e) = get_job_id json.job_init r in
        on_nil e
          (do
            (result, e2) ← get_job_response host json s job_id
            on_nil e2 (on_nil result crash (λ d. pure (ok d.data_id)))
                (λ e3. failing e3 "Failure getting job result for Ingest call"))
          (λ e'. failing e' "Failure pulling Job ID for Ingest request"))

  unfoldable pub ingest :
      (f_name f_type source_name version : String) → Option String → Map String → Go (Try String)
  unfolding failing
  ingest f_name f_type source_name version ing_data props =
      let (d_type, file_data) = typed_content f_type ing_data in
      on_error (json.encode_ingest (ingest_request f_name f_type source_name version d_type props))
        (λ e. do
          e' ←
              log_simple_err host s "Internal Error.  Failure when marshalling IngestReq: " (some e)
          pure (err e'))
        (λ bbuff. do
          (targ_addr, resp, e) ← submit_ingest f_name bbuff file_data
          on_nil e (await_data_id targ_addr resp)
              (λ e'. failing e' "Failure submitting Ingest request"))

  unfoldable pub ingest_file :
      (f_name f_type source_name version : String) → Map String → Go (Try String)
  unfolding loc_string
  ingest_file f_name f_type source_name version props = do
    let path = loc_string s.sub_fold f_name
    log_audit host s s.user_id "read file for ingest" path "" info_level
    content ← look (λ t. host.read_file t path)
    emit (read path)
    on_error content
        (λ e. do
          e' ← log_simple_err host s ("Error reading file " <> f_name <> " for Ingest: ") (some e)
          pure (err e'))
        (λ bytes.
          if bytes == ""
          then (do
            e ← log_simple_err host s ("File \"" <> f_name <> "\" read as empty.") none
            pure (err e))
          else ingest f_name f_type source_name version (some bytes) props)
