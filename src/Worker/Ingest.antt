-- ===== src/Worker/Ingest.antt =====
-- worker/ingest: the output files are stored in Piazza, each by a goroutine of its own. These
-- functions run the goroutines one after the other, in the order in which their channels are read;
-- Threads has the goroutines with their channels, interleaved in any order.
pub mod Laws
pub mod Given
pub mod Sessions
pub mod Threads
pub mod Explained
use pzsvc_exec.Prelude.{
  String, ◌<>◌, Bool, Option, none, some, List, [], ◌∷◌, ◌++◌, map, Map, assign, ◌||◌,
  if◌then◌else◌,
}
use pzsvc_exec.Text.{lower_ext, spells, join}
use pzsvc_exec.Host.{
  Host, FileState, present, absent, unknown, Go, GoError, plain, Try, ok, err, error_text,
  stat_file, look, emit, pure, on_nil, on_error, ◌>>=◌, ◌>>◌,
}
use pzsvc_exec.Pzsvc.Model.{Session}
use pzsvc_exec.Pzsvc.Json.{PzJson}
use pzsvc_exec.Pzsvc.File.{ingest_file}
use pzsvc_exec.Worker.Config.{WorkerConfig}
use pzsvc_exec.Worker.Log.{info, simple_err}

pub record MultiIngestOutput : Type 0 where
  pub data_ids : Map String
  pub errors : List GoError
  pub combined_error : Option GoError

pub record SingleIngestOutput : Type 0 where
  pub file_path : String
  pub result : Try String

pub record AsyncIngestorCall : Type 0 where
  pub session : Session
  pub file_path : String
  pub file_type : String
  pub service_id : String
  pub alg_version : String
  pub att_map : Map String

unfoldable pub detect_piazza_file_type : String → String
detect_piazza_file_type file_name =
    let ext = lower_ext file_name in
    if spells ext ".geojson"
    then "geojson"
    else if spells ext ".tiff" || spells ext ".geotiff"
    then "raster"
    else "text"

-- The error of a stat, if any.
abbrev pub stat_error : FileState → Option GoError
stat_error present = none
stat_error (absent e) = some e
stat_error (unknown e) = some e

-- One file's result, added to the output.
unfoldable pub add_result : MultiIngestOutput → SingleIngestOutput → MultiIngestOutput
add_result out r =
    on_error r.result (λ e. record out { errors = out.errors ++ (e ∷ []) })
      (λ data_id. record out { data_ids = assign r.file_path data_id out.data_ids })

-- The combined error, after all results.
unfoldable pub combine : MultiIngestOutput → MultiIngestOutput
combine out = elim out.errors [
  | [] ↦ out
  | e ∷ more ↦ record out {
    combined_error = some (plain ("ingest errors: " <> join (map error_text out.errors) "; "));
  }
]

-- What the channel of the outer goroutine gets: the answer of the ingest, or the timeout's error.
abbrev pub settled : AsyncIngestorCall → Try String → SingleIngestOutput
settled c r = record { file_path = c.file_path; result = r }

abbrev pub timed_out : Try String
timed_out = err (plain "Unexpected error storing job output")

module _ (host : Host) (json : PzJson) where
  -- The result, or the timeout that wins over it. The call goes on in the background then.
  unfoldable pub ingest_file_async : AsyncIngestorCall → Go SingleIngestOutput
  ingest_file_async c = do
    late ← look (λ t. host.times_out t c.file_path)
    r ← ingest_file host json c.session c.file_path c.file_type c.service_id c.alg_version c.att_map
    pure (settled c (if late then timed_out else r))

  module _ (cfg : WorkerConfig) where
    -- One file of the loop over the output files: its call, or the error of a missing file.
    unfoldable pub prepare_call :
        (alg_full_command alg_version file_path : String) → Go (Try AsyncIngestorCall)
    prepare_call alg_full_command alg_version file_path = do
      info host cfg ("preparing ingest call: " <> file_path)
      state ← look (λ t. host.stat t file_path)
      emit (stat_file file_path)
      on_nil (stat_error state)
          (do
            now ← look (λ t. host.now t "20060102.150405.99999")
            let file_type = detect_piazza_file_type file_path
            let att_map : Map String =
                ("algoName", cfg.piazza_service_id)
                ∷ ("algoVersion", alg_version)
                ∷ ("algoCmd", alg_full_command)
                ∷ ("algoProcTime", now)
                ∷ []
            info host cfg (
                "async ingest call: path="
                <> file_path
                <> " type="
                <> file_type
                <> " serviceID="
                <> cfg.piazza_service_id
                <> ", version="
                <> alg_version
                <> ", attMap="
                <> host.map_text att_map)
            pure (
                ok (record {
                  session = cfg.session;
                  file_path = file_path;
                  file_type = file_type;
                  service_id = cfg.piazza_service_id;
                  alg_version = alg_version;
                  att_map = att_map;
                })))
          (λ e. do
            simple_err host cfg ("error statting file `" <> file_path <> "`: " <> error_text e)
                (some e)
            pure (err (plain "error validating outputs")))

    -- The loop over the output files: the calls and the errors.
    unfoldable pub assemble_ingestor_calls :
        (alg_full_command alg_version : String)
        → List String
        → Go (List AsyncIngestorCall × List GoError)
    assemble_ingestor_calls alg_full_command alg_version [] = pure ([], [])
    assemble_ingestor_calls alg_full_command alg_version (file_path ∷ rest) = do
      r ← prepare_call alg_full_command alg_version file_path
      (calls, errors) ← assemble_ingestor_calls alg_full_command alg_version rest
      pure (on_error r (λ e. (calls, e ∷ errors)) (λ c. (c ∷ calls, errors)))

    -- The loop over the channels, with the output so far.
    unfoldable pub collect_results :
        List AsyncIngestorCall → MultiIngestOutput → Go MultiIngestOutput
    unfolding add_result
    collect_results [] out = pure out
    collect_results (c ∷ calls) out = do
      r ← ingest_file_async c
      on_error r.result (λ e. simple_err host cfg "received async ingest error" (some e))
          (λ data_id. info host cfg ("ingested file `" <> r.file_path <> "` as ID: " <> data_id))
      collect_results calls (add_result out r)

    unfoldable pub output_files_to_piazza :
        (alg_full_command alg_version : String) → Go MultiIngestOutput
    unfolding combine
    output_files_to_piazza alg_full_command alg_version = do
      (calls, asm_errors) ← assemble_ingestor_calls alg_full_command alg_version cfg.outputs
      out ←
          collect_results calls
            (record { data_ids = []; errors = asm_errors; combined_error = none })
      let out' = combine out
      on_nil out'.combined_error (pure tt)
          (λ e. simple_err host cfg "concatenated ingest errors" (some e))
      pure out'
