-- ===== src/Worker/Config.antt =====
-- worker/config/config.go: the configuration of one job.
pub mod Laws
use pzsvc_exec.Prelude.{String, ◌<>◌, Bool, Option, none, some, List, [], ◌∷◌, Map, assign}
use pzsvc_exec.Text.{split_two}
use pzsvc_exec.Host.{
  Host, Go, GoError, plain, Try, ok, err, read, look, emit, pure, on_error, ◌>>=◌, ◌>>◌,
}
use pzsvc_exec.Pzsvc.Model.{Session, zero_session}
use pzsvc_exec.Pzsvc.Json.{Decoder}
use pzsvc_exec.Pzsvc.Config.{Config}

pub record InputSource : Type 0 where
  pub file_name : String
  pub url : String

-- strings.SplitN(sourceString, ":", 2) and its pieces.
unfoldable pub parse_input_source : String → Try InputSource
parse_input_source source_string = elim (split_two source_string ":") [
  | [] ↦ err (plain ("Invalid input source string: " <> source_string))
  | name ∷ rest ↦ elim rest [
    | [] ↦ err (plain ("Invalid input source string: " <> source_string))
    | url ∷ more ↦ ok (record { file_name = name; url = url })
  ]
]

pub record WorkerConfig : Type 0 where
  pub session : Session
  pub piazza_base_url : String
  pub piazza_api_key : String
  pub piazza_service_id : String
  pub cli_command_extra : String
  pub user_id : String
  pub job_id : String
  pub inputs : List InputSource
  pub outputs : List String
  pub pz_se_config : Config
  pub mute_logs : Bool

-- The error, and the configuration after it: the decoder fills it also where it fails.
unfoldable pub read_pz_se_config :
    Host → Decoder Config → (path : String) → WorkerConfig → Go (Option GoError × WorkerConfig)
read_pz_se_config host d path wc = do
  content ← look (λ t. host.read_file t path)
  emit (read path)
  on_error content (λ e. pure (some e, wc))
      (λ bytes. let (c, e) = d.decode bytes in pure (e, record wc { pz_se_config = c }))

-- json.Marshal without the session, which the type leaves out, and with its error dropped.
unfoldable pub serialize : (marshal : WorkerConfig → Try String) → WorkerConfig → String
serialize marshal wc =
    on_error (marshal (record wc { session = zero_session })) (λ e. "") (λ text. text)

assign_inputs : List InputSource → Map String → Map String
assign_inputs [] m = m
assign_inputs (i ∷ inputs) m = assign_inputs inputs (assign i.file_name i.url m)

unfoldable pub inputs_as_map : List InputSource → Map String
unfolding assign_inputs assign
inputs_as_map inputs = assign_inputs inputs []
