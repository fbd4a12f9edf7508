-- ===== src/Dispatcher/Command/Laws.antt =====
-- When a command is built, and what the worker reads back from it.
use pzsvc_exec.Prelude.{
  String, ◌<>◌, ◌==◌, none, List, [], ◌∷◌, ◌++◌, ◌≡◌, ◌↔◌, refl, arith, All, length, if◌then◌else◌,
}
use pzsvc_exec.Text.{cut, join}
use pzsvc_exec.Text.Laws.{split_two-append}
use pzsvc_exec.Host.{ok}
use pzsvc_exec.Pzsvc.Model.{InpStruct}
use pzsvc_exec.Dispatcher.Command.{input_parts, output_parts, worker_command, build_worker_command}
use pzsvc_exec.Worker.Config.{InputSource, parse_input_source}
use pzsvc_exec.Worker.Cmd.{parse_inputs}

-- A command is built exactly when the job has as many file names as URLs.
pub build_worker_command-ok_iff :
    (config_path svc_id : String) (inp : InpStruct) (job_id : String)
    → ((command : String) × (build_worker_command config_path svc_id inp job_id ≡ ok command))
      ↔ (length inp.in_ext_files ≡ length inp.in_ext_names)
unfolding build_worker_command
build_worker_command-ok_iff config_path svc_id inp job_id = (
  λ (command, e). ground arith,
  λ h. (
    join
        ((worker_command config_path svc_id inp job_id ∷ [])
          ++ input_parts inp.in_ext_names inp.in_ext_files
          ++ output_parts inp.out_geo_js)
        " ",
    ground arith,
  ),
)

-- The values that follow a flag, as a command-line library reads them.
unfoldable pub flag_values : (flag : String) → List String → List String
flag_values flag (f ∷ v ∷ rest) =
    if f == flag then v ∷ flag_values flag rest else flag_values flag rest
flag_values flag _ = []

-- The sources that a job's inputs stand for.
unfoldable pub sources : (names files : List String) → List InputSource
sources (n ∷ names) (f ∷ files) = record { file_name = n; url = f } ∷ sources names files
sources _ _ = []

parse_input_source-pair :
    (name url : String)
    → cut ":" name ≡ none
    → parse_input_source (name <> ":" <> url) ≡ ok (record { file_name = name; url = url })
unfolding parse_input_source
parse_input_source-pair name url h = rw (parse_input_source, split_two-append name url h) refl

-- Of the arguments that the dispatcher writes for the inputs, before they are joined to one line, the
-- worker reads back the same names and URLs in the same order, for names without a colon. The URLs
-- may have colons.
pub parse_inputs-input_parts :
    (names files : List String)
    → All (λ n. cut ":" n ≡ none) names
    → parse_inputs (flag_values "-i" (input_parts names files)) ≡ ok (sources names files)
unfolding parse_inputs flag_values input_parts sources
parse_inputs-input_parts [] files h = refl
parse_inputs-input_parts (n ∷ names) [] h = refl
parse_inputs-input_parts (n ∷ names) (f ∷ files) (h, hs) =
    rw (parse_input_source-pair n f h, parse_inputs-input_parts names files hs) refl
