-- ===== src/Dispatcher/Command.antt =====
-- dispatcher/poll/loop.go: the worker's command line.
pub mod Laws
pub mod Line
pub mod Words
pub mod Read
pub mod Argv
pub mod Received
pub mod Executed
pub mod Reported
use pzsvc_exec.Prelude.{String, ◌<>◌, List, [], ◌∷◌, ◌++◌, length, nat_eq, if◌then◌else◌}
use pzsvc_exec.Text.{join}
use pzsvc_exec.Host.{GoError, plain, Try, ok, err}
use pzsvc_exec.Pzsvc.Model.{InpStruct}

-- The loop over the input names: a flag and a `name:url` pair for each.
unfoldable pub input_parts : (names files : List String) → List String
input_parts (n ∷ names) (f ∷ files) = "-i" ∷ (n <> ":" <> f) ∷ input_parts names files
input_parts _ _ = []

-- The loop over the output files.
unfoldable pub output_parts : List String → List String
output_parts [] = []
output_parts (f ∷ files) = "-o" ∷ f ∷ output_parts files

unfoldable pub worker_command :
    (config_path svc_id : String) → InpStruct → (job_id : String) → String
worker_command config_path svc_id job_input job_id =
    "worker --cliExtra '" <> job_input.command <> "' --userID '" <> job_input.user_id
    <> "' --config '" <> config_path <> "' --serviceID '" <> svc_id <> "' --jobID '" <> job_id
    <> "'"

unfoldable pub build_worker_command :
    (config_path svc_id : String) → InpStruct → (job_id : String) → Try String
unfolding worker_command
build_worker_command config_path svc_id job_input job_id =
    if nat_eq (length job_input.in_ext_files) (length job_input.in_ext_names)
    then ok (
        join
          ((worker_command config_path svc_id job_input job_id ∷ [])
            ++ input_parts job_input.in_ext_names job_input.in_ext_files
            ++ output_parts job_input.out_geo_js)
          " ")
    else err (plain "Number of input file names and URLs did not match")
