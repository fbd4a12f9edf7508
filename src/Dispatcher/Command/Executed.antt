-- ===== src/Dispatcher/Command/Executed.antt =====
-- dispatcher/poll/loop.go and worker/cmd.go: the worker's run on the dispatcher's arguments.
use mathlib.Core.Path.{fun_ext}
use pzsvc_exec.Prelude.{String, ◌==◌, false, none, Option, List, ◌∷◌, ◌≡◌, ◌∙◌, refl, ap, All}
use pzsvc_exec.Text.{cut}
use pzsvc_exec.Host.{Host, Go, Trace, ok, read, emit, ◌>>◌}
use pzsvc_exec.Pzsvc.Model.{InpStruct}
use pzsvc_exec.Pzsvc.Config.{Config}
use pzsvc_exec.Dispatcher.Command.{build_worker_command}
use pzsvc_exec.Dispatcher.Command.Line.{IsLine}
use pzsvc_exec.Dispatcher.Command.Read.{IsPlain, built-IsLine}
use pzsvc_exec.Dispatcher.Command.Argv.{argv, flags_of-argv}
use pzsvc_exec.Dispatcher.Command.Received.{dispatched, received, completed-dispatched}
use pzsvc_exec.Worker.Config.{read_pz_se_config}
use pzsvc_exec.Worker.Log.{info}
use pzsvc_exec.Worker.Cmd.{WorkerJson, ExitError, initial_config, run_cmd, execute}
use pzsvc_exec.Worker.Cmd.Context.{Context, flags_of, ReadsFlags}

-- What follows an action may be replaced by what does the same from every trace.
then-cong {ℓ} :
    {B : Type ℓ} (m : Go (Unit {0})) (k k' : Go B)
    → ((t : Trace) → k t ≡ k' t)
    → (t : Trace) → (m >> k) t ≡ (m >> k') t
then-cong m k k' h t = ap (λ f. (m >> f) t) (fun_ext h)

module _ (host : Host) (json : WorkerJson) (c : Config) (parse : List String → Context)
    (config_path svc_id : String) (inp : InpStruct) (job_id : String) where
  -- The start of the worker, the reading of its configuration file, and the execution of the job.
  abbrev pub executed : Go (Option ExitError)
  executed = do
    info host
        (initial_config json.config
          (dispatched host json.config c parse config_path svc_id inp job_id))
        "startup"
    emit (read config_path)
    execute host json (received host c svc_id inp job_id)

  -- On these arguments the worker runs so.
  pub run_cmd-on_argv :
      {o bytes : String} {outputs : List String}
      → ReadsFlags parse
      → (svc_id == "") ≡ false
      → (config_path == "") ≡ false
      → All (λ n. cut ":" n ≡ none) inp.in_ext_names
      → inp.out_geo_js ≡ o ∷ outputs
      → (host.getenv c.pz_addr_en_var == "") ≡ false
      → (host.getenv c.api_key_en_var == "") ≡ false
      → ((t : Trace) → host.read_file t config_path ≡ ok bytes)
      → json.config.decode bytes ≡ (c, none)
      → (t : Trace)
      → run_cmd host json (flags_of (parse (argv config_path svc_id inp job_id))) t ≡ executed t
  unfolding run_cmd read_pz_se_config
  run_cmd-on_argv law named path plain_names has address key file decoded t =
      ap (λ f. run_cmd host json f t) (flags_of-argv parse config_path svc_id inp job_id law).1
      ∙ then-cong (info host _ "startup") _ _
          (λ t'.
            rw
              (
                path,
                file t',
                decoded,
                completed-dispatched host json.config c parse config_path svc_id inp job_id named
                    plain_names has address key,
              )
              refl)
          t

  -- The command that the dispatcher builds is a line of `worker` and arguments, each a word that a
  -- shell takes as it is or one between single quotation marks, and on these arguments the worker
  -- does the following from every trace: it starts, reads its configuration file, and executes the
  -- job, with the job's command, user, service, name and outputs, its inputs with their addresses,
  -- and a session for the address and the key of the worker's environment. No value that the
  -- dispatcher writes between quotation marks has one, and the others are words. The command-line
  -- library reads flags as it documents, the dispatcher names its service and the file, no input's
  -- name has a colon, the job has an output, the file can be read and decoded, and the environment
  -- has the address and the key that the file names.
  pub run_cmd-argv :
      {o bytes command : String} {outputs : List String}
      → build_worker_command config_path svc_id inp job_id ≡ ok command
      → IsPlain config_path svc_id inp job_id
      → ReadsFlags parse
      → (svc_id == "") ≡ false
      → (config_path == "") ≡ false
      → All (λ n. cut ":" n ≡ none) inp.in_ext_names
      → inp.out_geo_js ≡ o ∷ outputs
      → (host.getenv c.pz_addr_en_var == "") ≡ false
      → (host.getenv c.api_key_en_var == "") ≡ false
      → ((t : Trace) → host.read_file t config_path ≡ ok bytes)
      → json.config.decode bytes ≡ (c, none)
      → (args : List String) × IsLine command "worker" args
        × (run_cmd host json (flags_of (parse args)) ≡ executed)
  run_cmd-argv {command = command} built plain law named path plain_names has address key file
        decoded =
      (
        argv config_path svc_id inp job_id,
        built-IsLine config_path svc_id inp job_id command plain built,
        fun_ext (run_cmd-on_argv law named path plain_names has address key file decoded),
      )
