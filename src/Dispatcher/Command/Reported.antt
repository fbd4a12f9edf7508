-- ===== src/Dispatcher/Command/Reported.antt =====
-- dispatcher/poll/loop.go and worker/cmd.go: the report of a job to the address of its task.
use pzsvc_exec.Prelude.{ℕ, suc, String, ◌==◌, false, none, List, ◌∷◌, ◌≡◌, refl, sym, subst, All}
use pzsvc_exec.Text.{cut}
use pzsvc_exec.Host.{Host, Event, Trace, ok, read}
use pzsvc_exec.Host.Adds.{Adds-emit, Adds-on_nil, Adds-bind, Adds-pure}
use pzsvc_exec.Host.Triple.{Triple, Triple-bind}
use pzsvc_exec.Pzsvc.Model.{InpStruct}
use pzsvc_exec.Pzsvc.Config.{Config}
use pzsvc_exec.Dispatcher.Command.{build_worker_command}
use pzsvc_exec.Dispatcher.Command.Line.{IsLine}
use pzsvc_exec.Dispatcher.Command.Read.{IsPlain}
use pzsvc_exec.Dispatcher.Command.Received.{received}
use pzsvc_exec.Dispatcher.Command.Executed.{executed, run_cmd-argv}
use pzsvc_exec.Worker.Config.{WorkerConfig}
use pzsvc_exec.Worker.Log.{info-Adds, simple_err-Adds}
use pzsvc_exec.Worker.Exec.{new_worker}
use pzsvc_exec.Worker.Exec.Once.{HasReported, Always, silent, then_reports, exec_once}
use pzsvc_exec.Worker.Exec.Reported.{task_url, is_task_report, new_worker-ReportsOnce}
use pzsvc_exec.Worker.Cmd.{WorkerJson, run_cmd, execute}
use pzsvc_exec.Worker.Cmd.Context.{Context, flags_of, ReadsFlags}

-- The address of a job's task at the Piazza of the worker's environment.
abbrev pub job_url : Host → Config → (svc_id job_id : String) → String
job_url host c svc_id job_id = task_url (host.getenv c.pz_addr_en_var) svc_id job_id

module _ (host : Host) (json : WorkerJson) (c : Config) (parse : List String → Context)
    (config_path svc_id : String) (inp : InpStruct) (job_id : String) where
  abbrev job : WorkerConfig
  job = received host c svc_id inp job_id

  abbrev url : String
  url = job_url host c svc_id job_id

  abbrev NoReport : Event → Type 0
  NoReport e = is_task_report url e ≡ false

  module _ (n : ℕ) (accepted : host.request_error "POST" url ≡ none) where
    execute_once :
        Triple Always
          (HasReported (is_task_report url) n)
          (execute host json job)
          (λ _. HasReported (is_task_report url) (suc n))
    unfolding execute
    execute_once =
        let w = new_worker host json.pz in
        let b = new_worker-ReportsOnce host job json.pz refl accepted in
        let after = then_reports host job w json.encode_output (is_task_report url) b n in
        after _ _ (info-Adds host job {Q = NoReport} (λ line. refl) _) (λ _.
          after _ _ (info-Adds host job {Q = NoReport} (λ line. refl) _) (λ _.
            Triple-bind _ _ _ (exec_once host job w json.encode_output (is_task_report url) b n)
              (λ e. silent host job w json.encode_output (is_task_report url) b n (suc n) _ (
                Adds-on_nil e _ _
                  (Adds-bind _ _ (info-Adds host job {Q = NoReport} (λ line. refl) _)
                    (λ _. Adds-pure none))
                  (λ e'.
                    Adds-bind _ _ (simple_err-Adds host job {Q = NoReport} (λ line. refl) _ _)
                      (λ _. Adds-pure _))))))

    executed_once :
        Triple Always
          (HasReported (is_task_report url) n)
          (executed host json c parse config_path svc_id inp job_id)
          (λ _. HasReported (is_task_report url) (suc n))
    executed_once =
        let w = new_worker host json.pz in
        let b = new_worker-ReportsOnce host job json.pz refl accepted in
        let after = then_reports host job w json.encode_output (is_task_report url) b n in
        after _ _ (info-Adds host _ {Q = NoReport} (λ line. refl) _)
          (λ _. after _ _ (Adds-emit (read config_path) refl) (λ _. execute_once))

  -- A job that the dispatcher hands to a worker is reported: the command that the dispatcher builds
  -- is a line of `worker` and arguments, each a word that a shell takes as it is or one between
  -- single quotation marks, and on these arguments a worker that returns, with or without an error,
  -- has posted exactly one status to the address of the job's task, at the Piazza address of its
  -- environment. No value that the dispatcher writes between quotation marks has one, and the others
  -- are words. A request can be made for that address, the command-line library reads flags as it
  -- documents, the dispatcher names its service and the file, no input's name has a colon, the job
  -- has an output, the file can be read and decoded, and the environment has the address and the key
  -- that the file names.
  pub run_cmd-ReportsOnce :
      {o bytes command : String} {outputs : List String}
      → build_worker_command config_path svc_id inp job_id ≡ ok command
      → IsPlain config_path svc_id inp job_id
      → ReadsFlags parse
      → (svc_id == "") ≡ false
      → (config_path == "") ≡ false
      → All (λ n. cut ":" n ≡ none) inp.in_ext_names
      → inp.out_geo_js ≡ o ∷ outputs
      → (host.getenv c.pz_addr_en_var == "") ≡ false
      → (host.getenv c.api_key_en_var == "") ≡ false
      → ((t : Trace) → host.read_file t config_path ≡ ok bytes)
      → json.config.decode bytes ≡ (c, none)
      → host.request_error "POST" (job_url host c svc_id job_id) ≡ none
      → (args : List String) × IsLine command "worker" args
        × ((n : ℕ)
            → Triple Always
                (HasReported (is_task_report (job_url host c svc_id job_id)) n)
                (run_cmd host json (flags_of (parse args)))
                (λ _. HasReported (is_task_report (job_url host c svc_id job_id)) (suc n)))
  run_cmd-ReportsOnce built plain law named path plain_names has address key file decoded accepted =
      let (args, line, same) =
        run_cmd-argv host json c parse config_path svc_id inp job_id built plain law named path
          plain_names has address key file decoded in
      (
        args,
        line,
        λ n.
            subst
              (λ m.
                Triple Always (HasReported (is_task_report url) n) m
                  (λ _. HasReported (is_task_report url) (suc n)))
              (sym same) (executed_once n accepted),
      )
