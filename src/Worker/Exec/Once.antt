-- ===== src/Worker/Exec/Once.antt =====
-- worker/workerexec: how often a job is reported, for any functions of the worker.
use pzsvc_exec.Prelude.{ℕ, suc, String, Bool, false, Option, some, List, ◌≡◌, refl, count}
use pzsvc_exec.Host.{Host, Go, Event, Trace, GoError, ret, logged, ◌>>=◌}
use pzsvc_exec.Host.Adds.{Adds, adds_rules}
use pzsvc_exec.Host.Triple.{Triple, Triple-bind, Triple-keeps, Triple-on_nil, Triple-value}
use pzsvc_exec.Pzsvc.CustomError.Laws.{log-Adds}
use pzsvc_exec.Worker.Config.{WorkerConfig}
use pzsvc_exec.Worker.Log.{info-Adds, simple_err, simple_err-Adds}
use pzsvc_exec.Worker.Exec.{
  Worker, WorkerOutputData, EncodeOutput, run_command, output_to_piazza, exec_ingest,
  exec_algorithm, exec_version, exec,
}
use pzsvc_exec.Worker.Exec.Laws.{stderr_of-Adds}

-- After so many reports.
abbrev pub HasReported : (Event → Bool) → ℕ → Trace → Type 0
HasReported is_report n t = count is_report t ≡ n

abbrev pub Always : Trace → Type 0
Always t = Unit

-- What is asked of a worker's functions: only the sending of a report is a report, and it is one if
-- it returns.
pub record ReportsOnce (is_report : Event → Bool) (cfg : WorkerConfig) (w : Worker) : Type 0 where
  pub logs : (line : String) → is_report (logged line) ≡ false
  pub fetches : Adds (λ e. is_report e ≡ false) (w.fetch_inputs_func cfg cfg.inputs)
  pub runs :
      (argv : List String) → Adds (λ e. is_report e ≡ false) (w.command_runner.exec_func argv)
  pub ingests :
      (command version : String)
      → Adds (λ e. is_report e ≡ false) (w.output_files_to_piazza_func cfg command version)
  pub sends :
      (n : ℕ) (status : String) (report : Option String)
      → Triple Always
          (HasReported is_report n)
          (w.piazza_outputter.send_func cfg.session cfg.piazza_base_url cfg.piazza_service_id
            cfg.job_id status report)
          (λ _. HasReported is_report (suc n))

module _ (host : Host) (cfg : WorkerConfig) (w : Worker) (encode : EncodeOutput)
    (is_report : Event → Bool) (b : ReportsOnce is_report cfg w) (n : ℕ) where
  abbrev pub Silent : Event → Type 0
  Silent e = is_report e ≡ false

  -- An action without a report.
  pub silent {ℓ} :
      {A : Type ℓ} (k : ℕ) (m : Go A)
      → Adds Silent m
      → Triple Always (HasReported is_report k) m (λ _. HasReported is_report k)
  silent k m h = Triple-keeps Silent m (λ e t q p. rw q p) (λ t p. tt) h

  -- It stands before one with a report.
  pub then_reports {ℓ κ} :
      {A : Type ℓ} {B : Type κ} (m : Go A) (f : A → Go B)
      → Adds Silent m
      → ((a : A)
          → Triple Always (HasReported is_report n) (f a) (λ _. HasReported is_report (suc n)))
      → Triple Always (HasReported is_report n) (m >>= f) (λ _. HasReported is_report (suc n))
  then_reports m f h k = Triple-bind (λ _. HasReported is_report n) m f (silent n m h) k

  run_command-Silent :
      (command : String) → Adds Silent (run_command host cfg w.command_runner command)
  unfolding run_command
  run_command-Silent command =
      search
        (
          adds_rules,
          b.runs,
          info-Adds host cfg {Q = Silent} b.logs,
          stderr_of-Adds host cfg {Q = Silent} b.logs,
        )
        depth 12

  report_once :
      (d : WorkerOutputData)
      → Triple Always
          (HasReported is_report n)
          (output_to_piazza host cfg w encode d)
          (λ _. HasReported is_report (suc n))
  unfolding output_to_piazza
  report_once d = then_reports _ _ (info-Adds host cfg {Q = Silent} b.logs _) (λ _.
      Triple-bind (λ _. HasReported is_report (suc n)) _ _ (b.sends n _ _)
        (λ e. silent (suc n) _ (search (adds_rules, log-Adds host {Q = Silent} b.logs) depth 9)))

  failure_once :
      (m : String) (e : GoError) (d : WorkerOutputData)
      → Triple Always
          (HasReported is_report n)
          (simple_err host cfg m (some e) >>= λ _. output_to_piazza host cfg w encode d)
          (λ _. HasReported is_report (suc n))
  failure_once m e d =
      then_reports _ _ (simple_err-Adds host cfg {Q = Silent} b.logs _ _) (λ _. report_once d)

  ingest_once :
      (command version : String) (d : WorkerOutputData)
      → Triple Always
          (HasReported is_report n)
          (exec_ingest host cfg w encode command version d)
          (λ _. HasReported is_report (suc n))
  unfolding exec_ingest
  ingest_once command version d = then_reports _ _ (info-Adds host cfg {Q = Silent} b.logs _) (λ _.
      then_reports _ _ (b.ingests command version) (λ out.
        Triple-on_nil out.combined_error _ _
          (λ _. then_reports _ _ (info-Adds host cfg {Q = Silent} b.logs _) (λ _.
            then_reports _ _ (info-Adds host cfg {Q = Silent} b.logs _) (λ _.
              Triple-bind (λ _. HasReported is_report (suc n)) _ _ (report_once _)
                (λ e.
                  silent (suc n) _
                    (search (adds_rules, info-Adds host cfg {Q = Silent} b.logs) depth 9)))))
          (λ e _. failure_once _ e _)))

  algorithm_once :
      (version : String) (d : WorkerOutputData)
      → Triple Always
          (HasReported is_report n)
          (exec_algorithm host cfg w encode version d)
          (λ _. HasReported is_report (suc n))
  unfolding exec_algorithm
  algorithm_once version d = then_reports _ _ (info-Adds host cfg {Q = Silent} b.logs _) (λ _.
      then_reports _ _ (run_command-Silent _) (λ out.
        Triple-on_nil out.failure _ _
          (λ _.
            then_reports _ _ (info-Adds host cfg {Q = Silent} b.logs _)
              (λ _. ingest_once _ version _))
          (λ e _. failure_once _ e _)))

  version_once :
      (d : WorkerOutputData)
      → Triple Always
          (HasReported is_report n)
          (exec_version host cfg w encode d)
          (λ _. HasReported is_report (suc n))
  unfolding exec_version
  version_once d = then_reports _ _ (info-Adds host cfg {Q = Silent} b.logs _) (λ _.
      then_reports _ _ (run_command-Silent _) (λ out.
        Triple-on_nil out.failure _ _
          (λ _.
            then_reports _ _ (info-Adds host cfg {Q = Silent} b.logs _) (λ _. algorithm_once _ d))
          (λ e _. failure_once _ e _)))

  pub exec_once :
      Triple Always
        (HasReported is_report n)
        (exec host cfg w encode)
        (λ _. HasReported is_report (suc n))
  unfolding exec
  exec_once = then_reports _ _ (info-Adds host cfg {Q = Silent} b.logs _) (λ _.
      then_reports _ _ b.fetches (λ e.
        Triple-on_nil e _ _
          (λ _. then_reports _ _ (info-Adds host cfg {Q = Silent} b.logs _) (λ _. version_once _))
          (λ e' _. failure_once _ e' _)))

module _ (host : Host) (cfg : WorkerConfig) (w : Worker) (encode : EncodeOutput)
    (is_report : Event → Bool) where
  -- A job that returns, with or without an error, has been reported exactly once, whatever step
  -- failed, where only the sending of a report is a report, and is one if it returns.
  pub exec-ReportsOnce :
      ReportsOnce is_report cfg w
      → (t : Trace) (r : Option GoError) → (exec host cfg w encode t).0 ≡ ret r
      → count is_report (exec host cfg w encode t).1 ≡ suc (count is_report t)
  exec-ReportsOnce b t r e =
      Triple-value _ (exec_once host cfg w encode is_report b (count is_report t)) t r refl e
