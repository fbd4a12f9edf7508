-- ===== src/Worker/Exec/Reports.antt =====
-- worker/workerexec: which outputs a job reports, for any functions of the worker.
use pzsvc_exec.Prelude.{
  String, Option, none, some, List, [], ◌∷◌, ◌++◌, map, ◌≡◌, ◌≢◌, ◌⊎◌, inl, inr, refl,
}
use pzsvc_exec.Host.{Host, Event, GoError, logged, error_text}
use pzsvc_exec.Host.Adds.{Adds, Adds-bind, Adds-on_nil, Adds-on_nil_eq, adds_rules}
use pzsvc_exec.Host.Runs.{Adds-bind_of}
use pzsvc_exec.Host.Returns.{Returns}
use pzsvc_exec.Pzsvc.Model.{piazza_status_success, piazza_status_error}
use pzsvc_exec.Pzsvc.CustomError.Laws.{log-Adds}
use pzsvc_exec.Worker.Config.{WorkerConfig}
use pzsvc_exec.Worker.Log.{info-Adds, simple_err-Adds}
use pzsvc_exec.Worker.Ingest.Explained.{IsExplained}
use pzsvc_exec.Worker.Exec.{
  Worker, WorkerOutputData, EncodeOutput, job_status, failed_output, add_errors, run_command,
  output_to_piazza, exec_ingest, exec_algorithm, exec_version, exec,
}
use pzsvc_exec.Worker.Exec.Laws.{stderr_of-Adds}

-- The status and the output of a job that succeeded, or of one that did not.
abbrev pub IsReport : EncodeOutput → (status : String) → Option String → Type 0
IsReport encode status report =
    (d : WorkerOutputData) × (report ≡ some (encode d))
    × ((status ≡ piazza_status_success) × (d.errors ≡ []) × (d.http_status ≡ 200)
        ⊎ (status ≡ piazza_status_error) × (d.errors ≢ []) × (d.http_status ≡ 500))

-- What is asked of a worker's functions: their events, and the log's, have the property, and those
-- of the report have it if the report is one.
pub record Behaves (Q : Event → Type 0) (cfg : WorkerConfig) (w : Worker) (encode : EncodeOutput)
    : Type 0 where
  pub logs : (line : String) → Q (logged line)
  pub fetches : Adds Q (w.fetch_inputs_func cfg cfg.inputs)
  pub runs : (argv : List String) → Adds Q (w.command_runner.exec_func argv)
  pub ingests :
      (command version : String) → Adds Q (w.output_files_to_piazza_func cfg command version)
  pub explains :
      (command version : String)
      → Returns IsExplained (w.output_files_to_piazza_func cfg command version)
  pub sends :
      (status : String) (report : Option String)
      → IsReport encode status report
      → Adds Q (
          w.piazza_outputter.send_func cfg.session cfg.piazza_base_url cfg.piazza_service_id
            cfg.job_id status report)

-- Nothing has gone wrong yet.
record IsFresh (d : WorkerOutputData) : Type 0 where
  no_errors : d.errors ≡ []
  fine : d.http_status ≡ 200

-- Something has.
record IsFailed (d : WorkerOutputData) : Type 0 where
  some_errors : d.errors ≢ []
  failing : d.http_status ≡ 500

map-nonempty : (es : List GoError) → es ≢ [] → map error_text es ≢ []
map-nonempty [] h = absurd (h refl)
map-nonempty (e ∷ es) h = λ k. absurd (cc)

append-nonempty : (xs ys : List String) → ys ≢ [] → xs ++ ys ≢ []
append-nonempty [] ys h = h
append-nonempty (x ∷ xs) ys h = λ k. absurd (cc)

failed_output-IsFailed :
    (d : WorkerOutputData) (es : List GoError) → es ≢ [] → IsFailed (failed_output d es)
unfolding failed_output add_errors
failed_output-IsFailed d es h = record {
  some_errors = append-nonempty d.errors (map error_text es) (map-nonempty es h);
  failing = refl;
}

status_of_failed :
    (d : WorkerOutputData) (errors : List String)
    → errors ≢ []
    → job_status (record d { errors = errors }) ≡ piazza_status_error
unfolding job_status
status_of_failed d [] h = absurd (h refl)
status_of_failed d (e ∷ es) h = refl

status_of_fresh :
    (d : WorkerOutputData) (errors : List String)
    → errors ≡ []
    → job_status (record d { errors = errors }) ≡ piazza_status_success
unfolding job_status
status_of_fresh d [] h = refl
status_of_fresh d (e ∷ es) h = absurd (cc)

there_is : {o : Option GoError} {e : GoError} → o ≡ some e → o ≢ none
there_is h k = absurd (cc)

-- The output that a job starts with.
abbrev first_output : WorkerOutputData
first_output = record {
  in_files = [];
  out_files = [];
  prog_std_out = "";
  prog_std_err = "";
  errors = [];
  http_status = 200;
}

one_error : (e : GoError) → e ∷ [] ≢ []
one_error e h = absurd (cc)

module _ (host : Host) (cfg : WorkerConfig) (w : Worker) (encode : EncodeOutput)
    (Q : Event → Type 0) (b : Behaves Q cfg w encode) where
  run_command-Behaves : (command : String) → Adds Q (run_command host cfg w.command_runner command)
  unfolding run_command
  run_command-Behaves command =
      search
        (
          adds_rules,
          b.runs,
          info-Adds host cfg {Q = Q} b.logs,
          stderr_of-Adds host cfg {Q = Q} b.logs,
        )
        depth 12

  send-Behaves :
      (d : WorkerOutputData)
      → IsReport encode (job_status d) (some (encode d))
      → Adds Q (output_to_piazza host cfg w encode d)
  unfolding output_to_piazza
  send-Behaves d h = Adds-bind _ _ (info-Adds host cfg {Q = Q} b.logs _) (λ _.
      Adds-bind _ _ (b.sends (job_status d) (some (encode d)) h)
        (λ e. search (adds_rules, log-Adds host {Q = Q} b.logs) depth 9))

  success-Behaves :
      (d : WorkerOutputData) → IsFresh d → Adds Q (output_to_piazza host cfg w encode d)
  success-Behaves d h =
      send-Behaves d (d, refl, inl (status_of_fresh d d.errors h.no_errors, h.no_errors, h.fine))

  failure-Behaves :
      (d : WorkerOutputData) → IsFailed d → Adds Q (output_to_piazza host cfg w encode d)
  failure-Behaves d h =
      send-Behaves d
        (d, refl, inr (status_of_failed d d.errors h.some_errors, h.some_errors, h.failing))

  fail-Behaves :
      (d : WorkerOutputData) (es : List GoError)
      → es ≢ []
      → Adds Q (output_to_piazza host cfg w encode (failed_output d es))
  fail-Behaves d es h = failure-Behaves (failed_output d es) (failed_output-IsFailed d es h)

  ingest-Behaves :
      (command version : String) (d : WorkerOutputData)
      → IsFresh d
      → Adds Q (exec_ingest host cfg w encode command version d)
  unfolding exec_ingest
  ingest-Behaves command version d fresh = Adds-bind _ _ (info-Adds host cfg {Q = Q} b.logs _) (λ _.
      Adds-bind_of IsExplained _ _ (b.ingests command version) (b.explains command version)
        (λ out explained.
          let good =
            success-Behaves (record d { out_files = out.data_ids })
              (record { no_errors = fresh.no_errors; fine = fresh.fine }) in
          Adds-on_nil_eq out.combined_error _ _
            (λ _. Adds-bind _ _ (info-Adds host cfg {Q = Q} b.logs _) (λ _.
              Adds-bind _ _ (info-Adds host cfg {Q = Q} b.logs _) (λ _.
                Adds-bind _ _ good
                  (λ e. search (adds_rules, info-Adds host cfg {Q = Q} b.logs) depth 9))))
            (λ e there.
              let bad = fail-Behaves d out.errors (explained (there_is there)) in
              Adds-bind _ _ (simple_err-Adds host cfg {Q = Q} b.logs _ _) (λ _. bad))))

  algorithm-Behaves :
      (version : String) (d : WorkerOutputData)
      → IsFresh d
      → Adds Q (exec_algorithm host cfg w encode version d)
  unfolding exec_algorithm
  algorithm-Behaves version d fresh = Adds-bind _ _ (info-Adds host cfg {Q = Q} b.logs _) (λ _.
      Adds-bind _ _ (run_command-Behaves _) (λ out.
        let d' = record d { prog_std_out = out.stdout; prog_std_err = out.stderr } in
        let fresh' : IsFresh d' = record { no_errors = fresh.no_errors; fine = fresh.fine } in
        Adds-on_nil out.failure _ _
          (Adds-bind _ _ (info-Adds host cfg {Q = Q} b.logs _)
            (λ _. ingest-Behaves _ version d' fresh'))
          (λ e.
            Adds-bind _ _ (simple_err-Adds host cfg {Q = Q} b.logs _ _)
              (λ _. fail-Behaves d' (e ∷ []) (one_error e)))))

  version-Behaves : (d : WorkerOutputData) → IsFresh d → Adds Q (exec_version host cfg w encode d)
  unfolding exec_version
  version-Behaves d fresh = Adds-bind _ _ (info-Adds host cfg {Q = Q} b.logs _) (λ _.
      Adds-bind _ _ (run_command-Behaves _) (λ out.
        Adds-on_nil out.failure _ _
          (Adds-bind _ _ (info-Adds host cfg {Q = Q} b.logs _) (λ _. algorithm-Behaves _ d fresh))
          (λ e.
            let bad = failed_output-IsFailed d (e ∷ []) (one_error e) in
            Adds-bind _ _ (simple_err-Adds host cfg {Q = Q} b.logs _ _) (λ _.
              failure-Behaves (record (failed_output d (e ∷ [])) { prog_std_err = out.stderr })
                (record { some_errors = bad.some_errors; failing = bad.failing })))))

  -- Whatever the functions of a worker do, as long as an ingest explains its combined error by
  -- errors, a job reports a success only of an output without errors and with the status 200, and
  -- any other outcome as an error, of an output with errors and with the status 500: a property that
  -- the events of the functions, of the log and of such reports have, all events of the job have.
  pub exec-Behaves : Adds Q (exec host cfg w encode)
  unfolding exec
  exec-Behaves = Adds-bind _ _ (info-Adds host cfg {Q = Q} b.logs _) (λ _.
      Adds-bind _ _ b.fetches (λ e.
        Adds-on_nil e _ _
          (Adds-bind _ _ (info-Adds host cfg {Q = Q} b.logs _)
            (λ _. version-Behaves _ (record { no_errors = refl; fine = refl })))
          (λ e'.
            Adds-bind _ _ (simple_err-Adds host cfg {Q = Q} b.logs _ _)
              (λ _. fail-Behaves first_output (e' ∷ []) (one_error e')))))
