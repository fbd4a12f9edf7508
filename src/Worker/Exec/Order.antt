-- ===== src/Worker/Exec/Order.antt =====
-- The order in which a job does its work.
use pzsvc_exec.Prelude.{String, ◌<>◌, Option, ◌⊎◌, inl, inr, some, List, [], ◌∷◌, ◌≡◌, refl}
use pzsvc_exec.Text.{join}
use pzsvc_exec.Host.{
  Host, Event, Request, GoError, ◌>>=◌, logged, sent, slept, ran, stat_file, opened, written, read,
}
use pzsvc_exec.Host.Adds.{Adds, Adds-bind, adds_rules}
use pzsvc_exec.Host.Phases.{Phased, Phased-last, Phased-skip, Phased-first, Phased-on_nil}
use pzsvc_exec.Pzsvc.Json.{PzJson}
use pzsvc_exec.Worker.Config.{WorkerConfig}
use pzsvc_exec.Worker.Log.{simple_err, info-Adds, simple_err-Adds}
use pzsvc_exec.Worker.Input.{fetch_inputs}
use pzsvc_exec.Worker.Exec.{
  new_worker, WorkerOutputData, EncodeOutput, output_to_piazza, exec_ingest, exec_algorithm,
  exec_version, exec,
}
use pzsvc_exec.Worker.Exec.Rules.{output_to_piazza-Adds, fetch_inputs-Adds, output_files-Adds}
use pzsvc_exec.Worker.Exec.Reported.{task_url}
use pzsvc_exec.Pzsvc.Model.{Session}
use pzsvc_exec.Pzsvc.File.Laws.{IngestRequests}
use pzsvc_exec.Pzsvc.Http.{json_request}
use pzsvc_exec.Pzsvc.Http.Uploads.{form_request}
use pzsvc_exec.Worker.Exec.Laws.{run_command-Adds, shell}

-- The download of the inputs: GET requests without a header, and the files that are looked up,
-- opened and written. The log is written in every phase.
abbrev pub IsFetching : Event → Type 0
IsFetching (logged line) = Unit
IsFetching (sent r) =
    (url : String) × (r ≡ record { method = "GET"; url = url; header = []; body = "" })
IsFetching (stat_file f) = Unit
IsFetching (opened f) = Unit
IsFetching (written f c) = Unit
IsFetching _ = ⊥

-- The run of one command.
abbrev pub IsRunning : (command : String) → Event → Type 0
IsRunning command (logged line) = Unit
IsRunning command (ran argv) = argv ≡ shell command
IsRunning command _ = ⊥

-- The requests of an ingest: data is submitted or uploaded, or a job is asked for.
abbrev pub IsIngestRequest : Host → Session → Request → Type 0
IsIngestRequest host s r =
    ((body : String) × (r ≡ json_request "POST" body (s.pz_addr <> "/data") s.pz_auth))
    ⊎ (((body : String) × (filename : String) × (file : Option String) × (r
            ≡ form_request host body (s.pz_addr <> "/data/file") filename s.pz_auth file))
        ⊎ ((id : String) × (r ≡ json_request "GET" "" (s.pz_addr <> "/job/" <> id) s.pz_auth)))

-- The ingest of the outputs: files are looked up and read, and the requests of ingests are sent.
abbrev pub IsIngesting : Host → WorkerConfig → Event → Type 0
IsIngesting host cfg (logged line) = Unit
IsIngesting host cfg (stat_file f) = Unit
IsIngesting host cfg (read f) = Unit
IsIngesting host cfg (sent r) = IsIngestRequest host cfg.session r
IsIngesting host cfg (slept n) = Unit
IsIngesting host cfg _ = ⊥

-- A status of the job, at the address of its task.
abbrev pub IsReport : WorkerConfig → Request → Type 0
IsReport cfg r =
    (body : String) × (r
      ≡ json_request "POST" body (task_url cfg.piazza_base_url cfg.piazza_service_id cfg.job_id)
          cfg.session.pz_auth)

-- The report: the result is ingested as well, and a status is sent. No file is touched.
abbrev pub IsReporting : Host → WorkerConfig → Event → Type 0
IsReporting host cfg (logged line) = Unit
IsReporting host cfg (sent r) = IsIngestRequest host cfg.session r ⊎ IsReport cfg r
IsReporting host cfg (slept n) = Unit
IsReporting host cfg _ = ⊥

-- The phases from the ingest on.
abbrev pub last_phases : Host → WorkerConfig → List (Event → Type 0)
last_phases host cfg = IsIngesting host cfg ∷ IsReporting host cfg ∷ []

abbrev pub algorithm_command : WorkerConfig → String
algorithm_command cfg = join (cfg.pz_se_config.cli_cmd ∷ cfg.cli_command_extra ∷ []) " "

abbrev pub job_phases : Host → WorkerConfig → List (Event → Type 0)
job_phases host cfg =
    IsFetching
    ∷ IsRunning cfg.pz_se_config.version_cmd
    ∷ IsRunning (algorithm_command cfg)
    ∷ last_phases host cfg

module _ (host : Host) (cfg : WorkerConfig) (json : PzJson) (encode : EncodeOutput) where
  ingests_first : IngestRequests (IsIngesting host cfg) host cfg.session
  ingests_first = record {
    submits = λ body. inl (body, refl);
    uploads = λ body filename file. inr (inl (body, filename, file, refl));
    polls = λ id. inr (inr (id, refl));
  }

  ingests_last : IngestRequests (IsReporting host cfg) host cfg.session
  ingests_last = record {
    submits = λ body. inl (inl (body, refl));
    uploads = λ body filename file. inl (inr (inl (body, filename, file, refl)));
    polls = λ id. inl (inr (inr (id, refl)));
  }

  report-IsReporting :
      (d : WorkerOutputData)
      → Adds (IsReporting host cfg) (output_to_piazza host cfg (new_worker host json) encode d)
  report-IsReporting =
      output_to_piazza-Adds host cfg {Q = IsReporting host cfg} (λ line. tt) ingests_last json tt
        (λ body. inr (body, refl)) encode

  exec_ingest-IsPhased :
      (command version : String) (d : WorkerOutputData)
      → Phased
          (last_phases host cfg)
          (exec_ingest host cfg (new_worker host json) encode command version d)
  unfolding exec_ingest
  exec_ingest-IsPhased command version d =
      Phased-first _ _ (info-Adds host cfg {Q = IsIngesting host cfg} (λ line. tt) _) (λ _.
        Phased-first _ _
          (output_files-Adds host cfg {Q = IsIngesting host cfg} (λ line. tt) ingests_first json tt
            (λ f. tt) (λ f. tt) command version)
          (λ out. Phased-skip (IsIngesting host cfg) _ (
            Phased-last (IsReporting host cfg) _ (
              search
                (
                  adds_rules,
                  info-Adds host cfg {Q = IsReporting host cfg} (λ line. tt),
                  simple_err-Adds host cfg {Q = IsReporting host cfg} (λ line. tt),
                  report-IsReporting,
                )
                depth 12))))

  -- A failure is reported at once.
  failure-IsReporting :
      (m : String) (e : GoError) (d : WorkerOutputData)
      → Phased (IsReporting host cfg ∷ []) (
          simple_err host cfg m (some e) >>= λ _.
          output_to_piazza host cfg (new_worker host json) encode d)
  failure-IsReporting m e d = Phased-last (IsReporting host cfg) _ (
      Adds-bind _ _ (simple_err-Adds host cfg {Q = IsReporting host cfg} (λ line. tt) _ _)
        (λ _. report-IsReporting d))

  exec_algorithm-IsPhased :
      (version : String) (d : WorkerOutputData)
      → Phased
          (IsRunning (algorithm_command cfg) ∷ last_phases host cfg)
          (exec_algorithm host cfg (new_worker host json) encode version d)
  unfolding exec_algorithm
  exec_algorithm-IsPhased version d =
      let Q = IsRunning (algorithm_command cfg) in
      Phased-first _ _ (info-Adds host cfg {Q = Q} (λ line. tt) _) (λ _.
        Phased-first _ _ (run_command-Adds host cfg {Q = Q} (λ line. tt) _ refl) (λ out.
          Phased-on_nil out.failure _ _
            (Phased-first _ _ (info-Adds host cfg {Q = Q} (λ line. tt) _)
              (λ _. Phased-skip Q _ (exec_ingest-IsPhased _ version _)))
            (λ e.
              Phased-skip Q _ (Phased-skip (IsIngesting host cfg) _ (failure-IsReporting _ e _)))))

  exec_version-IsPhased :
      (d : WorkerOutputData)
      → Phased
          (IsRunning cfg.pz_se_config.version_cmd
            ∷ IsRunning (algorithm_command cfg)
            ∷ last_phases host cfg)
          (exec_version host cfg (new_worker host json) encode d)
  unfolding exec_version
  exec_version-IsPhased d =
      let Q = IsRunning cfg.pz_se_config.version_cmd in
      Phased-first _ _ (info-Adds host cfg {Q = Q} (λ line. tt) _) (λ _.
        Phased-first _ _ (run_command-Adds host cfg {Q = Q} (λ line. tt) _ refl) (λ out.
          Phased-on_nil out.failure _ _
            (Phased-first _ _ (info-Adds host cfg {Q = Q} (λ line. tt) _)
              (λ _. Phased-skip Q _ (exec_algorithm-IsPhased _ d)))
            (λ e. Phased-skip Q _ (
              Phased-skip (IsRunning (algorithm_command cfg)) _
                (Phased-skip (IsIngesting host cfg) _ (failure-IsReporting _ e _))))))

  -- The events of a job come in five phases, of which each may be empty, and in each of which the
  -- log may be written: GET requests without a header are sent, and files are looked up, opened and
  -- written; the version command runs; the algorithm's command runs; files are looked up and read,
  -- and requests of ingests are sent; requests of ingests and statuses of the job are sent, and no
  -- file is touched.
  pub exec-IsPhased : Phased (job_phases host cfg) (exec host cfg (new_worker host json) encode)
  unfolding exec
  exec-IsPhased = Phased-first _ _ (info-Adds host cfg {Q = IsFetching} (λ line. tt) _) (λ _.
      Phased-first (fetch_inputs host cfg cfg.inputs) _
        (fetch_inputs-Adds host cfg {Q = IsFetching} (λ line. tt) (λ url. (url, refl)) (λ f. tt)
          (λ f. tt) (λ f c. tt) cfg.inputs)
        (λ e.
          Phased-on_nil e _ _
            (Phased-first _ _ (info-Adds host cfg {Q = IsFetching} (λ line. tt) _)
              (λ _. Phased-skip IsFetching _ (exec_version-IsPhased _)))
            (λ e'. Phased-skip IsFetching _ (
              Phased-skip (IsRunning cfg.pz_se_config.version_cmd) _ (
                Phased-skip (IsRunning (algorithm_command cfg)) _
                  (Phased-skip (IsIngesting host cfg) _ (failure-IsReporting _ e' _)))))))
