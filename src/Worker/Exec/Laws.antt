-- ===== src/Worker/Exec/Laws.antt =====
-- The commands that a job runs, and how its failures are reported.
use pzsvc_exec.Prelude.{◌<>◌, String, false, List, [], ◌∷◌, ◌≡◌, ◌⊎◌, refl}
use pzsvc_exec.Text.{join}
use pzsvc_exec.Host.{
  Host, Event, GoError, exit_error, plain, memory_limit, cf_error, Request, sent, slept, read,
  stat_file, logged, ran, is_ran,
}
use pzsvc_exec.Host.Adds.{Adds, adds_rules}
use pzsvc_exec.Host.Counts.{
  AtMost, AtMost-bind, AtMost-after, AtMost-before, AtMost-Adds, at_most_rules,
}
use pzsvc_exec.Pzsvc.Json.{PzJson}
use pzsvc_exec.Worker.Config.{WorkerConfig}
use pzsvc_exec.Worker.Log.{info-Adds, alert-Adds, simple_err-Adds}
use pzsvc_exec.Worker.Exec.{
  new_worker, new_command_runner, WorkerOutputData, EncodeOutput, run_command, stderr_of,
  output_to_piazza, exec_ingest, exec_algorithm, exec_version,
}
use pzsvc_exec.Worker.Exec.Rules.{output_to_piazza-Adds, output_files-Adds}
use pzsvc_exec.Worker.Exec.Allowed.{IsAllowed, ingests, sends_report}

-- The shell runs this command.
abbrev pub shell : String → List String
shell command = "sh" ∷ "-c" ∷ command ∷ []

abbrev pub Quiet : Event → Type 0
Quiet e = is_ran e ≡ false

module _ (host : Host) (cfg : WorkerConfig) where
  -- A command of the job: the version command, or the algorithm's with the job's arguments. Other
  -- events pass.
  abbrev pub IsJobCommand : Event → Type 0
  IsJobCommand (ran c) =
      (c ≡ shell cfg.pz_se_config.version_cmd)
      ⊎ (c ≡ shell (join (cfg.pz_se_config.cli_cmd ∷ cfg.cli_command_extra ∷ []) " "))
  IsJobCommand _ = Unit

  module _ {Q : Event → Type 0} (q : (line : String) → Q (logged line)) where
    pub stderr_of-Adds : (e : GoError) → Adds Q (stderr_of host cfg e)
    unfolding stderr_of
    stderr_of-Adds (exit_error m stderr) =
        search (adds_rules, simple_err-Adds host cfg {Q = Q} q, alert-Adds host cfg {Q = Q} q)
    stderr_of-Adds (plain m) = search (adds_rules, simple_err-Adds host cfg {Q = Q} q)
    stderr_of-Adds (memory_limit m) = search (adds_rules, simple_err-Adds host cfg {Q = Q} q)
    stderr_of-Adds (cf_error code m) = search (adds_rules, simple_err-Adds host cfg {Q = Q} q)

    pub run_command-Adds :
        (command : String)
        → Q (ran (shell command))
        → Adds Q (run_command host cfg (new_command_runner host) command)
    unfolding run_command
    run_command-Adds command r =
        search (adds_rules, info-Adds host cfg {Q = Q} q, stderr_of-Adds, r) depth 12

  run_command-AtMost :
      (command : String) → AtMost is_ran 1 (run_command host cfg (new_command_runner host) command)
  unfolding run_command
  run_command-AtMost command =
      search
        (
          at_most_rules,
          AtMost-before,
          adds_rules,
          info-Adds host cfg {Q = Quiet} (λ line. refl),
          stderr_of-Adds {Q = Quiet} (λ line. refl),
        )
        depth 12

  module _ (json : PzJson) (encode : EncodeOutput) where
    pub report-Adds :
        {Q : Event → Type 0}
        → ((line : String) → Q (logged line))
        → ((r : Request) → IsAllowed cfg r → Q (sent r))
        → Q (slept 1)
        → (d : WorkerOutputData)
        → Adds Q (output_to_piazza host cfg (new_worker host json) encode d)
    report-Adds {Q} q sends sleeps =
        output_to_piazza-Adds host cfg {Q = Q} q (ingests Q host cfg sends) json sleeps
          (λ body.
            sends_report Q host cfg sends body
              ("/service/" <> cfg.piazza_service_id <> "/task/" <> cfg.job_id))
          encode

    pub exec_ingest-Adds :
        {Q : Event → Type 0}
        → ((line : String) → Q (logged line))
        → ((r : Request) → IsAllowed cfg r → Q (sent r))
        → Q (slept 1)
        → ((f : String) → Q (read f))
        → ((f : String) → Q (stat_file f))
        → (command version : String) (d : WorkerOutputData)
        → Adds Q (exec_ingest host cfg (new_worker host json) encode command version d)
    unfolding exec_ingest
    exec_ingest-Adds {Q} q sends sleeps reads stats command version d =
        search
          (
            adds_rules,
            info-Adds host cfg {Q = Q} q,
            simple_err-Adds host cfg {Q = Q} q,
            output_files-Adds host cfg {Q = Q} q (ingests Q host cfg sends) json sleeps reads stats,
            report-Adds {Q = Q} q sends sleeps,
          )
          depth 12

    Quiet-ingest :
        (command version : String) (d : WorkerOutputData)
        → Adds Quiet (exec_ingest host cfg (new_worker host json) encode command version d)
    Quiet-ingest =
        exec_ingest-Adds {Q = Quiet} (λ line. refl) (λ r h. refl) refl (λ f. refl) (λ f. refl)

    pub Quiet-report :
        (d : WorkerOutputData)
        → Adds Quiet (output_to_piazza host cfg (new_worker host json) encode d)
    Quiet-report = report-Adds {Q = Quiet} (λ line. refl) (λ r h. refl) refl

    exec_algorithm-AtMost :
        (version : String) (d : WorkerOutputData)
        → AtMost is_ran 1 (exec_algorithm host cfg (new_worker host json) encode version d)
    unfolding exec_algorithm
    exec_algorithm-AtMost version d =
        search
          (
            at_most_rules,
            AtMost-before,
            run_command-AtMost,
            adds_rules,
            info-Adds host cfg {Q = Quiet} (λ line. refl),
            simple_err-Adds host cfg {Q = Quiet} (λ line. refl),
            Quiet-ingest,
            Quiet-report,
          )
          depth 12

    pub exec_version-AtMost :
        (d : WorkerOutputData)
        → AtMost is_ran 2 (exec_version host cfg (new_worker host json) encode d)
    unfolding exec_version
    exec_version-AtMost d = AtMost-after _ _ (info-Adds host cfg {Q = Quiet} (λ line. refl) _) (λ _.
        AtMost-bind 1 1
          (run_command host cfg (new_command_runner host) cfg.pz_se_config.version_cmd) _
          (run_command-AtMost _)
          (λ out.
            search
              (
                at_most_rules,
                exec_algorithm-AtMost,
                adds_rules,
                info-Adds host cfg {Q = Quiet} (λ line. refl),
                simple_err-Adds host cfg {Q = Quiet} (λ line. refl),
                Quiet-report,
                AtMost-Adds,
              )
              depth 12))
