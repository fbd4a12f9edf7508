-- ===== src/Worker/Exec/Commands.antt =====
-- Which commands a job runs, how many, and that none runs without the inputs.
use pzsvc_exec.Prelude.{
  ◌+◌, ◌≤◌, String, true, Option, none, some, ◌≡◌, inl, inr, refl, count, is_some,
}
use pzsvc_exec.Host.{Host, Go, Trace, GoError, is_ran, on_nil}
use pzsvc_exec.Host.Adds.{Adds, Adds-bind, adds_rules, count-Adds}
use pzsvc_exec.Host.Counts.{AtMost, AtMost-after, at_most_rules, AtMost-Adds}
use pzsvc_exec.Host.Returns.{Returns}
use pzsvc_exec.Host.Runs.{Adds-bind_of}
use pzsvc_exec.Pzsvc.Json.{PzJson}
use pzsvc_exec.Worker.Config.{WorkerConfig}
use pzsvc_exec.Worker.Log.{info-Adds, simple_err-Adds}
use pzsvc_exec.Worker.Input.{fetch_inputs}
use pzsvc_exec.Worker.Exec.{
  new_worker, WorkerOutputData, EncodeOutput, exec_algorithm, exec_version, exec, output_to_piazza,
}
use pzsvc_exec.Worker.Exec.Rules.{fetch_inputs-Adds}
use pzsvc_exec.Worker.Exec.Laws.{
  IsJobCommand, Quiet, run_command-Adds, report-Adds, exec_ingest-Adds, exec_version-AtMost,
  Quiet-report,
}

module _ (host : Host) (cfg : WorkerConfig) (json : PzJson) (encode : EncodeOutput) where
  Quiet-fetch : Adds Quiet (fetch_inputs host cfg cfg.inputs)
  Quiet-fetch =
      fetch_inputs-Adds host cfg {Q = Quiet} (λ line. refl) (λ url. refl) (λ f. refl) (λ f. refl)
        (λ f c. refl) cfg.inputs

  -- A job runs at most two commands, whatever the environment answers.
  pub exec_bounded :
      (t : Trace)
      → count is_ran (exec host cfg (new_worker host json) encode t).1 ≤ count is_ran t + 2
  unfolding exec
  exec_bounded =
      let h : AtMost is_ran 2 (exec host cfg (new_worker host json) encode) =
        AtMost-after _ _ (info-Adds host cfg {Q = Quiet} (λ line. refl) _) (λ _.
          AtMost-after (fetch_inputs host cfg cfg.inputs) _ Quiet-fetch (λ e.
            search
              (
                at_most_rules,
                exec_version-AtMost host cfg json encode,
                info-Adds host cfg {Q = Quiet} (λ line. refl),
                simple_err-Adds host cfg {Q = Quiet} (λ line. refl),
                Quiet-report host cfg json encode,
                AtMost-Adds,
              )
              depth 12)) in
      h.at

  report :
      (d : WorkerOutputData)
      → Adds (IsJobCommand host cfg) (output_to_piazza host cfg (new_worker host json) encode d)
  report = report-Adds host cfg json encode {Q = IsJobCommand host cfg} (λ line. tt) (λ r h. tt) tt

  algorithm-IsJobCommand :
      (version : String) (d : WorkerOutputData)
      → Adds
          (IsJobCommand host cfg)
          (exec_algorithm host cfg (new_worker host json) encode version d)
  unfolding exec_algorithm
  algorithm-IsJobCommand version d =
      Adds-bind _ _ (info-Adds host cfg {Q = IsJobCommand host cfg} (λ line. tt) _) (λ _.
        Adds-bind _ _
          (run_command-Adds host cfg {Q = IsJobCommand host cfg} (λ line. tt) _ (inr refl))
          (λ out.
            search
              (
                adds_rules,
                info-Adds host cfg {Q = IsJobCommand host cfg} (λ line. tt),
                simple_err-Adds host cfg {Q = IsJobCommand host cfg} (λ line. tt),
                report,
                exec_ingest-Adds host cfg json encode {Q = IsJobCommand host cfg} (λ line. tt)
                    (λ r h. tt) tt (λ f. tt) (λ f. tt),
              )
              depth 12))

  version-IsJobCommand :
      (d : WorkerOutputData)
      → Adds (IsJobCommand host cfg) (exec_version host cfg (new_worker host json) encode d)
  unfolding exec_version
  version-IsJobCommand d =
      Adds-bind _ _ (info-Adds host cfg {Q = IsJobCommand host cfg} (λ line. tt) _) (λ _.
        Adds-bind _ _
          (run_command-Adds host cfg {Q = IsJobCommand host cfg} (λ line. tt) _ (inl refl))
          (λ out.
            search
              (
                adds_rules,
                info-Adds host cfg {Q = IsJobCommand host cfg} (λ line. tt),
                simple_err-Adds host cfg {Q = IsJobCommand host cfg} (λ line. tt),
                report,
                algorithm-IsJobCommand,
              )
              depth 12))

  -- Every command that a job runs is the version command of its configuration, or the algorithm's
  -- command with the job's own arguments.
  pub exec-IsJobCommand : Adds (IsJobCommand host cfg) (exec host cfg (new_worker host json) encode)
  unfolding exec
  exec-IsJobCommand =
      Adds-bind _ _ (info-Adds host cfg {Q = IsJobCommand host cfg} (λ line. tt) _) (λ _.
        Adds-bind (fetch_inputs host cfg cfg.inputs) _
          (fetch_inputs-Adds host cfg {Q = IsJobCommand host cfg} (λ line. tt) (λ url. tt) (λ f. tt)
            (λ f. tt) (λ f c. tt) cfg.inputs)
          (λ e.
            search
              (
                adds_rules,
                version-IsJobCommand,
                report,
                info-Adds host cfg {Q = IsJobCommand host cfg} (λ line. tt),
                simple_err-Adds host cfg {Q = IsJobCommand host cfg} (λ line. tt),
              )
              depth 12))

  on_failed :
      (e : Option GoError) (m : Go (Option GoError)) (f : GoError → Go (Option GoError))
      → is_some e ≡ true
      → ((e' : GoError) → Adds Quiet (f e'))
      → Adds Quiet (on_nil e m f)
  on_failed (some e) m f h hf = hf e
  on_failed none m f h hf = absurd (cc)

  -- Where fetching the inputs always ends in an error, the job runs no command.
  pub exec_unfetched :
      Returns (λ e. is_some e ≡ true) (fetch_inputs host cfg cfg.inputs)
      → (t : Trace)
      → count is_ran (exec host cfg (new_worker host json) encode t).1 ≡ count is_ran t
  unfolding exec
  exec_unfetched failed t =
      let h : Adds Quiet (exec host cfg (new_worker host json) encode) =
        Adds-bind _ _ (info-Adds host cfg {Q = Quiet} (λ line. refl) _) (λ _.
          Adds-bind_of (λ e. is_some e ≡ true) (fetch_inputs host cfg cfg.inputs) _ Quiet-fetch
            failed
            (λ e k. on_failed e _ _ k (λ e'.
              search
                (
                  adds_rules,
                  simple_err-Adds host cfg {Q = Quiet} (λ line. refl),
                  Quiet-report host cfg json encode,
                )
                depth 12))) in
      count-Adds is_ran _ h t
