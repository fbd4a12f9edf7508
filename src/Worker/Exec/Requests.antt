-- ===== src/Worker/Exec/Requests.antt =====
-- Where a job sends its requests, and with which authorization.
use pzsvc_exec.Prelude.{String, inl, refl}
use pzsvc_exec.Host.{Host, Event, sent}
use pzsvc_exec.Host.Adds.{Adds, Adds-bind, adds_rules}
use pzsvc_exec.Pzsvc.Json.{PzJson}
use pzsvc_exec.Worker.Config.{WorkerConfig}
use pzsvc_exec.Worker.Log.{info-Adds, simple_err-Adds}
use pzsvc_exec.Worker.Input.{fetch_inputs}
use pzsvc_exec.Worker.Exec.{
  new_worker, new_command_runner, WorkerOutputData, EncodeOutput, run_command, exec_algorithm,
  exec_version, exec, output_to_piazza,
}
use pzsvc_exec.Worker.Exec.Rules.{fetch_inputs-Adds}
use pzsvc_exec.Worker.Exec.Allowed.{IsAllowed}
use pzsvc_exec.Worker.Exec.Laws.{run_command-Adds, report-Adds, exec_ingest-Adds}

-- A request is one that the job may send. Other events pass.
abbrev pub IsDiscreet : WorkerConfig → Event → Type 0
IsDiscreet cfg (sent r) = IsAllowed cfg r
IsDiscreet cfg _ = Unit

module _ (host : Host) (cfg : WorkerConfig) (json : PzJson) (encode : EncodeOutput) where
  report :
      (d : WorkerOutputData)
      → Adds (IsDiscreet cfg) (output_to_piazza host cfg (new_worker host json) encode d)
  report = report-Adds host cfg json encode {Q = IsDiscreet cfg} (λ line. tt) (λ r h. h) tt

  command-IsDiscreet :
      (command : String)
      → Adds (IsDiscreet cfg) (run_command host cfg (new_command_runner host) command)
  command-IsDiscreet command =
      run_command-Adds host cfg {Q = IsDiscreet cfg} (λ line. tt) command tt

  algorithm-IsDiscreet :
      (version : String) (d : WorkerOutputData)
      → Adds (IsDiscreet cfg) (exec_algorithm host cfg (new_worker host json) encode version d)
  unfolding exec_algorithm
  algorithm-IsDiscreet version d =
      Adds-bind _ _ (info-Adds host cfg {Q = IsDiscreet cfg} (λ line. tt) _) (λ _.
        Adds-bind _ _ (command-IsDiscreet _) (λ out.
          search
            (
              adds_rules,
              info-Adds host cfg {Q = IsDiscreet cfg} (λ line. tt),
              simple_err-Adds host cfg {Q = IsDiscreet cfg} (λ line. tt),
              report,
              exec_ingest-Adds host cfg json encode {Q = IsDiscreet cfg} (λ line. tt) (λ r h. h) tt
                  (λ f. tt) (λ f. tt),
            )
            depth 12))

  version-IsDiscreet :
      (d : WorkerOutputData)
      → Adds (IsDiscreet cfg) (exec_version host cfg (new_worker host json) encode d)
  unfolding exec_version
  version-IsDiscreet d =
      Adds-bind _ _ (info-Adds host cfg {Q = IsDiscreet cfg} (λ line. tt) _) (λ _.
        Adds-bind _ _ (command-IsDiscreet _) (λ out.
          search
            (
              adds_rules,
              info-Adds host cfg {Q = IsDiscreet cfg} (λ line. tt),
              simple_err-Adds host cfg {Q = IsDiscreet cfg} (λ line. tt),
              report,
              algorithm-IsDiscreet,
            )
            depth 12))

  -- The authorization of a job goes to its Piazza only: every request that the job sends either has
  -- no header at all, as the downloads of its inputs have, or goes to the Piazza address of the
  -- session or of the configuration and carries the session's authorization.
  pub exec-IsDiscreet : Adds (IsDiscreet cfg) (exec host cfg (new_worker host json) encode)
  unfolding exec
  exec-IsDiscreet = Adds-bind _ _ (info-Adds host cfg {Q = IsDiscreet cfg} (λ line. tt) _) (λ _.
      Adds-bind (fetch_inputs host cfg cfg.inputs) _
        (fetch_inputs-Adds host cfg {Q = IsDiscreet cfg} (λ line. tt) (λ url. inl refl) (λ f. tt)
          (λ f. tt) (λ f c. tt) cfg.inputs)
        (λ e.
          search
            (
              adds_rules,
              version-IsDiscreet,
              report,
              info-Adds host cfg {Q = IsDiscreet cfg} (λ line. tt),
              simple_err-Adds host cfg {Q = IsDiscreet cfg} (λ line. tt),
            )
            depth 12))
