-- ===== src/Dispatcher/Poll/Limit.antt =====
-- The loop that is made at start-up, and what a malformed limit does to it.
use pzsvc_exec.Prelude.{String, ◌==◌, false, ◌≡◌, arith, count}
use pzsvc_exec.Prelude.Int.{pos}
use pzsvc_exec.Text.{atoi}
use pzsvc_exec.Host.{Host, Trace, Try, ok, err, ret, is_sent, is_created}
use pzsvc_exec.Host.Returns.{Returns, returns_rules}
use pzsvc_exec.Pzsvc.Model.{Session}
use pzsvc_exec.Pzsvc.Config.{Config}
use pzsvc_exec.Dispatcher.JobData.{DispatcherJson}
use pzsvc_exec.Dispatcher.Cf.{DefaultFactory}
use pzsvc_exec.Dispatcher.Poll.Idle.{IsFull, CreatesIdly, run_iteration_full}
use pzsvc_exec.Dispatcher.Poll.{Loop, new_loop, run_iteration, task_limit_of_env}

module _ (host : Host) (json : DispatcherJson) (s : Session) (config : Config)
    (svc_id config_path : String) where
  -- The loop that is made has the session, the service and the limit that start-up found.
  abbrev pub IsNew : Try Loop → Type 0
  IsNew (ok l) =
      (l.pz_session ≡ s) × (l.svc_id ≡ svc_id) × (l.task_limit ≡ task_limit_of_env host json)
  IsNew (err e) = Unit

  pub new_loop-IsNew : Returns IsNew (new_loop host json s config svc_id config_path)
  unfolding new_loop
  new_loop-IsNew = search (returns_rules) depth 12

  malformed-IsFull :
      (l : Loop)
      → l.task_limit ≡ task_limit_of_env host json
      → (host.getenv "TASK_LIMIT" == "") ≡ false
      → (atoi (host.getenv "TASK_LIMIT")).0 ≡ pos 0
      → IsFull host json l
  unfolding task_limit_of_env
  malformed-IsFull l h given zero t client tasks e = rw (h, given, zero) (ground arith)

  -- A TASK_LIMIT that is set to a text that is no number counts as a limit of 0: no
  -- iteration of a dispatcher that starts with it takes a job, from any trace on. The factory's
  -- function makes sessions without a request or a task.
  pub new_loop_malformed :
      (l : Loop) (f : DefaultFactory) (t t' : Trace)
      → (new_loop host json s config svc_id config_path t).0 ≡ ret (ok l)
      → (host.getenv "TASK_LIMIT" == "") ≡ false
      → (atoi (host.getenv "TASK_LIMIT")).0 ≡ pos 0
      → CreatesIdly f
      → (count is_sent (run_iteration host json l f t').1 ≡ count is_sent t')
        × (count is_created (run_iteration host json l f t').1 ≡ count is_created t')
  new_loop_malformed l f t t' made given zero create =
      let (_, _, limit) = new_loop-IsNew.at t (ok l) made in
      run_iteration_full host json l f (malformed-IsFull l limit given zero) create t'
