-- ===== src/Dispatcher/Poll/Rules.antt =====
-- What the parts of an iteration add to the trace.
use pzsvc_exec.Prelude.{String, Option}
use pzsvc_exec.Host.{Host, Event, GoError, Request, logged, sent, listed_apps}
use pzsvc_exec.Host.Adds.{Adds, Adds-bind, adds_rules}
use pzsvc_exec.Pzsvc.Model.{Session}
use pzsvc_exec.Pzsvc.Log.{log_info, log_simple_err}
use pzsvc_exec.Pzsvc.Log.Laws.{log_info-Adds, log_simple_err-Adds, log_audit-Adds}
use pzsvc_exec.Pzsvc.CustomError.Laws.{log-Adds}
use pzsvc_exec.Pzsvc.Http.Laws.{request_known_json-Adds}
use pzsvc_exec.Pzsvc.ExecResult.Laws.{send_exec_result_no_data-Adds}
use pzsvc_exec.Dispatcher.JobData.{DispatcherJson}
use pzsvc_exec.Dispatcher.Cf.{DefaultFactory, WrappedCfSession, FactoryConfig, get_session}
use pzsvc_exec.Dispatcher.Cf.Laws.{get_session-Adds}
use pzsvc_exec.Dispatcher.Poll.{
  Loop, iterate, run_iteration, get_pz_task_item, parse_job_input, after_create,
}

module _ (host : Host) (json : DispatcherJson) (l : Loop) {Q : Event → Type 0}
    (q : (line : String) → Q (logged line)) where
  pub get_pz_task_item-Adds : ((r : Request) → Q (sent r)) → Adds Q (get_pz_task_item host json l)
  unfolding get_pz_task_item
  get_pz_task_item-Adds r =
      search (adds_rules, request_known_json-Adds host {Q = Q}, log-Adds host {Q = Q} q, r) depth 12

  pub parse_job_input-Adds : (text : String) → Adds Q (parse_job_input host json l text)
  unfolding parse_job_input
  parse_job_input-Adds text = search (adds_rules, log_simple_err-Adds host {Q = Q} q) depth 12

  pub after_create-Adds :
      ((r : Request) → Q (sent r))
      → (job_id : String) (e : Option GoError) → Adds Q (after_create host json l job_id e)
  unfolding after_create
  after_create-Adds r job_id e =
      search
        (
          adds_rules,
          log_audit-Adds host {Q = Q} q,
          send_exec_result_no_data-Adds host json.pz l.pz_session {Q = Q} q (λ m b u. r _),
        )
        depth 12

  -- An iteration adds what its session and the part after the session add.
  pub run_iteration-Adds :
      (f : DefaultFactory)
      → ((s : Session) (c : FactoryConfig) → Adds Q (f.create_session s c))
      → Q listed_apps
      → ((s : WrappedCfSession) → Adds Q (iterate host json l s))
      → Adds Q (run_iteration host json l f)
  unfolding run_iteration
  run_iteration-Adds f create listed rest =
      let fail : (m : String) (e : Option GoError) → Adds Q (log_simple_err host l.pz_session m e) =
        log_simple_err-Adds host {Q = Q} q l.pz_session in
      Adds-bind (log_info host l.pz_session "Starting polling loop iteration") _
        (log_info-Adds host {Q = Q} q l.pz_session _)
        (λ _.
          Adds-bind (get_session host f) _ (get_session-Adds host {Q = Q} q f create listed)
            (λ (r, f'). search (adds_rules, fail, rest) depth 14))
