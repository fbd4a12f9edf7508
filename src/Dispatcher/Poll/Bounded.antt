-- ===== src/Dispatcher/Poll/Bounded.antt =====
-- How many tasks an iteration creates.
use pzsvc_exec.Prelude.{String, false, Option, ◌≡◌, refl, ◌≤◌, ◌+◌, count}
use pzsvc_exec.Prelude.Int.{at_least}
use pzsvc_exec.Host.{Host, Event, Trace, GoError, is_created}
use pzsvc_exec.Host.Adds.{Adds, adds_rules}
use pzsvc_exec.Host.Counts.{
  AtMost, AtMost-before, AtMost-after, AtMost-if, AtMost-on_error, at_most_rules,
}
use pzsvc_exec.Pzsvc.Model.{Session, InpStruct}
use pzsvc_exec.Pzsvc.Log.{log_info, log_simple_err}
use pzsvc_exec.Pzsvc.Log.Laws.{log_info-Adds, log_simple_err-Adds, log_audit-Adds}
use pzsvc_exec.Dispatcher.JobData.{DispatcherJson, PzTaskItem}
use pzsvc_exec.Dispatcher.Cf.{
  DefaultFactory, count_tasks_for_app, get_session, WrappedCfSession, FactoryConfig,
}
use pzsvc_exec.Dispatcher.Cf.Laws.{get_session-Adds, count_tasks_for_app-Adds, create_task-AtMost}
use pzsvc_exec.Dispatcher.Limits.Laws.{calculate_limits-Adds}
use pzsvc_exec.Dispatcher.Poll.Rules.{
  get_pz_task_item-Adds, parse_job_input-Adds, after_create-Adds,
}
use pzsvc_exec.Dispatcher.Poll.{Loop, iterate, run_iteration, get_pz_task_item, launch, start_job}

abbrev pub Other : Event → Type 0
Other e = is_created e ≡ false

module _ (host : Host) (json : DispatcherJson) (l : Loop) where
  launch-AtMost :
      (s : WrappedCfSession) (job_id command : String) (input : InpStruct)
      → AtMost is_created 1 (launch host json l s job_id command input)
  unfolding launch
  launch-AtMost s job_id command input =
      search
        (
          at_most_rules,
          AtMost-before,
          create_task-AtMost,
          log_audit-Adds host {Q = Other} (λ line. refl),
          calculate_limits-Adds host l.pz_session {Q = Other} (λ line. refl) (λ request. refl),
          after_create-Adds host json l {Q = Other} (λ line. refl) (λ request. refl),
        )
        depth 12

  pub start_job-AtMost :
      (s : WrappedCfSession) (item : PzTaskItem)
      → AtMost is_created 1 (start_job host json l s item)
  unfolding start_job
  start_job-AtMost s item =
      search
        (
          at_most_rules,
          launch-AtMost,
          log_info-Adds host {Q = Other} (λ line. refl),
          parse_job_input-Adds host json l {Q = Other} (λ line. refl),
        )
        depth 12

  iterate-AtMost : (s : WrappedCfSession) → AtMost is_created 1 (iterate host json l s)
  unfolding iterate
  iterate-AtMost s =
      let fail : (m : String) (e : Option GoError)
          → Adds Other (log_simple_err host l.pz_session m e) =
        log_simple_err-Adds host {Q = Other} (λ line. refl) l.pz_session in
      let item : Adds Other (get_pz_task_item host json l) =
        get_pz_task_item-Adds host json l {Q = Other} (λ line. refl) (λ request. refl) in
      AtMost-after (count_tasks_for_app host s l.vcap_id) _
        (count_tasks_for_app-Adds host {Q = Other} (λ line. refl) s l.vcap_id refl)
        (λ n.
          AtMost-on_error n _ _ (λ e. search (at_most_rules, fail))
            (λ k.
              AtMost-if (at_least k l.task_limit) _ _
                (search (at_most_rules, log_info-Adds host {Q = Other} (λ line. refl)))
                (search (at_most_rules, item, start_job-AtMost) depth 12)))

  pub run_iteration-AtMost :
      (f : DefaultFactory)
      → ((s : Session) (c : FactoryConfig) → Adds Other (f.create_session s c))
      → AtMost is_created 1 (run_iteration host json l f)
  unfolding run_iteration
  run_iteration-AtMost f create =
      let fail : (m : String) (e : Option GoError)
          → Adds Other (log_simple_err host l.pz_session m e) =
        log_simple_err-Adds host {Q = Other} (λ line. refl) l.pz_session in
      AtMost-after (log_info host l.pz_session "Starting polling loop iteration") _
        (log_info-Adds host {Q = Other} (λ line. refl) l.pz_session _)
        (λ _.
          AtMost-after (get_session host f) _
            (get_session-Adds host {Q = Other} (λ line. refl) f create refl)
            (λ (r, f').
              search (at_most_rules, AtMost-before, adds_rules, fail, iterate-AtMost) depth 14))

  -- One iteration creates at most one task, whatever Piazza, Cloud Foundry and the clock answer.
  -- The factory's function makes sessions without creating tasks.
  pub run_iteration_bounded :
      (f : DefaultFactory)
      → ((s : Session) (c : FactoryConfig) → Adds Other (f.create_session s c))
      → (t : Trace) → count is_created (run_iteration host json l f t).1 ≤ count is_created t + 1
  run_iteration_bounded f create = (run_iteration-AtMost f create).at
