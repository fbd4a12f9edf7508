-- ===== src/Dispatcher/Poll/Tasks.antt =====
-- The task that is created for a job: the worker's command of that job.
use pzsvc_exec.Prelude.{String, ◌<>◌, Option, none, ◌≡◌, refl, subst, arith}
use pzsvc_exec.Prelude.Int.{at_least, ℤ}
use pzsvc_exec.Host.{Host, Go, Event, GoError, Try, ok, err, created, on_error, pure, ◌>>=◌}
use pzsvc_exec.Host.Adds.{Adds, Adds-bind, Adds-on_error, Adds-if, adds_rules}
use pzsvc_exec.Host.Runs.{Adds-bind_of}
use pzsvc_exec.Host.Returns.{Returns, Returns-pure, Returns-then, Returns-bind, Returns-on_nil_both}
use pzsvc_exec.Pzsvc.Model.{Session, InpStruct}
use pzsvc_exec.Pzsvc.Log.{log_simple_err}
use pzsvc_exec.Pzsvc.Log.Laws.{log_info-Adds, log_simple_err-Adds, log_audit-Adds}
use pzsvc_exec.Pzsvc.Http.{json_request}
use pzsvc_exec.Pzsvc.Http.Replies.{IsSaid, request_known_json-Said}
use pzsvc_exec.Dispatcher.JobData.{DispatcherJson, PzTaskItem}
use pzsvc_exec.Dispatcher.Cf.{
  DefaultFactory, count_tasks_for_app, WrappedCfSession, FactoryConfig, create_task,
}
use pzsvc_exec.Dispatcher.Cf.Laws.{count_tasks_for_app-Adds, create_task-Adds}
use pzsvc_exec.Dispatcher.Limits.Laws.{calculate_limits-Adds}
use pzsvc_exec.Dispatcher.Command.{build_worker_command}
use pzsvc_exec.Dispatcher.Poll.Rules.{
  get_pz_task_item-Adds, parse_job_input-Adds, after_create-Adds, run_iteration-Adds,
}
use pzsvc_exec.Dispatcher.Poll.Jobs.{job_text}
use pzsvc_exec.Dispatcher.Poll.{
  Loop, mask, iterate, run_iteration, get_pz_task_item, parse_job_input, launch, start_job,
}

ok_injective : {A : Type 0} {a b : A} → ok a ≡ ok b → a ≡ b
ok_injective e = ground (arith, e)

module _ (host : Host) (json : DispatcherJson) (l : Loop) where
  -- Piazza gave the job: it is what a reply said to the request for a task of the service.
  abbrev pub IsGiven : PzTaskItem → Type 0
  IsGiven item =
      IsSaid host
        (json_request "POST" "" (l.pz_session.pz_addr <> "/service/" <> l.svc_id <> "/task")
          l.pz_session.pz_auth)
        json.task_item item

  -- A created task is that of a job that Piazza gave: it runs the worker's command that is built
  -- from the job's input, which is decoded and masked, and from the job's ID, is named by the ID,
  -- and is on the droplet of the dispatcher's own application. Other events pass.
  abbrev pub IsWorkerTask : Event → Type 0
  IsWorkerTask (created r) =
      (item : PzTaskItem) × IsGiven item
      × ((raw : InpStruct) × (json.inp_struct.decode (job_text item) ≡ (raw, none))
          × (build_worker_command l.config_path l.svc_id (mask raw) item.out_data.svc_data.job_id
              ≡ ok r.command)
          × (r.name ≡ item.out_data.svc_data.job_id)
          × (r.droplet_guid ≡ l.vcap_id))
  IsWorkerTask _ = Unit

  failed :
      (e : GoError) → Returns (λ r. (item : PzTaskItem) → r ≡ ok item → IsGiven item) (pure (err e))
  failed e = Returns-pure (err e) (λ item k. absurd (ground (arith, k)))

  get-IsGiven :
      Returns (λ r. (item : PzTaskItem) → r ≡ ok item → IsGiven item) (get_pz_task_item host json l)
  unfolding get_pz_task_item
  get-IsGiven =
      Returns-bind _ _ _
        (request_known_json-Said host "POST" "" _ l.pz_session.pz_auth json.task_item)
        (λ (item, byts, e) h.
          Returns-on_nil_both e _ _
            (λ n. Returns-pure (ok item) (λ i k. subst IsGiven (ok_injective k) (h n)))
            (λ e' n. Returns-then _ _ (λ (e'', x). failed _)))

  -- The rest of an iteration after a job was taken.
  when_given :
      (f : Try PzTaskItem → Go (Option GoError))
      → ((e : GoError) → Adds IsWorkerTask (f (err e)))
      → ((item : PzTaskItem) → IsGiven item → Adds IsWorkerTask (f (ok item)))
      → Adds IsWorkerTask (get_pz_task_item host json l >>= f)
  when_given f he hf =
      Adds-bind_of _ _ f
        (get_pz_task_item-Adds host json l {Q = IsWorkerTask} (λ line. tt) (λ request. tt))
        get-IsGiven (λ r h. by_result r h)
    where
      by_result :
          (r : Try PzTaskItem)
          → ((item : PzTaskItem) → r ≡ ok item → IsGiven item)
          → Adds IsWorkerTask (f r)
      by_result (ok item) h = hf item (h item refl)
      by_result (err e) h = he e

  module _ (text : String) where
    -- The input that is handed on is the decoded one, masked.
    abbrev IsParsed : Try InpStruct → Type 0
    IsParsed (ok j) =
        (raw : InpStruct) × (json.inp_struct.decode text ≡ (raw, none)) × (j ≡ mask raw)
    IsParsed (err e) = Unit

    parse-IsParsed : Returns IsParsed (parse_job_input host json l text)
    unfolding parse_job_input
    parse-IsParsed =
        Returns-on_nil_both (json.inp_struct.decode text).1 _ _
          (λ n. Returns-pure _ ((json.inp_struct.decode text).0, cc (n), refl))
          (λ e n. Returns-then _ _ (λ _. Returns-pure (err e) tt))

    -- The rest of the start of a job after its input was parsed.
    when_parsed :
        (f : Try InpStruct → Go (Option GoError))
        → ((e : GoError) → Adds IsWorkerTask (f (err e)))
        → ((raw : InpStruct)
            → json.inp_struct.decode text ≡ (raw, none)
            → Adds IsWorkerTask (f (ok (mask raw))))
        → Adds IsWorkerTask (parse_job_input host json l text >>= f)
    when_parsed f he hf =
        Adds-bind_of IsParsed _ f
          (parse_job_input-Adds host json l {Q = IsWorkerTask} (λ line. tt) text) parse-IsParsed
          (λ r h. by_result r h)
      where
        by_result : (r : Try InpStruct) → IsParsed r → Adds IsWorkerTask (f r)
        by_result (ok j) (raw, d, e) = rw e (hf raw d)
        by_result (err e) h = he e

  module _ (s : WrappedCfSession) (item : PzTaskItem) (given : IsGiven item) where
    launch-IsWorkerTask :
        (raw : InpStruct) (command : String)
        → json.inp_struct.decode (job_text item) ≡ (raw, none)
        → build_worker_command l.config_path l.svc_id (mask raw) item.out_data.svc_data.job_id
          ≡ ok command
        → Adds IsWorkerTask (launch host json l s item.out_data.svc_data.job_id command (mask raw))
    unfolding launch
    launch-IsWorkerTask raw command decoded h =
        let task : (disk memory : ℤ)
            → Adds IsWorkerTask (
                create_task host s (record {
                  command = command;
                  name = item.out_data.svc_data.job_id;
                  droplet_guid = l.vcap_id;
                  disk_in_megabyte = disk;
                  memory_in_megabyte = memory;
                })) =
          λ disk memory.
            create_task-Adds host {Q = IsWorkerTask} (λ line. tt) s _
              (item, given, (raw, decoded, h, refl, refl)) in
        search
          (
            adds_rules,
            log_audit-Adds host {Q = IsWorkerTask} (λ line. tt),
            task,
            calculate_limits-Adds host l.pz_session {Q = IsWorkerTask} (λ line. tt) (λ request. tt),
            after_create-Adds host json l {Q = IsWorkerTask} (λ line. tt) (λ request. tt),
          )
          depth 12

    when_built :
        (r : Try String) (f : GoError → Go (Option GoError)) (g : String → Go (Option GoError))
        → ((e : GoError) → Adds IsWorkerTask (f e))
        → ((command : String) → r ≡ ok command → Adds IsWorkerTask (g command))
        → Adds IsWorkerTask (on_error r f g)
    when_built (ok command) f g hf hg = hg command refl
    when_built (err e) f g hf hg = hf e

    start_job-IsWorkerTask : Adds IsWorkerTask (start_job host json l s item)
    unfolding start_job
    start_job-IsWorkerTask =
        search
          (
            when_parsed,
            when_built,
            adds_rules,
            launch-IsWorkerTask,
            log_info-Adds host {Q = IsWorkerTask} (λ line. tt),
          )
          depth 14

  iterate-IsWorkerTask : (s : WrappedCfSession) → Adds IsWorkerTask (iterate host json l s)
  unfolding iterate
  iterate-IsWorkerTask s =
      let fail : (m : String) (e : Option GoError)
          → Adds IsWorkerTask (log_simple_err host l.pz_session m e) =
        log_simple_err-Adds host {Q = IsWorkerTask} (λ line. tt) l.pz_session in
      Adds-bind (count_tasks_for_app host s l.vcap_id) _
        (count_tasks_for_app-Adds host {Q = IsWorkerTask} (λ line. tt) s l.vcap_id tt)
        (λ n.
          Adds-on_error n _ _ (λ e. search (adds_rules, fail))
            (λ k.
              Adds-if (at_least k l.task_limit) _ _
                (search (adds_rules, log_info-Adds host {Q = IsWorkerTask} (λ line. tt)))
                (search (when_given, adds_rules, start_job-IsWorkerTask) depth 12)))

  -- Every task that an iteration creates is that of a job that Piazza gave in a reply to the request
  -- for a task of the service: it runs the worker's command that is built from the job's decoded and
  -- masked input and the job's ID, is named by that ID, and runs on the dispatcher's own droplet.
  -- The factory's function makes sessions without creating tasks of another kind.
  pub run_iteration-IsWorkerTask :
      (f : DefaultFactory)
      → ((s : Session) (c : FactoryConfig) → Adds IsWorkerTask (f.create_session s c))
      → Adds IsWorkerTask (run_iteration host json l f)
  run_iteration-IsWorkerTask f create =
      run_iteration-Adds host json l {Q = IsWorkerTask} (λ line. tt) f create tt
        iterate-IsWorkerTask
