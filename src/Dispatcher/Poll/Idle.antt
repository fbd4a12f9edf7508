-- ===== src/Dispatcher/Poll/Idle.antt =====
-- At its limit of tasks the dispatcher takes no job.
use pzsvc_exec.Prelude.{
  ℕ, String, true, false, some, List, [], ◌∷◌, ◌≡◌, refl, arith, length, count, count-append, All,
  if◌then◌else◌,
}
use pzsvc_exec.Prelude.Int.{at_least}
use pzsvc_exec.Host.{
  Host, Go, Event, Trace, GoError, Try, ok, err, is_sent, is_created, pure, on_error, look, ◌>>=◌,
}
use pzsvc_exec.Host.Adds.{Adds, adds_rules}
use pzsvc_exec.Host.Returns.{
  Returns, Returns-pure, Returns-bind, Returns-then, Returns-on_nil, Returns-crash,
}
use pzsvc_exec.Host.Runs.{Adds-bind_of}
use pzsvc_exec.Pzsvc.Model.{Session}
use pzsvc_exec.Pzsvc.Log.{log_simple_err}
use pzsvc_exec.Pzsvc.Log.Laws.{log_info-Adds, log_simple_err-Adds}
use pzsvc_exec.Dispatcher.JobData.{DispatcherJson}
use pzsvc_exec.Dispatcher.Cf.{
  count_query, DefaultFactory, WrappedCfSession, FactoryConfig, count_tasks_for_app,
}
use pzsvc_exec.Dispatcher.Cf.Laws.{count_tasks_for_app-Adds}
use pzsvc_exec.Dispatcher.Poll.Rules.{run_iteration-Adds}
use pzsvc_exec.Dispatcher.Poll.{Loop, iterate, run_iteration}

-- No request is sent and no task is created.
abbrev pub IsIdle : Event → Type 0
IsIdle e = (is_sent e ≡ false) × (is_created e ≡ false)

-- Making a session neither sends a request nor creates a task.
abbrev pub CreatesIdly : DefaultFactory → Type 0
CreatesIdly f = (s : Session) (c : FactoryConfig) → Adds IsIdle (f.create_session s c)

none_sent : (new : List Event) → All IsIdle new → count is_sent new ≡ 0
none_sent [] q = refl
none_sent (e ∷ new) ((a, b), q) = rw a (none_sent new q)

none_created : (new : List Event) → All IsIdle new → count is_created new ≡ 0
none_created [] q = refl
none_created (e ∷ new) ((a, b), q) = rw b (none_created new q)

module _ (host : Host) (json : DispatcherJson) (l : Loop) where
  -- Whatever number of tasks the Cloud Foundry client reports, it reaches the limit.
  abbrev pub IsFull : Type 0
  IsFull =
      (t : Trace) (client : ℕ) (tasks : List String)
      → host.cloud_foundry.tasks_by_app t client l.vcap_id count_query ≡ ok tasks
      → at_least (length tasks) l.task_limit ≡ true

  abbrev IsReached : Try ℕ → Type 0
  IsReached (ok n) = at_least n l.task_limit ≡ true
  IsReached (err e) = Unit

  judge_count :
      (full : IsFull) (t : Trace) (client : ℕ) (r : Try (List String))
      → host.cloud_foundry.tasks_by_app t client l.vcap_id count_query ≡ r
      → IsReached (on_error r err (λ tasks. ok (length tasks)))
  judge_count full t client (ok tasks) h = full t client tasks h
  judge_count full t client (err e) h = tt

  counted_tasks :
      (client : ℕ)
      → IsFull
      → Returns
          (λ r. IsReached (on_error r err (λ tasks. ok (length tasks))))
          (look (λ t. host.cloud_foundry.tasks_by_app t client l.vcap_id count_query))
  counted_tasks client full = record {
    at = λ t r e. judge_count full t client r (ground (arith, e));
  }

  bind_counted :
      (client : ℕ) (f : Try (List String) → Go (Try ℕ))
      → IsFull
      → ((r : Try (List String))
          → IsReached (on_error r err (λ tasks. ok (length tasks)))
          → Returns IsReached (f r))
      → Returns IsReached
          (look (λ t. host.cloud_foundry.tasks_by_app t client l.vcap_id count_query) >>= f)
  bind_counted client f full h = Returns-bind _ _ f (counted_tasks client full) h

  answer_count :
      (s : Session) (r : Try (List String))
      → IsReached (on_error r err (λ tasks. ok (length tasks)))
      → Returns IsReached (
          on_error r
            (λ e. log_simple_err host s "Cannot poll CF tasks" (some e) >>= λ _. pure (err e))
            (λ tasks. pure (ok (length tasks))))
  answer_count s (ok tasks) h = Returns-pure _ h
  answer_count s (err e) h = Returns-then _ _ (λ _. Returns-pure _ tt)

  count-IsReached :
      IsFull → (s : WrappedCfSession) → Returns IsReached (count_tasks_for_app host s l.vcap_id)
  unfolding count_tasks_for_app
  count-IsReached full s =
      search (Returns-on_nil, Returns-crash, bind_counted, full, Returns-then, answer_count) depth 9

  bind_count {ℓ} :
      {A : Type ℓ} (full : IsFull) (s : WrappedCfSession) (f : Try ℕ → Go A)
      → ((r : Try ℕ) → IsReached r → Adds IsIdle (f r))
      → Adds IsIdle (count_tasks_for_app host s l.vcap_id >>= f)
  bind_count full s f h =
      Adds-bind_of IsReached _ f
        (count_tasks_for_app-Adds host {Q = IsIdle} (λ line. (refl, refl)) s l.vcap_id (refl, refl))
        (count-IsReached full s) h

  skip_at_limit {ℓ} :
      {A : Type ℓ} (r : Try ℕ) (f : GoError → Go A) (m : Go A) (k : Go A)
      → IsReached r
      → ((e : GoError) → Adds IsIdle (f e))
      → Adds IsIdle m
      → Adds IsIdle (on_error r f (λ n. if at_least n l.task_limit then m else k))
  skip_at_limit (ok n) f m k h hf hm = rw h hm
  skip_at_limit (err e) f m k h hf hm = hf e

  iterate-IsIdle : IsFull → (s : WrappedCfSession) → Adds IsIdle (iterate host json l s)
  unfolding iterate
  iterate-IsIdle full s = bind_count full s _ (λ r h.
      skip_at_limit r _ _ _ h
        (search
          (adds_rules, log_simple_err-Adds host {Q = IsIdle} (λ line. (refl, refl)) l.pz_session))
        (search (adds_rules, log_info-Adds host {Q = IsIdle} (λ line. (refl, refl)) l.pz_session)))

  run_iteration-IsIdle :
      (f : DefaultFactory) → IsFull → CreatesIdly f → Adds IsIdle (run_iteration host json l f)
  run_iteration-IsIdle f full create =
      run_iteration-Adds host json l {Q = IsIdle} (λ line. (refl, refl)) f create (refl, refl)
        (iterate-IsIdle full)

  -- An iteration that is at its limit of tasks, whatever the Cloud Foundry client counts, asks
  -- Piazza for nothing and creates no task. The factory's function makes sessions without either.
  pub run_iteration_full :
      (f : DefaultFactory)
      → IsFull
      → CreatesIdly f
      → (t : Trace)
      → (count is_sent (run_iteration host json l f t).1 ≡ count is_sent t)
        × (count is_created (run_iteration host json l f t).1 ≡ count is_created t)
  run_iteration_full f full create t =
      let (new, e, q) = (run_iteration-IsIdle f full create).at t in
      (
        rw (e, count-append) (omega (arith, none_sent new q)),
        rw (e, count-append) (omega (arith, none_created new q)),
      )
