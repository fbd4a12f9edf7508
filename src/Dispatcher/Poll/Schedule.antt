-- ===== src/Dispatcher/Poll/Schedule.antt =====
-- The goroutine of Start: what a schedule of ticks and stops does.
use pzsvc_exec.Prelude.{ℕ, suc, ◌+◌, ◌≤◌, List, [], ◌∷◌, ◌++◌, ◌≡◌, refl, ap, arith, count}
use pzsvc_exec.Host.{Host, Trace, is_created, pure, ◌>>=◌}
use pzsvc_exec.Host.Adds.{Adds}
use pzsvc_exec.Host.Counts.{AtMost, AtMost-bind_of, AtMost-pure, AtMost-weaken, AtMost-before}
use pzsvc_exec.Host.Returns.{Returns, Returns-bind, Returns-then, returns_rules}
use pzsvc_exec.Host.Adds.{Adds-pure}
use pzsvc_exec.Pzsvc.Model.{Session}
use pzsvc_exec.Pzsvc.Log.{log_info}
use pzsvc_exec.Dispatcher.JobData.{DispatcherJson}
use pzsvc_exec.Dispatcher.Cf.{DefaultFactory, FactoryConfig, CreateSessionFunc, get_session}
use pzsvc_exec.Dispatcher.Cf.Laws.{get_session-keeps}
use pzsvc_exec.Dispatcher.Poll.Bounded.{Other, run_iteration-AtMost}
use pzsvc_exec.Dispatcher.Poll.{Loop, Signal, tick, stop, run_iteration, start, with_error}

-- The ticks before the first stop.
abbrev pub ticks : List Signal → ℕ
ticks [] = 0
ticks (tick ∷ signals) = suc (ticks signals)
ticks (stop ∷ signals) = 0

-- A function that makes sessions without creating tasks.
abbrev pub MakesNoTask : CreateSessionFunc → Type 0
MakesNoTask create = (s : Session) (c : FactoryConfig) → Adds Other (create s c)

module _ (host : Host) (json : DispatcherJson) (l : Loop) where
  -- After a stop nothing is done: the signals behind it make no difference, to the result or to
  -- the trace.
  pub start_stopped :
      (before after : List Signal)
      → start host json l (before ++ (stop ∷ after)) ≡ start host json l (before ++ (stop ∷ []))
  unfolding start
  start_stopped [] after = refl
  start_stopped (stop ∷ before) after = refl
  start_stopped (tick ∷ before) after =
      ap (λ go f. run_iteration host json l f >>= λ (e, f'). go f' >>= λ r. pure (with_error e r))
        (start_stopped before after)

  pub run_iteration-keeps :
      (P : CreateSessionFunc → Type 0) (f : DefaultFactory)
      → P f.create_session
      → Returns (λ r. P (r.1).create_session) (run_iteration host json l f)
  unfolding run_iteration
  run_iteration-keeps P f h = Returns-then (log_info host l.pz_session _) _ (λ _.
      Returns-bind _ (get_session host f) _ (get_session-keeps host P f h)
        (λ (r, f') k. search (returns_rules, k) depth 12))

  start-AtMost :
      (signals : List Signal) (f : DefaultFactory)
      → MakesNoTask f.create_session
      → AtMost is_created (ticks signals) (start host json l signals f)
  unfolding start
  start-AtMost [] f h = AtMost-pure _
  start-AtMost (stop ∷ signals) f h = AtMost-pure _
  start-AtMost (tick ∷ signals) f h = AtMost-weaken (1 + ticks signals) _ (omega arith) (
      AtMost-bind_of (λ r. MakesNoTask (r.1).create_session) 1 (ticks signals)
        (run_iteration host json l f) _ (run_iteration-AtMost host json l f h)
        (run_iteration-keeps MakesNoTask f h)
        (λ (e, f') k.
          AtMost-before (start host json l signals f') _ (start-AtMost signals f' k)
            (λ r. Adds-pure _)))

  -- Polling creates at most one task for each tick before the first stop. The factory's function
  -- makes sessions without creating tasks.
  pub start_bounded :
      (signals : List Signal) (f : DefaultFactory)
      → MakesNoTask f.create_session
      → (t : Trace)
      → count is_created (start host json l signals f t).1 ≤ count is_created t + ticks signals
  start_bounded signals f h = (start-AtMost signals f h).at
