-- ===== src/Dispatcher/Poll/Threads.antt =====
-- dispatcher/poll and dispatcher/main.go: the goroutine of Start, the reader of its errors in main
-- and a caller of Stop, interleaved in any order. A channel without a buffer is a step of both its
-- ends, and an iteration is one step.
pub mod Errors
pub mod Stopping
pub mod Draining
use pzsvc_exec.Prelude.{String, Option, none, some, List, [], ◌∷◌, ◌≡◌}
use pzsvc_exec.Host.{Host, Trace, GoError, ret, panic}
use pzsvc_exec.Pzsvc.Log.{log_simple_err}
use pzsvc_exec.Dispatcher.JobData.{DispatcherJson}
use pzsvc_exec.Dispatcher.Cf.{DefaultFactory}
use pzsvc_exec.Dispatcher.Poll.{Loop, run_iteration}

-- The goroutine of Start: at the select, at the send of an error, at the close of the channel of
-- errors, or through. A panic ends the program.
pub data Goroutine : Type 0 where
  selecting : Goroutine
  sending : GoError → Goroutine
  closing : Goroutine
  closed : Goroutine
  crashed : Goroutine

-- The caller of Stop: not yet there, at the send of the signal, or back from it.
pub data Stopper : Type 0 where
  absent : Stopper
  signalling : Stopper
  returned : Stopper

-- The loop of main over the errors.
pub data Reader : Type 0 where
  ranging : Reader
  logging : GoError → Reader
  ended : Reader

pub record Polling : Type 0 where
  pub trace : Trace
  pub factory : DefaultFactory
  pub goroutine : Goroutine
  pub stopper : Stopper
  pub reader : Reader

-- What a step is, for those who count.
pub data Label : Type 0 where
  iterated : Option GoError → Label
  received : GoError → Label
  other : Label

-- Where an iteration leads.
abbrev pub after_iteration : Option GoError → Goroutine
after_iteration none = selecting
after_iteration (some e) = sending e

abbrev pub IsAlive : Goroutine → Type 0
IsAlive crashed = ⊥
IsAlive _ = Unit

module _ (host : Host) (json : DispatcherJson) (l : Loop) where
  pub data Step : Polling → Label → Polling → Type 0 where
    iterates :
        {t : Trace} {f f' : DefaultFactory} {e : Option GoError} {st : Stopper} {rd : Reader}
        → (run_iteration host json l f t).0 ≡ ret (e, f')
        → Step
            (record { trace = t; factory = f; goroutine = selecting; stopper = st; reader = rd })
            (iterated e)
            (record {
              trace = (run_iteration host json l f t).1;
              factory = f';
              goroutine = after_iteration e;
              stopper = st;
              reader = rd;
            })
    crashes :
        {t : Trace} {f : DefaultFactory} {st : Stopper} {rd : Reader}
        → (run_iteration host json l f t).0 ≡ panic
        → Step
            (record { trace = t; factory = f; goroutine = selecting; stopper = st; reader = rd })
            other
            (record {
              trace = (run_iteration host json l f t).1;
              factory = f;
              goroutine = crashed;
              stopper = st;
              reader = rd;
            })
    receives :
        {t : Trace} {f : DefaultFactory} {e : GoError} {st : Stopper}
        → Step
            (record {
              trace = t;
              factory = f;
              goroutine = sending e;
              stopper = st;
              reader = ranging;
            })
            (received e)
            (record {
              trace = t;
              factory = f;
              goroutine = selecting;
              stopper = st;
              reader = logging e;
            })
    logs :
        {t : Trace} {f : DefaultFactory} {g : Goroutine} {e : GoError} {st : Stopper}
        → IsAlive g
        → Step
            (record { trace = t; factory = f; goroutine = g; stopper = st; reader = logging e })
            other
            (record {
              trace =
                  (log_simple_err host l.pz_session
                    "Polling loop encountered an error on this iteration:: "
                    (some e)
                    t).1;
              factory = f;
              goroutine = g;
              stopper = st;
              reader = ranging;
            })
    calls_stop :
        {t : Trace} {f : DefaultFactory} {g : Goroutine} {rd : Reader}
        → IsAlive g
        → Step
            (record { trace = t; factory = f; goroutine = g; stopper = absent; reader = rd })
            other
            (record { trace = t; factory = f; goroutine = g; stopper = signalling; reader = rd })
    stops :
        {t : Trace} {f : DefaultFactory} {rd : Reader}
        → Step
            (record {
              trace = t;
              factory = f;
              goroutine = selecting;
              stopper = signalling;
              reader = rd;
            })
            other
            (record {
              trace = t;
              factory = f;
              goroutine = closing;
              stopper = returned;
              reader = rd;
            })
    closes :
        {t : Trace} {f : DefaultFactory} {st : Stopper} {rd : Reader}
        → Step
            (record { trace = t; factory = f; goroutine = closing; stopper = st; reader = rd })
            other
            (record { trace = t; factory = f; goroutine = closed; stopper = st; reader = rd })
    ends :
        {t : Trace} {f : DefaultFactory} {st : Stopper}
        → Step
            (record { trace = t; factory = f; goroutine = closed; stopper = st; reader = ranging })
            other
            (record { trace = t; factory = f; goroutine = closed; stopper = st; reader = ended })

  -- A run with its labels, the newest first.
  pub data Run (s : Polling) : List Label → Polling → Type 0 where
    start : Run s [] s
    later :
        {ls : List Label} {t u : Polling} {label : Label}
        → Run s ls t
        → Step t label u
        → Run s (label ∷ ls) u

-- After Start has been called.
abbrev pub started : Trace → DefaultFactory → Polling
started t f = record {
  trace = t;
  factory = f;
  goroutine = selecting;
  stopper = absent;
  reader = ranging;
}
