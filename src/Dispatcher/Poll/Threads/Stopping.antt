-- ===== src/Dispatcher/Poll/Threads/Stopping.antt =====
-- dispatcher/poll: the goroutine of Start after Stop has returned.
use pzsvc_exec.Prelude.{Bool, true, false, Option, none, some, List, ◌≡◌, refl, count}
use pzsvc_exec.Host.{Host, Trace, GoError}
use pzsvc_exec.Dispatcher.JobData.{DispatcherJson}
use pzsvc_exec.Dispatcher.Cf.{DefaultFactory}
use pzsvc_exec.Dispatcher.Poll.{Loop}
use pzsvc_exec.Dispatcher.Poll.Threads.{
  Goroutine, selecting, sending, closing, closed, crashed, returned, ended, Polling, Label,
  iterated, received, other, Step, iterates, crashes, receives, logs, calls_stop, stops, closes,
  ends, Run, start, later, started, after_iteration,
}

abbrev pub is_iterated : Label → Bool
is_iterated (iterated e) = true
is_iterated (received e) = false
is_iterated other = false

-- The goroutine has received the signal.
abbrev pub IsHalted : Goroutine → Type 0
IsHalted selecting = ⊥
IsHalted (sending e) = ⊥
IsHalted closing = Unit
IsHalted closed = Unit
IsHalted crashed = ⊥

-- Stop returns only once the goroutine has received the signal, and the reader ends only once the
-- goroutine is through.
pub record IsOrderly (s : Polling) : Type 0 where
  pub halted : s.stopper ≡ returned → IsHalted s.goroutine
  pub drained : s.reader ≡ ended → s.goroutine ≡ closed
  pub stopped : IsHalted s.goroutine → s.stopper ≡ returned

still_running : (e : Option GoError) → ¬ IsHalted (after_iteration e)
still_running none h = h
still_running (some e) h = h

module _ (host : Host) (json : DispatcherJson) (l : Loop) where
  Step-IsOrderly :
      {s u : Polling} {label : Label} → Step host json l s label u → IsOrderly s → IsOrderly u
  Step-IsOrderly (iterates {e = e} r) h = record {
    halted = λ back. absurd (h.halted back);
    drained = λ end. absurd (cc (h.drained end));
    stopped = λ g. absurd (still_running e g);
  }
  Step-IsOrderly (crashes r) h = record {
    halted = λ back. absurd (h.halted back);
    drained = λ end. absurd (cc (h.drained end));
    stopped = λ g. absurd g;
  }
  Step-IsOrderly receives h = record {
    halted = λ back. absurd (h.halted back);
    drained = λ end. absurd (cc);
    stopped = λ g. absurd g;
  }
  Step-IsOrderly (logs a) h = record {
    halted = h.halted;
    drained = λ end. absurd (cc);
    stopped = h.stopped;
  }
  Step-IsOrderly (calls_stop a) h = record {
    halted = λ back. absurd (cc);
    drained = h.drained;
    stopped = λ g. absurd (cc (h.stopped g));
  }
  Step-IsOrderly stops h = record {
    halted = λ back. tt;
    drained = λ end. absurd (cc (h.drained end));
    stopped = λ g. refl;
  }
  Step-IsOrderly closes h = record {
    halted = λ back. tt;
    drained = λ end. refl;
    stopped = λ g. h.stopped tt;
  }
  Step-IsOrderly ends h = record { halted = λ back. tt; drained = λ end. refl; stopped = h.stopped }

  pub Run-IsOrderly :
      {s u : Polling} {ls : List Label} → Run host json l s ls u → IsOrderly s → IsOrderly u
  Run-IsOrderly start h = h
  Run-IsOrderly (later r m) h = Step-IsOrderly m (Run-IsOrderly r h)

  pub started-IsOrderly : (t : Trace) (f : DefaultFactory) → IsOrderly (started t f)
  started-IsOrderly t f = record {
    halted = λ back. absurd (cc);
    drained = λ end. absurd (cc);
    stopped = λ g. absurd g;
  }

  Step-IsHalted :
      {s u : Polling} {label : Label}
      → Step host json l s label u
      → IsHalted s.goroutine
      → (is_iterated label ≡ false) × IsHalted u.goroutine
  Step-IsHalted (iterates r) h = absurd h
  Step-IsHalted (crashes r) h = absurd h
  Step-IsHalted receives h = absurd h
  Step-IsHalted (logs a) h = (refl, h)
  Step-IsHalted (calls_stop a) h = (refl, h)
  Step-IsHalted stops h = absurd h
  Step-IsHalted closes h = (refl, tt)
  Step-IsHalted ends h = (refl, tt)

  Run-IsHalted :
      {s u : Polling} {ls : List Label}
      → Run host json l s ls u
      → IsHalted s.goroutine
      → (count is_iterated ls ≡ 0) × IsHalted u.goroutine
  Run-IsHalted start h = (refl, h)
  Run-IsHalted (later r m) h =
      let (none_yet, k) = Run-IsHalted r h in
      let (not_now, k') = Step-IsHalted m k in (rw not_now none_yet, k')

  -- Once Stop has returned, in any interleaving, no iteration runs any more.
  pub Run-stopped :
      (t : Trace) (f : DefaultFactory) (before after : List Label) (s u : Polling)
      → Run host json l (started t f) before s
      → s.stopper ≡ returned
      → Run host json l s after u
      → count is_iterated after ≡ 0
  Run-stopped t f before after s u r back more =
      (Run-IsHalted more ((Run-IsOrderly r (started-IsOrderly t f)).halted back)).0
