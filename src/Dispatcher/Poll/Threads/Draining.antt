-- ===== src/Dispatcher/Poll/Threads/Draining.antt =====
-- dispatcher/poll and dispatcher/main.go: how a call of Stop comes to its end.
use pzsvc_exec.Prelude.{
  false, List, [], ◌∷◌, ◌≡◌, refl, count, ◌++◌, count-append, arith, subst, sym,
}
use pzsvc_exec.Host.{Host, Trace, GoError}
use pzsvc_exec.Dispatcher.JobData.{DispatcherJson}
use pzsvc_exec.Dispatcher.Cf.{DefaultFactory}
use pzsvc_exec.Dispatcher.Poll.{Loop}
use pzsvc_exec.Dispatcher.Poll.Threads.{
  Goroutine, selecting, sending, closing, closed, crashed, signalling, returned, Reader, ranging,
  logging, ended, Polling, Label, IsAlive, Step, receives, logs, stops, closes, ends, Run, start,
  later, started,
}
use pzsvc_exec.Dispatcher.Poll.Threads.Stopping.{
  is_iterated, IsOrderly, Run-IsOrderly, started-IsOrderly,
}

module _ (host : Host) (json : DispatcherJson) (l : Loop) where
  -- From here the goroutine, the reader and Stop can all come to their end without an iteration.
  abbrev pub CanStop : Polling → Type 0
  CanStop s =
      (ls : List Label) × (u : Polling) × Run host json l s ls u
      × (count is_iterated ls ≡ 0)
      × (u.stopper ≡ returned)
      × (u.goroutine ≡ closed)
      × (u.reader ≡ ended)

  first :
      {s t u : Polling} {label : Label} {ls : List Label}
      → Step host json l s label t
      → Run host json l t ls u
      → Run host json l s (ls ++ (label ∷ [])) u
  first m start = later start m
  first m (later r k) = later (first m r) k

  first-CanStop :
      {s t : Polling} {label : Label}
      → is_iterated label ≡ false
      → Step host json l s label t
      → CanStop t
      → CanStop s
  first-CanStop {label = label} quiet m (ls, u, r, none_yet, back, through, read) = (
    ls ++ (label ∷ []),
    u,
    first m r,
    ground (arith, count-append is_iterated ls (label ∷ []), none_yet, quiet),
    back,
    through,
    read,
  )

  select-CanStop :
      (t : Trace) (f : DefaultFactory)
      → CanStop (record {
        trace = t;
        factory = f;
        goroutine = selecting;
        stopper = signalling;
        reader = ranging;
      })
  select-CanStop t f = (_, _, later (later (later start stops) closes) ends, refl, refl, refl, refl)

  log-CanStop :
      (t : Trace) (f : DefaultFactory) (e : GoError)
      → CanStop (record {
        trace = t;
        factory = f;
        goroutine = selecting;
        stopper = signalling;
        reader = logging e;
      })
  log-CanStop t f e = first-CanStop refl (logs tt) (select-CanStop _ f)

  signalled-CanStop :
      (t : Trace) (f : DefaultFactory) (g : Goroutine) (rd : Reader)
      → IsAlive g
      → IsOrderly
          (record { trace = t; factory = f; goroutine = g; stopper = signalling; reader = rd })
      → CanStop
          (record { trace = t; factory = f; goroutine = g; stopper = signalling; reader = rd })
  signalled-CanStop t f selecting ranging a h = select-CanStop t f
  signalled-CanStop t f selecting (logging e) a h = log-CanStop t f e
  signalled-CanStop t f (sending e) ranging a h = first-CanStop refl receives (log-CanStop t f e)
  signalled-CanStop t f (sending e) (logging e') a h =
      first-CanStop refl (logs tt) (first-CanStop refl receives (log-CanStop _ f e))
  signalled-CanStop t f selecting ended a h = absurd (cc (h.drained refl))
  signalled-CanStop t f (sending e) ended a h = absurd (cc (h.drained refl))
  signalled-CanStop t f closing rd a h = absurd (cc (h.stopped tt))
  signalled-CanStop t f closed rd a h = absurd (cc (h.stopped tt))
  signalled-CanStop t f crashed rd a h = absurd a

  -- In any interleaving in which the program did not panic, a call of Stop that has not returned
  -- can return, and the goroutine and the loop over the errors can end, without an iteration.
  pub Run-CanStop :
      (t : Trace) (f : DefaultFactory) (ls : List Label) (s : Polling)
      → Run host json l (started t f) ls s
      → s.stopper ≡ signalling
      → IsAlive s.goroutine
      → CanStop s
  Run-CanStop t f ls s r calls a =
      subst (λ st. IsOrderly (record s { stopper = st }) → CanStop (record s { stopper = st }))
        (sym calls) (signalled-CanStop s.trace s.factory s.goroutine s.reader a)
        (Run-IsOrderly host json l r (started-IsOrderly host json l t f))
