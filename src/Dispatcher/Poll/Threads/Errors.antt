-- ===== src/Dispatcher/Poll/Threads/Errors.antt =====
-- dispatcher/poll and dispatcher/main.go: the errors of the iterations on their way to main.
use pzsvc_exec.Prelude.{none, some, List, [], ◌∷◌, ◌++◌, ◌≡◌, refl, ap}
use pzsvc_exec.Host.{Host, Trace, GoError}
use pzsvc_exec.Dispatcher.JobData.{DispatcherJson}
use pzsvc_exec.Dispatcher.Cf.{DefaultFactory}
use pzsvc_exec.Dispatcher.Poll.{Loop}
use pzsvc_exec.Dispatcher.Poll.Threads.{
  Goroutine, selecting, sending, closing, closed, crashed, Polling, Label, iterated, received,
  other, Step, iterates, crashes, receives, logs, calls_stop, stops, closes, ends, Run, start,
  later, started,
}

-- The errors that iterations returned, and those that the reader received, the newest first.
abbrev pub returned_errors : List Label → List GoError
returned_errors [] = []
returned_errors (iterated none ∷ ls) = returned_errors ls
returned_errors (iterated (some e) ∷ ls) = e ∷ returned_errors ls
returned_errors (received e ∷ ls) = returned_errors ls
returned_errors (other ∷ ls) = returned_errors ls

abbrev pub received_errors : List Label → List GoError
received_errors [] = []
received_errors (iterated e ∷ ls) = received_errors ls
received_errors (received e ∷ ls) = e ∷ received_errors ls
received_errors (other ∷ ls) = received_errors ls

-- The error that waits for the reader.
abbrev pub pending : Goroutine → List GoError
pending selecting = []
pending (sending e) = e ∷ []
pending closing = []
pending closed = []
pending crashed = []

module _ (host : Host) (json : DispatcherJson) (l : Loop) where
  Step-errors :
      {s u : Polling} {label : Label} (ls : List Label)
      → Step host json l s label u
      → returned_errors ls ≡ pending s.goroutine ++ received_errors ls
      → returned_errors (label ∷ ls) ≡ pending u.goroutine ++ received_errors (label ∷ ls)
  Step-errors ls (iterates {e = none} r) h = h
  Step-errors ls (iterates {e = some e} r) h = ap (λ es. e ∷ es) h
  Step-errors ls (crashes r) h = h
  Step-errors ls receives h = h
  Step-errors ls (logs a) h = h
  Step-errors ls (calls_stop a) h = h
  Step-errors ls stops h = h
  Step-errors ls closes h = h
  Step-errors ls ends h = h

  -- In every interleaving the errors that main received, and the one that may wait for it, are
  -- those that the iterations returned, each once and in their order.
  pub Run-errors :
      (t : Trace) (f : DefaultFactory) (ls : List Label) (s : Polling)
      → Run host json l (started t f) ls s
      → returned_errors ls ≡ pending s.goroutine ++ received_errors ls
  Run-errors t f ls s start = refl
  Run-errors t f ls s (later {ls = before} r m) = Step-errors before m (Run-errors t f before _ r)
