-- ===== src/Worker/Ingest/Threads/Ends.antt =====
-- worker/ingest: how long the goroutines and the reader of their channels go on.
use pzsvc_exec.Prelude.{ℕ, ◌+◌, List, [], ◌∷◌, ◌≡◌, length}
use pzsvc_exec.Worker.Ingest.Threads.Panics.{Program, running, panicked, ProgramStep}
use pzsvc_exec.Worker.Ingest.Threads.{
  Ingestor, Inner, Outer, calling, offering, finished, selecting, sending, sent, closed, Reading,
}

-- How many steps are left at most.
abbrev inner_left : Inner → ℕ
inner_left calling = 1
inner_left (offering r) = 0
inner_left finished = 0

abbrev outer_left : Outer → ℕ
outer_left selecting = 3
outer_left (sending r) = 2
outer_left sent = 1
outer_left closed = 0

abbrev goroutines_left : List Ingestor → ℕ
goroutines_left [] = 0
goroutines_left (g ∷ gs) = inner_left g.inner + outer_left g.outer + goroutines_left gs

abbrev steps_left : Reading → ℕ
steps_left s = goroutines_left s.passed + goroutines_left s.waiting + length s.waiting

abbrev program_left : Program → ℕ
program_left (running s) = steps_left s
program_left panicked = 0

-- No step is left.
abbrev pub IsStuck : Program → Type 0
IsStuck s = (t : Program) → ¬ ProgramStep s t

-- The program panicked, or every channel was read to its end.
abbrev pub HasEnded : Program → Type 0
HasEnded (running s) = s.waiting ≡ []
HasEnded panicked = Unit
