-- ===== src/Worker/Ingest/Threads/Panics.antt =====
-- worker/ingest and pzsvc/http.go: the program with the goroutines of the ingests. A panic in
-- IngestFile, of a reply without a result for one, ends the whole program.
use pzsvc_exec.Prelude.{String, ℕ, suc, List, ◌∷◌}
use pzsvc_exec.Host.{Try}
use pzsvc_exec.Worker.Ingest.{AsyncIngestorCall, MultiIngestOutput}
use pzsvc_exec.Worker.Ingest.Threads.{Ingestor, calling, Outer, Reading, Step}

pub data Program : Type 0 where
  running : Reading → Program
  panicked : Program

-- One of the goroutines is in the call of IngestFile.
pub data OneCalls : List Ingestor → Type 0 where
  calls_here :
      {c : AsyncIngestorCall} {a : Try String} {o : Outer} {gs : List Ingestor}
      → OneCalls (record { call = c; answer = a; inner = calling; outer = o } ∷ gs)
  calls_there : {g : Ingestor} {gs : List Ingestor} → OneCalls gs → OneCalls (g ∷ gs)

-- The program goes on, or a goroutine panics in its call, whether its channel was read or not.
pub data ProgramStep : Program → Program → Type 0 where
  goes : {s t : Reading} → Step s t → ProgramStep (running s) (running t)
  panics_behind :
      {p w : List Ingestor} {out : MultiIngestOutput}
      → OneCalls p
      → ProgramStep (running (record { passed = p; waiting = w; output = out })) panicked
  panics_ahead :
      {p w : List Ingestor} {out : MultiIngestOutput}
      → OneCalls w
      → ProgramStep (running (record { passed = p; waiting = w; output = out })) panicked

-- A run of so many steps.
pub data ProgramReach (s : Program) : ℕ → Program → Type 0 where
  program_start : ProgramReach s 0 s
  program_later :
      {n : ℕ} {t u : Program} → ProgramReach s n t → ProgramStep t u → ProgramReach s (suc n) u
