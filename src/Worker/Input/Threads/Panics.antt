-- ===== src/Worker/Input/Threads/Panics.antt =====
-- worker/input: the program with the goroutines of the downloads. Without a single attempt, of a
-- negative number of retries, the response is nil, and its use ends the whole program.
use pzsvc_exec.Prelude.{ℕ, suc, ◌+◌, ◌≤◌, List, [], ◌∷◌, ◌≡◌}
use pzsvc_exec.Prelude.Int.{ℤ, negsuc}
use pzsvc_exec.Worker.Config.{InputSource}
use pzsvc_exec.Worker.Input.Threads.{
  Disk, Progress, checking, opening, fetching, sending, failed, done, Download, Fetching, Step,
}

pub data Program : Type 0 where
  running : Fetching → Program
  panicked : Program

-- One of the goroutines is at its attempts.
pub data OneFetches : List Download → Type 0 where
  fetches_here :
      {s : InputSource} {gs : List Download}
      → OneFetches (record { source = s; progress = fetching } ∷ gs)
  fetches_there : {g : Download} {gs : List Download} → OneFetches gs → OneFetches (g ∷ gs)

-- How many goroutines are at their attempts.
abbrev pub is_fetching : Progress → ℕ
is_fetching checking = 0
is_fetching opening = 0
is_fetching fetching = 1
is_fetching (sending e) = 0
is_fetching failed = 0
is_fetching (done c) = 0

abbrev pub fetching_in : List Download → ℕ
fetching_in [] = 0
fetching_in (g ∷ gs) = is_fetching g.progress + fetching_in gs

-- The program goes on, where no goroutine gets through its attempts if there are none; or a
-- goroutine without an attempt panics.
pub data ProgramStep (retries : ℤ) : Program → Program → Type 0 where
  goes :
      {s t : Fetching}
      → ((n : ℕ) → retries ≡ negsuc n → fetching_in s.downloads ≤ fetching_in t.downloads)
      → Step s t
      → ProgramStep retries (running s) (running t)
  panics :
      {d : Disk} {gs : List Download} {p e n : ℕ}
      → retries ≡ negsuc n
      → OneFetches gs
      → ProgramStep retries
          (running (record { disk = d; downloads = gs; position = p; errors = e }))
          panicked

-- A run of so many steps.
pub data ProgramRuns (retries : ℤ) (s : Program) : ℕ → Program → Type 0 where
  program_start : ProgramRuns retries s 0 s
  program_later :
      {n : ℕ} {t u : Program}
      → ProgramRuns retries s n t
      → ProgramStep retries t u
      → ProgramRuns retries s (suc n) u
