-- ===== src/Worker/Input/Threads/Ends.antt =====
-- worker/input: how long the downloads and the loop over their channels go on.
use pzsvc_exec.Prelude.{ℕ, suc, ◌*◌, ◌≤◌, List, ◌≡◌, refl, sym, length, arith, inl, inr}
use pzsvc_exec.Prelude.Int.{ℤ, pos, negsuc}
use native.Mathlib.Decide.{dec_lt}
use pzsvc_exec.Worker.Config.{InputSource}
use pzsvc_exec.Worker.Input.Threads.{Disk, Fetching, Step, moves, reads, started}
use pzsvc_exec.Worker.Input.Threads.Panics.{
  Program, running, panicked, fetching_in, ProgramStep, goes, panics, ProgramRuns, program_start,
  program_later,
}
use pzsvc_exec.Worker.Input.Threads.Left.{
  IsBounded, Step-IsBounded, OneFetches-left, OneFetches-in, started-left, position-le, next_at,
}

-- What every step of the program keeps.
abbrev IsWithin : ℤ → (size n : ℕ) → Program → Type 0
IsWithin retries size n (running s) = IsBounded size n s
IsWithin retries size n panicked = (n ≤ 4 * size) × ((k : ℕ) × (retries ≡ negsuc k))

position-bound : (size n : ℕ) (s : Fetching) → IsBounded size n s → s.position ≤ size
position-bound size n s h = omega (arith, h.many, position-le s.position s.downloads h.unread)

-- No step is left.
abbrev pub IsStuck : ℤ → Program → Type 0
IsStuck retries s = (t : Program) → ¬ ProgramStep retries s t

-- The program panicked, which takes a negative number of retries, or every channel was read.
abbrev pub HasEnded : ℤ → ℕ → Program → Type 0
HasEnded retries size (running s) = s.position ≡ size
HasEnded retries size panicked = (n : ℕ) × (retries ≡ negsuc n)

module _ (retries : ℤ) (size : ℕ) where
  ProgramStep-IsWithin :
      {s t : Program} (n : ℕ)
      → ProgramStep retries s t
      → IsWithin retries size n s
      → IsWithin retries size (suc n) t
  ProgramStep-IsWithin n (goes c m) h = Step-IsBounded size n m h
  ProgramStep-IsWithin n (panics {n = k} e f) h =
      (omega (arith, h.bounded, OneFetches-left f, position-bound size n _ h), (k, e))

  ProgramRuns-IsWithin :
      {s t : Program} {n : ℕ}
      → ProgramRuns retries s n t
      → IsWithin retries size 0 s
      → IsWithin retries size n t
  ProgramRuns-IsWithin program_start h = h
  ProgramRuns-IsWithin (program_later {n = n} r m) h =
      ProgramStep-IsWithin n m (ProgramRuns-IsWithin r h)

  IsWithin-le : (n : ℕ) (s : Program) → IsWithin retries size n s → n ≤ 4 * size
  IsWithin-le n (running s) h = omega (arith, h.bounded, position-bound size n s h)
  IsWithin-le n panicked (h, k) = h

  -- Where the loop can go on, so can the program.
  next_of_program :
      (r : ℤ) (s t : Fetching)
      → Step s t
      → r ≡ retries
      → (u : Program) × ProgramStep retries (running s) u
  next_of_program (pos k) s t m e = (running t, goes (λ n h. absurd (ground (arith, e, h))) m)
  next_of_program (negsuc k) s t m e = elim (dec_lt 0 (fetching_in s.downloads)) [
    | yes l ↦ (panicked, panics (sym e) (OneFetches-in s.downloads l))
    | no l ↦ (running t, goes (λ n h. omega (arith, l)) m)
  ]

  stuck-HasEnded :
      (n : ℕ) (s : Program)
      → IsWithin retries size n s
      → IsStuck retries s
      → HasEnded retries size s
  stuck-HasEnded n panicked (h, k) stuck = k
  stuck-HasEnded n (running s) h stuck = elim (dec_lt s.position (length s.downloads)) [
    | yes l ↦ elim (next_at s.position s.disk s.downloads h.unread l) [
      | inl (d', gs', m) ↦
          let (u, k) = next_of_program retries s _ (moves m) refl in absurd (stuck u k)
      | inr (k, gs', r) ↦
          let (u, k') = next_of_program retries s _ (reads r) refl in absurd (stuck u k')
    ]
    | no k ↦ omega (arith, k, h.many, position-le s.position s.downloads h.unread)
  ]

-- However the downloads and the loop over their channels interleave, and whatever the disk and the
-- requests answer, there are at most four steps for each input, and where no step is left every
-- channel was read, or the number of retries is negative and the program panicked in a download.
pub started-Ends :
    (retries : ℤ) (disk : Disk) (sources : List InputSource) (n : ℕ) (s : Program)
    → ProgramRuns retries (running (started disk sources)) n s
    → (n ≤ 4 * length sources) × (IsStuck retries s → HasEnded retries (length sources) s)
started-Ends retries disk sources n s r =
    let (a, e, u) = started-left sources in
    let start : IsBounded (length sources) 0 (started disk sources) = record {
      bounded = omega (arith, a);
      many = e;
      unread = u;
    } in
    let h = ProgramRuns-IsWithin retries (length sources) r start in
    (IsWithin-le retries (length sources) n s h, stuck-HasEnded retries (length sources) n s h)
