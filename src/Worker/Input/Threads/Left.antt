-- ===== src/Worker/Input/Threads/Left.antt =====
-- worker/input: the steps that the downloads and the loop over their channels have left.
use pzsvc_exec.Prelude.{
  ℕ, zero, suc, ◌+◌, ◌*◌, ◌≤◌, ◌<◌, List, [], ◌∷◌, map, ◌≡◌, ◌≢◌, refl, length, arith, ◌⊎◌, inl,
  inr,
}
use pzsvc_exec.Host.{plain}
use pzsvc_exec.Worker.Config.{InputSource}
use pzsvc_exec.Worker.Input.Threads.Panics.{
  OneFetches, fetches_here, fetches_there, is_fetching, fetching_in,
}
use pzsvc_exec.Worker.Input.Threads.{
  Disk, Progress, checking, opening, fetching, sending, failed, done, Download, Move, finds_file,
  stat_fails, finds_none, opens, open_fails, copies, fetch_fails, OneMoves, here, there, ReadsAt,
  receives_nil, receives_error, further, Fetching, Step, moves, reads, new_download,
}

-- How many steps are left at most, of the goroutines and of the loop.
abbrev pub left : Progress → ℕ
left checking = 3
left opening = 2
left fetching = 1
left (sending e) = 0
left failed = 0
left (done c) = 0

abbrev pub all_left : List Download → ℕ
all_left [] = 0
all_left (g ∷ gs) = left g.progress + all_left gs

-- From the position on, the loop has received no error yet.
abbrev pub AreUnread : ℕ → List Download → Type 0
AreUnread zero [] = Unit
AreUnread zero (g ∷ gs) = (g.progress ≢ failed) × AreUnread zero gs
AreUnread (suc n) [] = ⊥
AreUnread (suc n) (g ∷ gs) = AreUnread n gs

Move-left :
    {d d' : Disk} {g g' : Download}
    → Move d g d' g'
    → (suc (left g'.progress) ≤ left g.progress) × (g'.progress ≢ failed)
Move-left (finds_file e) = (omega arith, λ h. absurd (cc))
Move-left (stat_fails e) = (omega arith, λ h. absurd (cc))
Move-left (finds_none e) = (omega arith, λ h. absurd (cc))
Move-left opens = (omega arith, λ h. absurd (cc))
Move-left (open_fails e) = (omega arith, λ h. absurd (cc))
Move-left (copies c) = (omega arith, λ h. absurd (cc))
Move-left (fetch_fails c e) = (omega arith, λ h. absurd (cc))

OneMoves-left :
    {d d' : Disk} {gs gs' : List Download}
    → OneMoves d gs d' gs'
    → (suc (all_left gs') ≤ all_left gs) × (length gs' ≡ length gs)
OneMoves-left (here m) = (omega (arith, (Move-left m).0), refl)
OneMoves-left (there m) = let (h, e) = OneMoves-left m in (omega (arith, h), omega (arith, e))

OneMoves-AreUnread :
    {d d' : Disk} {gs gs' : List Download} (n : ℕ)
    → OneMoves d gs d' gs'
    → AreUnread n gs
    → AreUnread n gs'
OneMoves-AreUnread zero (here m) (h, hs) = ((Move-left m).1, hs)
OneMoves-AreUnread zero (there m) (h, hs) = (h, OneMoves-AreUnread zero m hs)
OneMoves-AreUnread (suc n) (here m) h = h
OneMoves-AreUnread (suc n) (there m) h = OneMoves-AreUnread n m h

ReadsAt-left :
    {gs gs' : List Download} {n k : ℕ}
    → ReadsAt n gs k gs'
    → (all_left gs' ≡ all_left gs) × (length gs' ≡ length gs) × (n < length gs)
ReadsAt-left receives_nil = (refl, refl, omega arith)
ReadsAt-left receives_error = (refl, refl, omega arith)
ReadsAt-left (further r) =
    let (a, e, l) = ReadsAt-left r in (omega (arith, a), omega (arith, e), omega (arith, l))

ReadsAt-AreUnread :
    {gs gs' : List Download} {n k : ℕ} → ReadsAt n gs k gs' → AreUnread n gs → AreUnread (suc n) gs'
ReadsAt-AreUnread receives_nil (h, hs) = hs
ReadsAt-AreUnread receives_error (h, hs) = hs
ReadsAt-AreUnread (further r) h = ReadsAt-AreUnread r h

-- What every step keeps, of a run of so many steps on so many downloads.
pub record IsBounded (size n : ℕ) (s : Fetching) : Type 0 where
  pub bounded : n + all_left s.downloads ≤ 3 * size + s.position
  pub many : length s.downloads ≡ size
  pub unread : AreUnread s.position s.downloads

pub Step-IsBounded :
    {s t : Fetching} (size n : ℕ) → Step s t → IsBounded size n s → IsBounded size (suc n) t
Step-IsBounded size n (moves {n = p} m) h =
    let (l, e) = OneMoves-left m in
    record {
      bounded = omega (arith, h.bounded, l);
      many = omega (arith, h.many, e);
      unread = OneMoves-AreUnread p m h.unread;
    }
Step-IsBounded size n (reads r) h =
    let (a, e, l) = ReadsAt-left r in
    record {
      bounded = omega (arith, h.bounded, a);
      many = omega (arith, h.many, e);
      unread = ReadsAt-AreUnread r h.unread;
    }

pub OneFetches-left : {gs : List Download} → OneFetches gs → 1 ≤ all_left gs
OneFetches-left fetches_here = omega arith
OneFetches-left (fetches_there h) = omega (arith, OneFetches-left h)

pub started-left :
    (sources : List InputSource)
    → (all_left (map new_download sources) ≡ 3 * length sources)
      × (length (map new_download sources) ≡ length sources)
      × AreUnread 0 (map new_download sources)
started-left [] = (refl, refl, tt)
started-left (s ∷ sources) =
    let (a, e, u) = started-left sources in
    (omega (arith, a), omega (arith, e), ((λ h. absurd (cc)), u))

pub position-le : (n : ℕ) (gs : List Download) → AreUnread n gs → n ≤ length gs
position-le zero gs h = omega arith
position-le (suc n) [] h = absurd h
position-le (suc n) (g ∷ gs) h = omega (arith, position-le n gs h)

-- While a channel is left to read, it is read or its goroutine moves.
pub next_at :
    (n : ℕ) (d : Disk) (gs : List Download)
    → AreUnread n gs
    → n < length gs
    → ((d' : Disk) × (gs' : List Download) × OneMoves d gs d' gs')
      ⊎ ((k : ℕ) × (gs' : List Download) × ReadsAt n gs k gs')
next_at n d [] h l = absurd (omega (arith, l))
next_at zero d (g ∷ gs) (h, hs) l = next_of d g.source g.progress gs h
  where
    next_of :
        (d : Disk) (s : InputSource) (p : Progress) (gs : List Download)
        → p ≢ failed
        → ((d' : Disk) × (gs' : List Download) × OneMoves d
              (record { source = s; progress = p } ∷ gs)
              d'
              gs')
          ⊎ ((k : ℕ) × (gs' : List Download) × ReadsAt 0
                (record { source = s; progress = p } ∷ gs)
                k
                gs')
    next_of d s checking gs h = inl (d, _, here (stat_fails (plain "")))
    next_of d s opening gs h = inl (_, _, here opens)
    next_of d s fetching gs h = inl (_, _, here (copies []))
    next_of d s (sending e) gs h = inr (1, _, receives_error)
    next_of d s failed gs h = absurd (h refl)
    next_of d s (done c) gs h = inr (0, _, receives_nil)
next_at (suc n) d (g ∷ gs) h l = elim (next_at n d gs h (omega (arith, l))) [
  | inl (d', gs', m) ↦ inl (d', g ∷ gs', there m)
  | inr (k, gs', r) ↦ inr (k, g ∷ gs', further r)
]

pub OneFetches-in : (gs : List Download) → 0 < fetching_in gs → OneFetches gs
OneFetches-in [] h = absurd (omega (arith, h))
OneFetches-in (g ∷ gs) h = in_rest g.source g.progress (λ k. OneFetches-in gs k) h
  where
    in_rest :
        (s : InputSource) (p : Progress)
        → (0 < fetching_in gs → OneFetches gs)
        → 0 < is_fetching p + fetching_in gs
        → OneFetches (record { source = s; progress = p } ∷ gs)
    in_rest s fetching rest h = fetches_here
    in_rest s checking rest h = fetches_there (rest (omega (arith, h)))
    in_rest s opening rest h = fetches_there (rest (omega (arith, h)))
    in_rest s (sending e) rest h = fetches_there (rest (omega (arith, h)))
    in_rest s failed rest h = fetches_there (rest (omega (arith, h)))
    in_rest s (done c) rest h = fetches_there (rest (omega (arith, h)))
