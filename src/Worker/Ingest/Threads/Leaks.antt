-- ===== src/Worker/Ingest/Threads/Leaks.antt =====
-- worker/ingest/ingest_async.go: ingests that answer after their timeout.
use pzsvc_exec.Prelude.{ℕ, Bool, true, false, List, [], ◌∷◌, ◌&&◌, ◌≡◌, arith}
use pzsvc_exec.Worker.Ingest.Threads.{
  Ingestor, Inner, Outer, calling, offering, finished, selecting, sending, sent, closed, Move,
  answers, passes_on, times_out, closes, OneMoves, here, there, Reading, Step, behind, ahead,
  receives, goes_on, Reach, start, later,
}

abbrev is_unfinished : Inner → Bool
is_unfinished calling = true
is_unfinished (offering r) = true
is_unfinished finished = false

abbrev has_selected : Outer → Bool
has_selected selecting = false
has_selected (sending r) = true
has_selected sent = true
has_selected closed = true

-- The inner goroutine is not through, and nobody is left to receive what it has to send.
abbrev pub is_leaked : Ingestor → Bool
is_leaked g = is_unfinished g.inner && has_selected g.outer

-- All ingests of a reading in the order of the calls: those that were read stand in reverse.
abbrev pub in_call_order : List Ingestor → List Ingestor → List Ingestor
in_call_order [] w = w
in_call_order (g ∷ p) w = in_call_order p (g ∷ w)

abbrev pub ingests_of : Reading → List Ingestor
ingests_of s = in_call_order s.passed s.waiting

-- Of two lists of the same ingests, each that is leaked in the first is so in the second.
abbrev pub AreStillLeaked : List Ingestor → List Ingestor → Type 0
AreStillLeaked [] [] = Unit
AreStillLeaked [] (g ∷ gs) = ⊥
AreStillLeaked (g ∷ gs) [] = ⊥
AreStillLeaked (g ∷ gs) (g' ∷ gs') =
    (is_leaked g ≡ true → is_leaked g' ≡ true) × AreStillLeaked gs gs'

AreStillLeaked-refl : (gs : List Ingestor) → AreStillLeaked gs gs
AreStillLeaked-refl [] = tt
AreStillLeaked-refl (g ∷ gs) = ((λ h. h), AreStillLeaked-refl gs)

AreStillLeaked-trans :
    (xs ys zs : List Ingestor) → AreStillLeaked xs ys → AreStillLeaked ys zs → AreStillLeaked xs zs
AreStillLeaked-trans [] [] zs h k = k
AreStillLeaked-trans [] (y ∷ ys) zs h k = absurd h
AreStillLeaked-trans (x ∷ xs) [] zs h k = absurd h
AreStillLeaked-trans (x ∷ xs) (y ∷ ys) [] h k = absurd k
AreStillLeaked-trans (x ∷ xs) (y ∷ ys) (z ∷ zs) (h, hs) (k, ks) =
    ((λ e. k (h e)), AreStillLeaked-trans xs ys zs hs ks)

Move-leaked : {g g' : Ingestor} → Move g g' → is_leaked g ≡ true → is_leaked g' ≡ true
Move-leaked answers h = h
Move-leaked passes_on h = absurd (cc h)
Move-leaked (times_out {i = i}) h = ground (arith, h)
Move-leaked closes h = h

OneMoves-AreStillLeaked : {gs gs' : List Ingestor} → OneMoves gs gs' → AreStillLeaked gs gs'
OneMoves-AreStillLeaked (here {gs = gs} m) = (Move-leaked m, AreStillLeaked-refl gs)
OneMoves-AreStillLeaked (there m) = ((λ h. h), OneMoves-AreStillLeaked m)

in_call_order-AreStillLeaked :
    (p p' w w' : List Ingestor)
    → AreStillLeaked p p'
    → AreStillLeaked w w'
    → AreStillLeaked (in_call_order p w) (in_call_order p' w')
in_call_order-AreStillLeaked [] [] w w' h k = k
in_call_order-AreStillLeaked [] (g' ∷ p') w w' h k = absurd h
in_call_order-AreStillLeaked (g ∷ p) [] w w' h k = absurd h
in_call_order-AreStillLeaked (g ∷ p) (g' ∷ p') w w' (h, hs) k =
    in_call_order-AreStillLeaked p p' (g ∷ w) (g' ∷ w') hs (h, k)

Step-AreStillLeaked : {s t : Reading} → Step s t → AreStillLeaked (ingests_of s) (ingests_of t)
Step-AreStillLeaked (behind {p = p} {p' = p'} {w = w} m) =
    in_call_order-AreStillLeaked p p' w w (OneMoves-AreStillLeaked m) (AreStillLeaked-refl w)
Step-AreStillLeaked (ahead {p = p} {w = w} {w' = w'} m) =
    in_call_order-AreStillLeaked p p w w' (AreStillLeaked-refl p) (OneMoves-AreStillLeaked m)
Step-AreStillLeaked (receives {p = p} {w = w} {c = c} {a = a} {r = r} {i = i}) =
    in_call_order-AreStillLeaked p p
      (record { call = c; answer = a; inner = i; outer = sending r } ∷ w)
      (record { call = c; answer = a; inner = i; outer = sent } ∷ w) (AreStillLeaked-refl p)
      ((λ h. h), AreStillLeaked-refl w)
Step-AreStillLeaked {s} goes_on = AreStillLeaked-refl (ingests_of s)

-- However the goroutines and the reader go on, each ingest whose goroutine is not through although
-- its timeout was taken is still not through.
pub Reach-AreStillLeaked :
    {s t : Reading} {n : ℕ} → Reach s n t → AreStillLeaked (ingests_of s) (ingests_of t)
Reach-AreStillLeaked {s} start = AreStillLeaked-refl (ingests_of s)
Reach-AreStillLeaked (later r m) =
    AreStillLeaked-trans _ _ _ (Reach-AreStillLeaked r) (Step-AreStillLeaked m)
