-- ===== src/Worker/Ingest/Threads/Order.antt =====
-- worker/ingest: the output that the reader of the channels ends with, in any order of the ingests.
use pzsvc_exec.Prelude.{
  String, ℕ, suc, none, List, [], ◌∷◌, map, ◌≡◌, refl, subst, ◌⊎◌, ◌↔◌, inl, inr, All,
}
use pzsvc_exec.Host.{Try, GoError}
use pzsvc_exec.Worker.Ingest.{MultiIngestOutput, AsyncIngestorCall, add_result, settled, timed_out}
use pzsvc_exec.Worker.Ingest.Threads.{
  Ingestor, Inner, Outer, calling, offering, finished, selecting, sending, sent, closed, Move,
  answers, passes_on, times_out, closes, OneMoves, here, there, Reading, Step, behind, ahead,
  receives, goes_on, Reach, start, later, launched, call_async_ingestor,
}

-- The output that reading the calls in their order gives, one after the other.
abbrev pub InOrder :
    List (AsyncIngestorCall × Try String) → MultiIngestOutput → MultiIngestOutput → Type 0
InOrder [] out final = out ≡ final
InOrder ((c, a) ∷ calls) out final =
    InOrder calls (add_result out (settled c a)) final
    ⊎ InOrder calls (add_result out (settled c timed_out)) final

-- The output after one channel is read to its end, in what is said of it.
abbrev AfterOne :
    (MultiIngestOutput → Type 0)
    → AsyncIngestorCall
    → Try String
    → Outer
    → MultiIngestOutput
    → Type 0
AfterOne P c a selecting out =
    P (add_result out (settled c a)) ⊎ P (add_result out (settled c timed_out))
AfterOne P c a (sending r) out = P (add_result out (settled c r))
AfterOne P c a sent out = P out
AfterOne P c a closed out = P out

-- The outputs that a reader of these channels can still come to.
abbrev Possible : List Ingestor → MultiIngestOutput → MultiIngestOutput → Type 0
Possible [] out final = out ≡ final
Possible (g ∷ w) out final = AfterOne (λ o. Possible w o final) g.call g.answer g.outer out

-- What the inner goroutine offers is the call's answer.
abbrev Offers : Try String → Inner → Type 0
Offers a calling = Unit
Offers a (offering r) = r ≡ a
Offers a finished = Unit

abbrev IsTrue : Ingestor → Type 0
IsTrue g = Offers g.answer g.inner

-- The goroutine's move leaves open no output that was not open before.
Move-AfterOne :
    {g g' : Ingestor} (P : MultiIngestOutput → Type 0) (out : MultiIngestOutput)
    → Move g g'
    → IsTrue g
    → AfterOne P g'.call g'.answer g'.outer out
    → AfterOne P g.call g.answer g.outer out
Move-AfterOne P out answers h k = k
Move-AfterOne P out (passes_on {c = c}) h k =
    inl (subst (λ r. P (add_result out (settled c r))) h k)
Move-AfterOne P out times_out h k = inr k
Move-AfterOne P out closes h k = k

Move-IsTrue : {g g' : Ingestor} → Move g g' → IsTrue g → IsTrue g'
Move-IsTrue answers h = refl
Move-IsTrue passes_on h = tt
Move-IsTrue times_out h = h
Move-IsTrue closes h = h

AfterOne-map :
    {P Q : MultiIngestOutput → Type 0} (c : AsyncIngestorCall) (a : Try String) (o : Outer)
    (out : MultiIngestOutput)
    → ((out' : MultiIngestOutput) → P out' → Q out')
    → AfterOne P c a o out
    → AfterOne Q c a o out
AfterOne-map c a selecting out f (inl h) = inl (f _ h)
AfterOne-map c a selecting out f (inr h) = inr (f _ h)
AfterOne-map c a (sending r) out f h = f _ h
AfterOne-map c a sent out f h = f _ h
AfterOne-map c a closed out f h = f _ h

OneMoves-Possible :
    {w w' : List Ingestor} (final out : MultiIngestOutput)
    → OneMoves w w'
    → All IsTrue w
    → Possible w' out final
    → Possible w out final
OneMoves-Possible final out (here {gs = gs} m) (h, hs) k =
    Move-AfterOne (λ o. Possible gs o final) out m h k
OneMoves-Possible final out (there {g = g} m) (h, hs) k =
    AfterOne-map g.call g.answer g.outer out (λ o. OneMoves-Possible final o m hs) k

OneMoves-IsTrue : {w w' : List Ingestor} → OneMoves w w' → All IsTrue w → All IsTrue w'
OneMoves-IsTrue (here m) (h, hs) = (Move-IsTrue m h, hs)
OneMoves-IsTrue (there m) (h, hs) = (h, OneMoves-IsTrue m hs)

Step-IsTrue : {s t : Reading} → Step s t → All IsTrue s.waiting → All IsTrue t.waiting
Step-IsTrue (behind m) h = h
Step-IsTrue (ahead m) h = OneMoves-IsTrue m h
Step-IsTrue receives (h, hs) = (h, hs)
Step-IsTrue goes_on (h, hs) = hs

Step-Possible :
    {s t : Reading} (final : MultiIngestOutput)
    → Step s t
    → All IsTrue s.waiting
    → Possible t.waiting t.output final
    → Possible s.waiting s.output final
Step-Possible final (behind m) h k = k
Step-Possible final (ahead {out = out} m) h k = OneMoves-Possible final out m h k
Step-Possible final receives h k = k
Step-Possible final goes_on h k = k

Reach-IsTrue : {s t : Reading} {n : ℕ} → Reach s n t → All IsTrue s.waiting → All IsTrue t.waiting
Reach-IsTrue start h = h
Reach-IsTrue (later r m) h = Step-IsTrue m (Reach-IsTrue r h)

Reach-Possible :
    {s t : Reading} {n : ℕ} (final : MultiIngestOutput)
    → Reach s n t
    → All IsTrue s.waiting
    → Possible t.waiting t.output final
    → Possible s.waiting s.output final
Reach-Possible final start h k = k
Reach-Possible final (later r m) h k =
    Reach-Possible final r h (Step-Possible final m (Reach-IsTrue r h) k)

launched-IsTrue : (calls : List (AsyncIngestorCall × Try String)) → All IsTrue (map launched calls)
launched-IsTrue [] = tt
launched-IsTrue (c ∷ calls) = (tt, launched-IsTrue calls)

launched-InOrder :
    (calls : List (AsyncIngestorCall × Try String)) (out final : MultiIngestOutput)
    → Possible (map launched calls) out final
    → InOrder calls out final
launched-InOrder [] out final h = h
launched-InOrder (c ∷ calls) out final (inl h) = inl (launched-InOrder calls _ final h)
launched-InOrder (c ∷ calls) out final (inr h) = inr (launched-InOrder calls _ final h)

-- A run that reads all channels and ends with this output.
abbrev pub Ends : Reading → MultiIngestOutput → Type 0
Ends s final =
    (n : ℕ) × (p : List Ingestor) × Reach s n (record { passed = p; waiting = []; output = final })

first : {s t u : Reading} {n : ℕ} → Step s t → Reach t n u → Reach s (suc n) u
first m start = later start m
first m (later r k) = later (first m r) k

Step-Ends : {s t : Reading} {final : MultiIngestOutput} → Step s t → Ends t final → Ends s final
Step-Ends m (n, p, r) = (suc n, p, first m r)

read_one :
    {p w : List Ingestor} {c : AsyncIngestorCall} {a r : Try String} {i : Inner}
    {out final : MultiIngestOutput}
    → Ends
        (record {
          passed = record { call = c; answer = a; inner = i; outer = closed } ∷ p;
          waiting = w;
          output = add_result out (settled c r);
        })
        final
    → Ends
        (record {
          passed = p;
          waiting = record { call = c; answer = a; inner = i; outer = sending r } ∷ w;
          output = out;
        })
        final
read_one h = Step-Ends receives (Step-Ends (ahead (here closes)) (Step-Ends goes_on h))

InOrder-Ends :
    (calls : List (AsyncIngestorCall × Try String)) (p : List Ingestor)
    (out final : MultiIngestOutput)
    → InOrder calls out final
    → Ends (record { passed = p; waiting = map launched calls; output = out }) final
InOrder-Ends [] p out final h = (
  0,
  p,
  subst
      (λ o.
        Reach (record { passed = p; waiting = []; output = out }) 0
          (record { passed = p; waiting = []; output = o }))
      h start,
)
InOrder-Ends (c ∷ calls) p out final (inl h) =
    Step-Ends (ahead (here answers))
      (Step-Ends (ahead (here passes_on)) (read_one (InOrder-Ends calls _ _ final h)))
InOrder-Ends (c ∷ calls) p out final (inr h) =
    Step-Ends (ahead (here times_out)) (read_one (InOrder-Ends calls _ _ final h))

-- The outputs with which the interleavings of the goroutines and the reader can end are those of
-- reading the calls one after the other, each with its answer or with the timeout's error.
pub call_async_ingestor-Ends_iff :
    (calls : List (AsyncIngestorCall × Try String)) (errors : List GoError)
    (final : MultiIngestOutput)
    → Ends (call_async_ingestor calls errors) final
      ↔ InOrder calls (record { data_ids = []; errors = errors; combined_error = none }) final
call_async_ingestor-Ends_iff calls errors final = (
  (λ (n, p, r).
      launched-InOrder calls _ final (Reach-Possible final r (launched-IsTrue calls) refl)),
  InOrder-Ends calls [] _ final,
)
