-- ===== src/Host/Adds.antt =====
-- What an action adds to the trace, with one rule for each way to build an action.
use mathlib.Core.List.{append_assoc}
use pzsvc_exec.Prelude.{
  Bool, true, false, Option, none, some, List, [], ◌∷◌, ◌++◌, ◌≡◌, refl, arith, if◌then◌else◌, All,
  All-append, count, count-append,
}
use pzsvc_exec.Host.World.{GoError, Try, ok, err}
use pzsvc_exec.Host.Events.{Event, Trace}
use pzsvc_exec.Host.Run.{
  Go, Outcome, ret, panic, pure, crash, look, emit, continue, ◌>>=◌, on_nil, on_error,
}

-- From every trace the action keeps that trace and adds events that satisfy `Q` to it.
pub record Adds {ℓ} {A : Type ℓ} (Q : Event → Type 0) (m : Go A) : Type 0 where
  pub at : (t : Trace) → (new : List Event) × ((m t).1 ≡ new ++ t) × All Q new

module _ {Q : Event → Type 0} where
  pub Adds-emit : (e : Event) → Q e → Adds Q (emit e)
  Adds-emit e q = record { at = λ t. (e ∷ [], refl, (q, tt)) }

module _ {ℓ} {A : Type ℓ} {Q : Event → Type 0} where
  pub Adds-pure : (a : A) → Adds Q (pure a)
  Adds-pure a = record { at = λ t. ([], refl, tt) }

  pub Adds-crash : Adds Q (crash {A = A})
  Adds-crash = record { at = λ t. ([], refl, tt) }

  pub Adds-look : (f : Trace → A) → Adds Q (look f)
  Adds-look f = record { at = λ t. ([], refl, tt) }

  pub Adds-if : (b : Bool) (m n : Go A) → Adds Q m → Adds Q n → Adds Q (if b then m else n)
  Adds-if true m n hm hn = hm
  Adds-if false m n hm hn = hn

module _ {ℓ κ} {A : Type ℓ} {B : Type κ} {Q : Event → Type 0} where
  pub Adds-on_nil :
      (o : Option B) (m : Go A) (f : B → Go A)
      → Adds Q m
      → ((b : B) → Adds Q (f b))
      → Adds Q (on_nil o m f)
  Adds-on_nil none m f hm hf = hm
  Adds-on_nil (some b) m f hm hf = hf b

  -- The same, where each way may use what the pointer was.
  pub Adds-on_nil_eq :
      (o : Option B) (m : Go A) (f : B → Go A)
      → (o ≡ none → Adds Q m)
      → ((b : B) → o ≡ some b → Adds Q (f b))
      → Adds Q (on_nil o m f)
  Adds-on_nil_eq none m f hm hf = hm refl
  Adds-on_nil_eq (some b) m f hm hf = hf b refl

  pub Adds-on_error :
      (r : Try B) (f : GoError → Go A) (g : B → Go A)
      → ((e : GoError) → Adds Q (f e))
      → ((b : B) → Adds Q (g b))
      → Adds Q (on_error r f g)
  Adds-on_error (ok b) f g hf hg = hg b
  Adds-on_error (err e) f g hf hg = hf e

  -- What the continuation adds to the trace that the first action left.
  pub Adds-continue :
      (f : A → Go B) (o : Outcome A) (t' t : Trace) (new : List Event)
      → ((a : A) → Adds Q (f a))
      → t' ≡ new ++ t
      → All Q new
      → (more : List Event) × ((continue f (o, t')).1 ≡ more ++ t) × All Q more
  Adds-continue f (ret a) t' t new hf e q =
      let (more, e', q') = (hf a).at t' in
      (more ++ new, cc (e', e, append_assoc more new t), All-append Q more new q' q)
  Adds-continue f panic t' t new hf e q = (new, e, q)

  pub Adds-bind : (m : Go A) (f : A → Go B) → Adds Q m → ((a : A) → Adds Q (f a)) → Adds Q (m >>= f)
  Adds-bind m f hm hf = record {
    at = λ t. let (new, e, q) = hm.at t in Adds-continue f (m t).0 (m t).1 t new hf e q;
  }

count_none : (p : Event → Bool) (new : List Event) → All (λ e. p e ≡ false) new → count p new ≡ 0
count_none p [] q = refl
count_none p (x ∷ xs) q = rw (q.0) (count_none p xs q.1)

pub ruleset adds_rules =
    (Adds-pure, Adds-crash, Adds-look, Adds-emit, Adds-if, Adds-on_nil, Adds-on_error, Adds-bind)

-- What an action does not add it leaves as often as it stood.
pub count-Adds {ℓ} :
    {A : Type ℓ} (p : Event → Bool) (m : Go A)
    → Adds (λ e. p e ≡ false) m
    → (t : Trace) → count p (m t).1 ≡ count p t
count-Adds p m h t =
    let (new, e, q) = h.at t in rw (e, count-append) (omega (arith, count_none p new q))
