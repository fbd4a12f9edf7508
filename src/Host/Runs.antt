-- ===== src/Host/Runs.antt =====
-- Actions that never panic and whose value does not depend on the trace; and the rules that use
-- what a first action returns.
use pzsvc_exec.Prelude.{Bool, true, false, List, ◌++◌, ◌≡◌, refl, if◌then◌else◌, All}
use pzsvc_exec.Host.Events.{Event, Trace}
use pzsvc_exec.Host.Run.{Go, Outcome, ret, panic, pure, emit, continue, ◌>>=◌}
use pzsvc_exec.Host.Adds.{Adds, Adds-continue}
use pzsvc_exec.Host.Returns.{Returns}

pub record Runs {ℓ} {A : Type ℓ} (a : A) (m : Go A) : Type ℓ where
  pub at : (t : Trace) → (m t).0 ≡ ret a

pub Runs-pure {ℓ} : {A : Type ℓ} (a : A) → Runs a (pure a)
Runs-pure a = record { at = λ t. refl }

pub Runs-emit : (e : Event) → Runs tt (emit e)
Runs-emit e = record { at = λ t. refl }

pub Runs-if {ℓ} :
    {A : Type ℓ} {a : A} (b : Bool) (m k : Go A) → Runs a m → Runs a k → Runs a (if b then m else k)
Runs-if true m k hm hk = hm
Runs-if false m k hm hk = hk

module _ {ℓ κ} {A : Type ℓ} {B : Type κ} where
  Runs-continue :
      {b : B} (f : A → Go B) (a : A) (o : Outcome A) (t : Trace)
      → o ≡ ret a
      → Runs b (f a)
      → (continue f (o, t)).0 ≡ ret b
  Runs-continue f a o t e h = rw e (h.at t)

  pub Runs-bind :
      {b : B} (a : A) (m : Go A) (f : A → Go B) → Runs a m → Runs b (f a) → Runs b (m >>= f)
  Runs-bind a m f hm hf = record { at = λ t. Runs-continue f a (m t).0 (m t).1 (hm.at t) hf }

  Adds-continue_of :
      {Q : Event → Type 0} (f : A → Go B) (o : Outcome A) (t' t : Trace) (new : List Event)
      → ((a : A) → o ≡ ret a → Adds Q (f a))
      → t' ≡ new ++ t
      → All Q new
      → (more : List Event) × ((continue f (o, t')).1 ≡ more ++ t) × All Q more
  Adds-continue_of f (ret a) t' t new hf e q =
      Adds-continue (λ _. f a) (ret a) t' t new (λ _. hf a refl) e q
  Adds-continue_of f panic t' t new hf e q = (new, e, q)

  -- What the first action returns bounds what follows it.
  pub Adds-bind_of :
      {Q : Event → Type 0} (P : A → Type 0) (m : Go A) (f : A → Go B)
      → Adds Q m
      → Returns P m
      → ((a : A) → P a → Adds Q (f a))
      → Adds Q (m >>= f)
  Adds-bind_of P m f hm r hf = record {
    at = λ t.
        let (new, e, q) = hm.at t in
        Adds-continue_of f (m t).0 (m t).1 t new (λ a o. hf a (r.at t a o)) e q;
  }

  -- The outcome of a first action that is known.
  pub outcome_bind :
      (m : Go A) (f : A → Go B) (t t' : Trace) (a : A) → m t ≡ (ret a, t') → (m >>= f) t ≡ f a t'
  outcome_bind m f t t' a e = rw e refl

module _ {ℓ} {B : Type ℓ} {b : B} where
  pub Runs-then :
      (m : Go (Unit {0})) (f : Unit {0} → Go B) → Runs tt m → Runs b (f tt) → Runs b (m >>= f)
  Runs-then m f hm hf = Runs-bind tt m f hm hf

pub ruleset runs_rules = (Runs-pure, Runs-emit, Runs-if, Runs-then)
