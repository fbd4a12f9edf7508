-- ===== src/Host/Panics.antt =====
-- Actions that end in a panic from every trace.
use pzsvc_exec.Prelude.{Bool, true, false, ◌≡◌, refl, if◌then◌else◌}
use pzsvc_exec.Host.Events.{Trace}
use pzsvc_exec.Host.Run.{Go, Outcome, ret, panic, crash, continue, ◌>>=◌}
use pzsvc_exec.Host.Returns.{Returns}

pub record Panics {ℓ} {A : Type ℓ} (m : Go A) : Type ℓ where
  pub at : (t : Trace) → (m t).0 ≡ panic

pub Panics-crash {ℓ} : {A : Type ℓ} → Panics (crash {A = A})
Panics-crash = record { at = λ t. refl }

pub Panics-if {ℓ} :
    {A : Type ℓ} (b : Bool) (m k : Go A) → Panics m → Panics k → Panics (if b then m else k)
Panics-if true m k hm hk = hm
Panics-if false m k hm hk = hk

module _ {ℓ κ} {A : Type ℓ} {B : Type κ} where
  Panics-continue :
      (f : A → Go B) (o : Outcome A) (t : Trace)
      → ((a : A) → o ≡ ret a → Panics (f a))
      → (continue f (o, t)).0 ≡ panic
  Panics-continue f (ret a) t h = (h a refl).at t
  Panics-continue f panic t h = refl

  pub Panics-bind :
      (P : A → Type 0) (m : Go A) (f : A → Go B)
      → Returns P m
      → ((a : A) → P a → Panics (f a))
      → Panics (m >>= f)
  Panics-bind P m f r h = record {
    at = λ t. Panics-continue f (m t).0 (m t).1 (λ a o. h a (r.at t a o));
  }

  pub Panics-then : (m : Go A) (f : A → Go B) → ((a : A) → Panics (f a)) → Panics (m >>= f)
  Panics-then m f h = record { at = λ t. Panics-continue f (m t).0 (m t).1 (λ a _. h a) }

  Panics-stop :
      (f : A → Go B) (o : Outcome A) (t : Trace) → o ≡ panic → (continue f (o, t)).0 ≡ panic
  Panics-stop f o t h = rw h refl

  pub Panics-first : (m : Go A) (f : A → Go B) → Panics m → Panics (m >>= f)
  Panics-first m f h = record { at = λ t. Panics-stop f (m t).0 (m t).1 (h.at t) }
