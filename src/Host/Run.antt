-- ===== src/Host/Run.antt =====
-- Actions over the trace: a value or a panic, and the trace after it.
use pzsvc_exec.Prelude.{Bool, Option, none, some, ◌∷◌, if◌then◌else◌}
use pzsvc_exec.Host.World.{GoError, Try, ok, err}
use pzsvc_exec.Host.Events.{Event, Trace}

pub data Outcome {ℓ} (A : Type ℓ) : Type ℓ where
  ret : A → Outcome A
  panic : Outcome A

abbrev pub Go {ℓ} : Type ℓ → Type ℓ
Go A = Trace → Outcome A × Trace

module _ {ℓ} {A : Type ℓ} where
  abbrev pub pure : A → Go A
  pure a t = (ret a, t)

  -- A nil-pointer dereference, or another run-time panic.
  abbrev pub crash : Go A
  crash t = (panic, t)

  -- A value that the host gives, from what has happened.
  abbrev pub look : (Trace → A) → Go A
  look f t = (ret (f t), t)

abbrev pub emit : Event → Go (Unit {0})
emit e t = (ret tt, e ∷ t)

module _ {ℓ κ} {A : Type ℓ} {B : Type κ} where
  abbrev pub continue : (A → Go B) → Outcome A × Trace → Outcome B × Trace
  continue f (ret a, t) = f a t
  continue f (panic, t) = (panic, t)

  infixl 10 ◌>>=◌
  abbrev pub ◌>>=◌ : Go A → (A → Go B) → Go B
  ◌>>=◌ m f t = continue f (m t)

infixl 10 ◌>>◌
abbrev pub ◌>>◌ {ℓ} : {B : Type ℓ} → Go (Unit {0}) → Go B → Go B
m >> n = m >>= λ _. n

-- The two ways on from a pointer that may be nil, and from a call that may fail.
abbrev pub on_nil {ℓ κ} : {A : Type ℓ} {B : Type κ} → Option A → B → (A → B) → B
on_nil none b f = b
on_nil (some a) b f = f a

abbrev pub on_error {ℓ κ} : {A : Type ℓ} {B : Type κ} → Try A → (GoError → B) → (A → B) → B
on_error (ok a) f g = g a
on_error (err e) f g = f e

-- An action under `if`, with nothing after `else`.
abbrev pub when : Bool → Go (Unit {0}) → Go (Unit {0})
when b m = if b then m else pure tt
