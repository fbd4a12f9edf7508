-- ===== src/Host/Returns.antt =====
-- What holds of the value that an action returns, if it returns.
use pzsvc_exec.Prelude.{
  Bool, true, false, Option, none, some, ◌≡◌, ◌∙◌, sym, subst, refl, if◌then◌else◌, arith,
}
use pzsvc_exec.Host.World.{GoError, Try, ok, err}
use pzsvc_exec.Host.Events.{Trace}
use pzsvc_exec.Host.Run.{
  Go, Outcome, ret, panic, pure, crash, look, continue, ◌>>=◌, on_nil, on_error,
}

pub record Returns {ℓ} {A : Type ℓ} (P : A → Type 0) (m : Go A) : Type ℓ where
  pub at : (t : Trace) (a : A) → (m t).0 ≡ ret a → P a

ret_injective {ℓ} : {A : Type ℓ} {a b : A} → ret a ≡ ret b → a ≡ b
ret_injective e = ground (arith, e)

module _ {ℓ} {A : Type ℓ} {P : A → Type 0} where
  pub Returns-pure : (a : A) → P a → Returns P (pure a)
  Returns-pure a h = record { at = λ t b e. ground (arith, h) }

  pub Returns-crash : Returns P crash
  Returns-crash = record { at = λ t b e. ground arith }

  pub Returns-if :
      (b : Bool) (m k : Go A) → Returns P m → Returns P k → Returns P (if b then m else k)
  Returns-if true m k hm hk = hm
  Returns-if false m k hm hk = hk

  -- The same, where each way may use the test's value.
  pub Returns-if_eq :
      (b : Bool) (m k : Go A)
      → (b ≡ true → Returns P m)
      → (b ≡ false → Returns P k)
      → Returns P (if b then m else k)
  Returns-if_eq true m k hm hk = hm refl
  Returns-if_eq false m k hm hk = hk refl

  pub Returns-map : {Q : A → Type 0} (m : Go A) → ((a : A) → P a → Q a) → Returns P m → Returns Q m
  Returns-map m f h = record { at = λ t a e. f a (h.at t a e) }

  -- What it returns is known at each trace.
  pub Returns-known : (m : Go A) → ((t : Trace) → (a : A) × ((m t).0 ≡ ret a) × P a) → Returns P m
  Returns-known m h = record {
    at = λ t b e.
        let (a, k, p) = h t in let same : a ≡ b = ret_injective (sym k ∙ e) in subst P same p;
  }

module _ {ℓ κ} {A : Type ℓ} {B : Type κ} {P : A → Type 0} where
  pub Returns-on_nil :
      (o : Option B) (m : Go A) (f : B → Go A)
      → Returns P m
      → ((b : B) → Returns P (f b))
      → Returns P (on_nil o m f)
  Returns-on_nil none m f hm hf = hm
  Returns-on_nil (some b) m f hm hf = hf b

  -- The same, where the rest may use that the pointer was not nil.
  pub Returns-on_nil_eq :
      (o : Option B) (m : Go A) (f : B → Go A)
      → Returns P m
      → ((b : B) → o ≡ some b → Returns P (f b))
      → Returns P (on_nil o m f)
  Returns-on_nil_eq none m f hm hf = hm
  Returns-on_nil_eq (some b) m f hm hf = hf b refl

  -- The same, where both may use what the pointer was.
  pub Returns-on_nil_both :
      (o : Option B) (m : Go A) (f : B → Go A)
      → (o ≡ none → Returns P m)
      → ((b : B) → o ≡ some b → Returns P (f b))
      → Returns P (on_nil o m f)
  Returns-on_nil_both none m f hm hf = hm refl
  Returns-on_nil_both (some b) m f hm hf = hf b refl

  -- Where the answer to a call is known.
  pub Returns-on_error_eq :
      (r : Try B) (f : GoError → Go A) (g : B → Go A)
      → ((e : GoError) → r ≡ err e → Returns P (f e))
      → ((b : B) → r ≡ ok b → Returns P (g b))
      → Returns P (on_error r f g)
  Returns-on_error_eq (ok b) f g hf hg = hg b refl
  Returns-on_error_eq (err e) f g hf hg = hf e refl

  pub Returns-on_error :
      (r : Try B) (f : GoError → Go A) (g : B → Go A)
      → ((e : GoError) → Returns P (f e))
      → ((b : B) → Returns P (g b))
      → Returns P (on_error r f g)
  Returns-on_error (ok b) f g hf hg = hg b
  Returns-on_error (err e) f g hf hg = hf e

module _ {ℓ κ} {A : Type ℓ} {B : Type κ} {R : B → Type 0} where
  Returns-continue :
      (f : A → Go B) (o : Outcome A) (t : Trace) (b : B)
      → ((a : A) → o ≡ ret a → Returns R (f a))
      → (continue f (o, t)).0 ≡ ret b
      → R b
  Returns-continue f (ret a) t b hf e = (hf a refl).at t b e
  Returns-continue f panic t b hf e = absurd (cc)

  -- What the first action returns is not used.
  pub Returns-then : (m : Go A) (f : A → Go B) → ((a : A) → Returns R (f a)) → Returns R (m >>= f)
  Returns-then m f hf = record {
    at = λ t b e. Returns-continue f (m t).0 (m t).1 b (λ a _. hf a) e;
  }

  pub Returns-bind :
      (P : A → Type 0) (m : Go A) (f : A → Go B)
      → Returns P m
      → ((a : A) → P a → Returns R (f a))
      → Returns R (m >>= f)
  Returns-bind P m f hm hf = record {
    at = λ t b e. Returns-continue f (m t).0 (m t).1 b (λ a o. hf a (hm.at t a o)) e;
  }

  -- The answer of the host is the one at some trace.
  pub Returns-ask :
      (f : Trace → A) (g : A → Go B)
      → ((t : Trace) → Returns R (g (f t)))
      → Returns R (look f >>= g)
  Returns-ask f g hg = record { at = λ t b e. (hg t).at t b e }

pub ruleset returns_rules =
    (Returns-pure, Returns-crash, Returns-if, Returns-on_nil, Returns-on_error, Returns-then)
