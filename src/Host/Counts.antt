-- ===== src/Host/Counts.antt =====
-- How many events of a kind an action adds at most.
use pzsvc_exec.Prelude.{
  ℕ, ◌+◌, ◌≤◌, Bool, true, false, Option, none, some, ◌≡◌, refl, arith, if◌then◌else◌, count,
}
use pzsvc_exec.Host.World.{GoError, Try, ok, err}
use pzsvc_exec.Host.Events.{Event, Trace}
use pzsvc_exec.Host.Run.{
  Go, Outcome, ret, panic, pure, crash, emit, continue, ◌>>=◌, on_nil, on_error,
}
use pzsvc_exec.Host.Returns.{Returns}
use pzsvc_exec.Host.Adds.{Adds, count-Adds}

pub record AtMost {ℓ} {A : Type ℓ} (p : Event → Bool) (n : ℕ) (m : Go A) : Type 0 where
  pub at : (t : Trace) → count p (m t).1 ≤ count p t + n

module _ {ℓ} {A : Type ℓ} {p : Event → Bool} {n : ℕ} where
  pub AtMost-Adds : (m : Go A) → Adds (λ e. p e ≡ false) m → AtMost p n m
  AtMost-Adds m h = record { at = λ t. omega (arith, count-Adds p m h t) }

  pub AtMost-pure : (a : A) → AtMost p n (pure a)
  AtMost-pure a = record { at = λ t. omega arith }

  pub AtMost-crash : AtMost p n (crash {A = A})
  AtMost-crash = record { at = λ t. omega arith }

  pub AtMost-if :
      (b : Bool) (m k : Go A) → AtMost p n m → AtMost p n k → AtMost p n (if b then m else k)
  AtMost-if true m k hm hk = hm
  AtMost-if false m k hm hk = hk

  pub AtMost-weaken : (j : ℕ) (m : Go A) → j ≤ n → AtMost p j m → AtMost p n m
  AtMost-weaken j m le h = record { at = λ t. omega (arith, h.at t) }

pub AtMost-emit : (p : Event → Bool) (e : Event) → AtMost p 1 (emit e)
AtMost-emit p e = record { at = λ t. ground arith }

module _ {ℓ κ} {A : Type ℓ} {B : Type κ} {p : Event → Bool} where
  pub AtMost-on_nil :
      {n : ℕ} (o : Option B) (m : Go A) (f : B → Go A)
      → AtMost p n m
      → ((b : B) → AtMost p n (f b))
      → AtMost p n (on_nil o m f)
  AtMost-on_nil none m f hm hf = hm
  AtMost-on_nil (some b) m f hm hf = hf b

  pub AtMost-on_error :
      {n : ℕ} (r : Try B) (f : GoError → Go A) (g : B → Go A)
      → ((e : GoError) → AtMost p n (f e))
      → ((b : B) → AtMost p n (g b))
      → AtMost p n (on_error r f g)
  AtMost-on_error (ok b) f g hf hg = hg b
  AtMost-on_error (err e) f g hf hg = hf e

  AtMost-continue :
      {k : ℕ} (f : A → Go B) (o : Outcome A) (t : Trace)
      → ((a : A) → AtMost p k (f a))
      → count p (continue f (o, t)).1 ≤ count p t + k
  AtMost-continue f (ret a) t hf = (hf a).at t
  AtMost-continue f panic t hf = omega arith

  pub AtMost-bind :
      (n k : ℕ) (m : Go A) (f : A → Go B)
      → AtMost p n m
      → ((a : A) → AtMost p k (f a))
      → AtMost p (n + k) (m >>= f)
  AtMost-bind n k m f hm hf = record {
    at = λ t. omega (arith, hm.at t, AtMost-continue {k = k} f (m t).0 (m t).1 hf);
  }

  AtMost-continue_of :
      {k : ℕ} (f : A → Go B) (o : Outcome A) (t : Trace)
      → ((a : A) → o ≡ ret a → AtMost p k (f a))
      → count p (continue f (o, t)).1 ≤ count p t + k
  AtMost-continue_of f (ret a) t hf = (hf a refl).at t
  AtMost-continue_of f panic t hf = omega arith

  -- What the first action returns bounds what follows it.
  pub AtMost-bind_of :
      (P : A → Type 0) (n k : ℕ) (m : Go A) (f : A → Go B)
      → AtMost p n m
      → Returns P m
      → ((a : A) → P a → AtMost p k (f a))
      → AtMost p (n + k) (m >>= f)
  AtMost-bind_of P n k m f hm r hf = record {
    at = λ t.
        omega
          (arith, hm.at t, AtMost-continue_of {k = k} f (m t).0 (m t).1 (λ a o. hf a (r.at t a o)));
  }

  -- A first action that adds none of the kind.
  pub AtMost-after :
      {k : ℕ} (m : Go A) (f : A → Go B)
      → Adds (λ e. p e ≡ false) m
      → ((a : A) → AtMost p k (f a))
      → AtMost p k (m >>= f)
  AtMost-after {k} m f hm hf = record {
    at = λ t. omega (arith, count-Adds p m hm t, AtMost-continue {k = k} f (m t).0 (m t).1 hf);
  }

  -- Nothing of the kind after the first action.
  pub AtMost-before :
      {n : ℕ} (m : Go A) (f : A → Go B)
      → AtMost p n m
      → ((a : A) → Adds (λ e. p e ≡ false) (f a))
      → AtMost p n (m >>= f)
  AtMost-before {n} m f hm hf = record {
    at = λ t.
        omega (
          arith,
          hm.at t,
          AtMost-continue {k = 0} f (m t).0 (m t).1 (λ a. AtMost-Adds (f a) (hf a)),
        );
  }

pub ruleset at_most_rules = (
  AtMost-pure, AtMost-crash, AtMost-emit, AtMost-if, AtMost-on_nil, AtMost-on_error, AtMost-after,
)
