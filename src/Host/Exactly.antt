-- ===== src/Host/Exactly.antt =====
-- Actions that never panic and add a fixed number of events of a kind.
use pzsvc_exec.Prelude.{
  ℕ, ◌+◌, Bool, true, false, Option, none, some, ◌≡◌, subst, refl, arith, count, if◌then◌else◌,
}
use pzsvc_exec.Host.World.{GoError, Try, ok, err}
use pzsvc_exec.Host.Events.{Event, Trace}
use pzsvc_exec.Host.Run.{
  Go, Outcome, ret, panic, pure, look, emit, continue, ◌>>=◌, on_nil, on_error,
}
use pzsvc_exec.Host.Returns.{Returns}

pub record Exactly {ℓ} {A : Type ℓ} (p : Event → Bool) (n : ℕ) (m : Go A) : Type ℓ where
  pub at : (t : Trace) → (a : A) × ((m t).0 ≡ ret a) × (count p (m t).1 ≡ count p t + n)

module _ {ℓ} {A : Type ℓ} {p : Event → Bool} where
  pub Exactly-pure : (a : A) → Exactly p 0 (pure a)
  Exactly-pure a = record { at = λ t. (a, refl, omega arith) }

  pub Exactly-look : (f : Trace → A) → Exactly p 0 (look f)
  Exactly-look f = record { at = λ t. (f t, refl, omega arith) }

  pub Exactly-cast : (n : ℕ) {k : ℕ} {m : Go A} → n ≡ k → Exactly p n m → Exactly p k m
  Exactly-cast n {k} {m} e h = subst (λ j. Exactly p j m) e h

  pub Exactly-if :
      {n : ℕ} (b : Bool) (m k : Go A)
      → Exactly p n m
      → Exactly p n k
      → Exactly p n (if b then m else k)
  Exactly-if true m k hm hk = hm
  Exactly-if false m k hm hk = hk

pub Exactly-emit : {p : Event → Bool} (e : Event) → p e ≡ true → Exactly p 1 (emit e)
Exactly-emit e h = record { at = λ t. (tt, refl, rw h (omega arith)) }

pub Exactly-other : {p : Event → Bool} (e : Event) → p e ≡ false → Exactly p 0 (emit e)
Exactly-other e h = record { at = λ t. (tt, refl, rw h (omega arith)) }

module _ {ℓ κ} {A : Type ℓ} {B : Type κ} {p : Event → Bool} where
  pub Exactly-on_nil :
      {n : ℕ} (o : Option B) (m : Go A) (f : B → Go A)
      → Exactly p n m
      → ((b : B) → Exactly p n (f b))
      → Exactly p n (on_nil o m f)
  Exactly-on_nil none m f hm hf = hm
  Exactly-on_nil (some b) m f hm hf = hf b

  pub Exactly-on_error :
      {n : ℕ} (r : Try B) (f : GoError → Go A) (g : B → Go A)
      → ((e : GoError) → Exactly p n (f e))
      → ((b : B) → Exactly p n (g b))
      → Exactly p n (on_error r f g)
  Exactly-on_error (ok b) f g hf hg = hg b
  Exactly-on_error (err e) f g hf hg = hf e

  Exactly-continue :
      (n k : ℕ) (f : A → Go B) (o : Outcome A) (t' t : Trace) (a : A)
      → o ≡ ret a
      → count p t' ≡ count p t + n
      → ((a' : A) → Exactly p k (f a'))
      → (b : B) × ((continue f (o, t')).0 ≡ ret b)
        × (count p (continue f (o, t')).1 ≡ count p t + (n + k))
  Exactly-continue n k f (ret a') t' t a e c h =
      let (b, e', c') = (h a').at t' in (b, e', omega (arith, c, c'))
  Exactly-continue n k f panic t' t a e c h = absurd (cc)

  pub Exactly-bind :
      (n k : ℕ) (m : Go A) (f : A → Go B)
      → Exactly p n m
      → ((a : A) → Exactly p k (f a))
      → Exactly p (n + k) (m >>= f)
  Exactly-bind n k m f hm hf = record {
    at = λ t. let (a, e, c) = hm.at t in Exactly-continue n k f (m t).0 (m t).1 t a e c hf;
  }

  Exactly-continue_of :
      (n k : ℕ) (f : A → Go B) (o : Outcome A) (t' t : Trace) (a : A)
      → o ≡ ret a
      → count p t' ≡ count p t + n
      → ((a' : A) → o ≡ ret a' → Exactly p k (f a'))
      → (b : B) × ((continue f (o, t')).0 ≡ ret b)
        × (count p (continue f (o, t')).1 ≡ count p t + (n + k))
  Exactly-continue_of n k f (ret a') t' t a e c h =
      Exactly-continue n k (λ _. f a') (ret a') t' t a e c (λ _. h a' refl)
  Exactly-continue_of n k f panic t' t a e c h = absurd (cc)

  -- What the first action returns bounds what follows it.
  pub Exactly-bind_of :
      (P : A → Type 0) (n k : ℕ) (m : Go A) (f : A → Go B)
      → Exactly p n m
      → Returns P m
      → ((a : A) → P a → Exactly p k (f a))
      → Exactly p (n + k) (m >>= f)
  Exactly-bind_of P n k m f hm r hf = record {
    at = λ t.
        let (a, e, c) = hm.at t in
        Exactly-continue_of n k f (m t).0 (m t).1 t a e c (λ a' o. hf a' (r.at t a' o));
  }

  pub Exactly-after_of :
      {k : ℕ} (P : A → Type 0) (m : Go A) (f : A → Go B)
      → Exactly p 0 m
      → Returns P m
      → ((a : A) → P a → Exactly p k (f a))
      → Exactly p k (m >>= f)
  Exactly-after_of {k} P m f hm r hf =
      Exactly-cast (0 + k) (omega arith) (Exactly-bind_of P 0 k m f hm r hf)

  -- Nothing of the kind before, or nothing after.
  pub Exactly-after :
      {k : ℕ} (m : Go A) (f : A → Go B)
      → Exactly p 0 m
      → ((a : A) → Exactly p k (f a))
      → Exactly p k (m >>= f)
  Exactly-after {k} m f hm hf = Exactly-cast (0 + k) (omega arith) (Exactly-bind 0 k m f hm hf)

  pub Exactly-before :
      {n : ℕ} (m : Go A) (f : A → Go B)
      → Exactly p n m
      → ((a : A) → Exactly p 0 (f a))
      → Exactly p n (m >>= f)
  Exactly-before {n} m f hm hf = Exactly-cast (n + 0) (omega arith) (Exactly-bind n 0 m f hm hf)

pub ruleset exactly_rules = (
  Exactly-pure, Exactly-look, Exactly-emit, Exactly-other, Exactly-if, Exactly-on_nil,
  Exactly-on_error, Exactly-after, Exactly-before,
)
