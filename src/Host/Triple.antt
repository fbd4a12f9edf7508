-- ===== src/Host/Triple.antt =====
-- Actions between a condition on the trace before them and one on their value and the trace after.
use pzsvc_exec.Prelude.{
  Bool, true, false, Option, none, some, List, [], ◌∷◌, ◌++◌, ◌≡◌, refl, sym, subst, if◌then◌else◌,
  All, arith,
}
use pzsvc_exec.Host.World.{GoError, Try, ok, err}
use pzsvc_exec.Host.Events.{Event, Trace}
use pzsvc_exec.Host.Run.{
  Go, Outcome, ret, panic, pure, look, emit, continue, ◌>>=◌, on_nil, on_error,
}
use pzsvc_exec.Host.Adds.{Adds}
use pzsvc_exec.Host.Returns.{Returns}

-- After a panic the trace is as it must be after a panic.
abbrev pub Post {ℓ} :
    {A : Type ℓ} → (Trace → Type 0) → (A → Trace → Type 0) → Outcome A × Trace → Type 0
Post I R (ret a, t) = R a t
Post I R (panic, t) = I t

pub record Triple {ℓ} {A : Type ℓ} (I P : Trace → Type 0) (m : Go A) (R : A → Trace → Type 0)
    : Type 0 where
  pub at : (t : Trace) → P t → Post I R (m t)

module _ {ℓ} {A : Type ℓ} {I P : Trace → Type 0} {R : A → Trace → Type 0} where
  pub Triple-pure : (a : A) → ((t : Trace) → P t → R a t) → Triple I P (pure a) R
  Triple-pure a h = record { at = h }

  pub Triple-look : (f : Trace → A) → ((t : Trace) → P t → R (f t) t) → Triple I P (look f) R
  Triple-look f h = record { at = h }

  pub Triple-if :
      (b : Bool) (m k : Go A)
      → (b ≡ true → Triple I P m R)
      → (b ≡ false → Triple I P k R)
      → Triple I P (if b then m else k) R
  Triple-if true m k hm hk = hm refl
  Triple-if false m k hm hk = hk refl

  -- A stronger condition before.
  pub Triple-before :
      (P' : Trace → Type 0) (m : Go A)
      → ((t : Trace) → P t → P' t)
      → Triple I P' m R
      → Triple I P m R
  Triple-before P' m h k = record { at = λ t p. k.at t (h t p) }

module _ {ℓ κ} {A : Type ℓ} {B : Type κ} {I P : Trace → Type 0} {R : A → Trace → Type 0} where
  pub Triple-on_nil :
      (o : Option B) (m : Go A) (f : B → Go A)
      → (o ≡ none → Triple I P m R)
      → ((b : B) → o ≡ some b → Triple I P (f b) R)
      → Triple I P (on_nil o m f) R
  Triple-on_nil none m f hm hf = hm refl
  Triple-on_nil (some b) m f hm hf = hf b refl

  pub Triple-on_error :
      (r : Try B) (f : GoError → Go A) (g : B → Go A)
      → ((e : GoError) → r ≡ err e → Triple I P (f e) R)
      → ((b : B) → r ≡ ok b → Triple I P (g b) R)
      → Triple I P (on_error r f g) R
  Triple-on_error (ok b) f g hf hg = hg b refl
  Triple-on_error (err e) f g hf hg = hf e refl

module _ {ℓ κ} {A : Type ℓ} {B : Type κ} {I : Trace → Type 0} {R : B → Trace → Type 0} where
  Post-continue :
      (Q : A → Trace → Type 0) (f : A → Go B) (r : Outcome A × Trace)
      → Post I Q r
      → ((a : A) → Triple I (Q a) (f a) R)
      → Post I R (continue f r)
  Post-continue Q f (ret a, t) q h = (h a).at t q
  Post-continue Q f (panic, t) q h = q

  pub Triple-bind :
      {P : Trace → Type 0} (Q : A → Trace → Type 0) (m : Go A) (f : A → Go B)
      → Triple I P m Q
      → ((a : A) → Triple I (Q a) (f a) R)
      → Triple I P (m >>= f) R
  Triple-bind Q m f hm hf = record { at = λ t p. Post-continue Q f (m t) (hm.at t p) hf }

pub Triple-emit :
    {I P : Trace → Type 0} {R : Unit {0} → Trace → Type 0} (e : Event)
    → ((t : Trace) → P t → R tt (e ∷ t))
    → Triple I P (emit e) R
Triple-emit e h = record { at = h }

-- A condition that the events of a kind leave as it is.
abbrev pub Stable : (Event → Type 0) → (Trace → Type 0) → Type 0
Stable Q P = (e : Event) (t : Trace) → Q e → P t → P (e ∷ t)

stable_all :
    (Q : Event → Type 0) (P : Trace → Type 0) (new : List Event) (t : Trace)
    → Stable Q P
    → All Q new
    → P t
    → P (new ++ t)
stable_all Q P [] t s q p = p
stable_all Q P (e ∷ new) t s (q, qs) p = s e (new ++ t) q (stable_all Q P new t s qs p)

module _ {ℓ} {A : Type ℓ} {I P : Trace → Type 0} where
  Post-keeps :
      (o : Outcome A) (t : Trace) → ((t : Trace) → P t → I t) → P t → Post I (λ a t'. P t') (o, t)
  Post-keeps (ret a) t i p = p
  Post-keeps panic t i p = i t p

  -- An action that adds only such events.
  pub Triple-keeps :
      (Q : Event → Type 0) (m : Go A)
      → Stable Q P
      → ((t : Trace) → P t → I t)
      → Adds Q m
      → Triple I P m (λ a t. P t)
  Triple-keeps Q m s i h = record {
    at = λ t p.
        let (new, e, q) = h.at t in
        Post-keeps (m t).0 (m t).1 i (subst P (sym e) (stable_all Q P new t s q p));
  }

-- Where the trace afterwards decides.
Post-after {ℓ} :
    {A : Type ℓ} (I : Trace → Type 0) (o : Outcome A) (t : Trace) → I t → Post I (λ a. I) (o, t)
Post-after I (ret a) t h = h
Post-after I panic t h = h

pub Triple-after {ℓ} :
    {A : Type ℓ} {I P : Trace → Type 0} (m : Go A)
    → ((t : Trace) → P t → I (m t).1)
    → Triple I P m (λ a. I)
Triple-after {I = I} m h = record { at = λ t p. Post-after I (m t).0 (m t).1 (h t p) }

-- The trace in either outcome.
Post-trace {ℓ} :
    {A : Type ℓ} (I : Trace → Type 0) (o : Outcome A) (t : Trace) → Post I (λ a. I) (o, t) → I t
Post-trace I (ret a) t h = h
Post-trace I panic t h = h

pub Triple-trace {ℓ} :
    {A : Type ℓ} {I P : Trace → Type 0} (m : Go A)
    → Triple I P m (λ a. I)
    → (t : Trace) → P t
    → I (m t).1
Triple-trace {I = I} m h t p = Post-trace I (m t).0 (m t).1 (h.at t p)

Post-and {ℓ} :
    {A : Type ℓ} (I : Trace → Type 0) (R : A → Trace → Type 0) (V : A → Type 0) (o : Outcome A)
    (t : Trace)
    → ((a : A) → o ≡ ret a → V a)
    → Post I R (o, t)
    → Post I (λ a t'. V a × R a t') (o, t)
Post-and I R V (ret a) t v h = (v a refl, h)
Post-and I R V panic t v h = h

module _ {ℓ} {A : Type ℓ} {I : Trace → Type 0} {R : A → Trace → Type 0} where
  -- With what holds of the value for another reason.
  pub Triple-and :
      {P : Trace → Type 0} (V : A → Type 0) (m : Go A)
      → Triple I P m R
      → Returns V m
      → Triple I P m (λ a t. V a × R a t)
  Triple-and V m h r = record { at = λ t p. Post-and I R V (m t).0 (m t).1 (r.at t) (h.at t p) }

  pub Triple-given :
      {P : Trace → Type 0} (V : Type 0) (m : Go A)
      → (V → Triple I P m R)
      → Triple I (λ t. V × P t) m R
  Triple-given V m h = record { at = λ t (v, p). (h v).at t p }

Post-value {ℓ} :
    {A : Type ℓ} (I : Trace → Type 0) (R : A → Trace → Type 0) (o : Outcome A) (t : Trace) (a : A)
    → o ≡ ret a
    → Post I R (o, t)
    → R a t
Post-value I R (ret a') t a e h = let same : a' ≡ a = ground arith in subst (λ x. R x t) same h
Post-value I R panic t a e h = absurd (cc)

-- What holds where the action returns.
pub Triple-value {ℓ} :
    {A : Type ℓ} {I P : Trace → Type 0} {R : A → Trace → Type 0} (m : Go A)
    → Triple I P m R
    → (t : Trace) (a : A) → P t
    → (m t).0 ≡ ret a
    → R a (m t).1
Triple-value {I = I} {R = R} m h t a p e = Post-value I R (m t).0 (m t).1 a e (h.at t p)
