-- ===== src/Host/Phases.antt =====
-- Actions whose events come in phases.
use mathlib.Core.List.{append_assoc, append-nil}
use pzsvc_exec.Prelude.{Option, none, some, List, [], ◌∷◌, ◌++◌, ◌≡◌, refl, sym, All, All-append}
use pzsvc_exec.Host.Events.{Event, Trace}
use pzsvc_exec.Host.Run.{Go, Outcome, ret, panic, continue, ◌>>=◌, on_nil}
use pzsvc_exec.Host.Adds.{Adds}

-- The events, the newest first, are first those of the first kind, then those of the second, and so
-- on. A kind may have none.
abbrev pub Phases : List (Event → Type 0) → List Event → Type 0
Phases [] new = new ≡ []
Phases (Q ∷ Qs) new =
    (later : List Event) × (first : List Event) × (new ≡ later ++ first)
    × All Q first
    × Phases Qs later

pub record Phased {ℓ} {A : Type ℓ} (Qs : List (Event → Type 0)) (m : Go A) : Type 0 where
  pub at : (t : Trace) → (new : List Event) × ((m t).1 ≡ new ++ t) × Phases Qs new

no_events : (Qs : List (Event → Type 0)) → Phases Qs []
no_events [] = refl
no_events (Q ∷ Qs) = ([], [], refl, tt, no_events Qs)

module _ {ℓ} {A : Type ℓ} where
  pub Phased-last : (Q : Event → Type 0) (m : Go A) → Adds Q m → Phased (Q ∷ []) m
  Phased-last Q m h = record {
    at = λ t. let (new, e, q) = h.at t in (new, e, ([], new, refl, q, refl));
  }

  -- The first phase has no event.
  pub Phased-skip :
      {Qs : List (Event → Type 0)} (Q : Event → Type 0) (m : Go A) → Phased Qs m → Phased (Q ∷ Qs) m
  Phased-skip Q m h = record {
    at = λ t. let (new, e, p) = h.at t in (new, e, (new, [], sym (append-nil new), tt, p));
  }

module _ {ℓ κ} {A : Type ℓ} {B : Type κ} {Q : Event → Type 0} {Qs : List (Event → Type 0)} where
  Phased-continue :
      (f : A → Go B) (o : Outcome A) (t' t : Trace) (new : List Event)
      → ((a : A) → Phased (Q ∷ Qs) (f a))
      → t' ≡ new ++ t
      → All Q new
      → (more : List Event) × ((continue f (o, t')).1 ≡ more ++ t) × Phases (Q ∷ Qs) more
  Phased-continue f (ret a) t' t new hf e q =
      let (more, e', (later, first, s, k, p)) = (hf a).at t' in
      (
        later ++ (first ++ new),
        rw (e', s, e)
            (cc (
              append_assoc later first (new ++ t),
              append_assoc first new t,
              append_assoc later (first ++ new) t,
            )),
        (later, first ++ new, refl, All-append Q first new k q, p),
      )
  Phased-continue f panic t' t new hf e q = (new, e, ([], new, refl, q, no_events Qs))

  -- An action of the first phase.
  pub Phased-first :
      (m : Go A) (f : A → Go B)
      → Adds Q m
      → ((a : A) → Phased (Q ∷ Qs) (f a))
      → Phased (Q ∷ Qs) (m >>= f)
  Phased-first m f hm hf = record {
    at = λ t. let (new, e, q) = hm.at t in Phased-continue f (m t).0 (m t).1 t new hf e q;
  }

pub Phased-on_nil {ℓ κ} :
    {A : Type ℓ} {B : Type κ} {Qs : List (Event → Type 0)} (o : Option B) (m : Go A) (f : B → Go A)
    → Phased Qs m
    → ((b : B) → Phased Qs (f b))
    → Phased Qs (on_nil o m f)
Phased-on_nil none m f hm hf = hm
Phased-on_nil (some b) m f hm hf = hf b
