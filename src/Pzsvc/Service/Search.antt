-- ===== src/Pzsvc/Service/Search.antt =====
-- Which service the search finds, and the registration without a connection.
use pzsvc_exec.Prelude.{
  ℕ, String, ◌==◌, true, false, Option, none, List, [], ◌∷◌, ◌++◌, ◌≡◌, ◌⊎◌, inl, inr, refl, All,
  Bool-cases, ap, subst, sym, ◌∙◌,
}
use pzsvc_exec.Host.{Host, Go, Response, ◌>>=◌, Trace, Request, GoError, panic, err}
use pzsvc_exec.Host.Panics.{Panics, Panics-if, Panics-then, Panics-first, Panics-crash}
use pzsvc_exec.Pzsvc.Http.Failures.{Panics-submit_down}
use pzsvc_exec.Pzsvc.Model.{Session, Service}
use pzsvc_exec.Pzsvc.Json.{PzJson}
use pzsvc_exec.Pzsvc.Log.{log_audit_response}
use pzsvc_exec.Pzsvc.Service.{find_service, submit_registration}

module _ (name : String) where
  abbrev pub IsOther : Service → Type 0
  IsOther c = (c.res_meta.name == name) ≡ false

  -- A service with the name, with none such before it.
  pub record IsFirst (l : List Service) (id : String) : Type 0 where
    pub before : List Service
    pub found : Service
    pub after : List Service
    pub splits : l ≡ before ++ (found ∷ after)
    pub others : All IsOther before
    pub named : (found.res_meta.name == name) ≡ true
    pub has_id : id ≡ found.service_id

  extend :
      (c : Service) {l : List Service} {id : String} → IsOther c → IsFirst l id → IsFirst (c ∷ l) id
  extend c o f = record {
    before = c ∷ f.before;
    found = f.found;
    after = f.after;
    splits = ap (λ r. c ∷ r) f.splits;
    others = (o, f.others);
    named = f.named;
    has_id = f.has_id;
  }

  find_service_named :
      (c : Service) (l : List Service)
      → (c.res_meta.name == name) ≡ true
      → find_service name (c ∷ l) ≡ c.service_id
  unfolding find_service
  find_service_named c l h = rw h

  find_service_other :
      (c : Service) (l : List Service) → IsOther c → find_service name (c ∷ l) ≡ find_service name l
  unfolding find_service
  find_service_other c l h = rw h

  -- The answer is the ID of the first service with the name, or "" where no service has it.
  pub find_service-IsFirst :
      (l : List Service)
      → IsFirst l (find_service name l) ⊎ (All IsOther l × (find_service name l ≡ ""))
  unfolding find_service
  find_service-IsFirst [] = inr (tt, refl)
  find_service-IsFirst (c ∷ l) = elim (Bool-cases (c.res_meta.name == name)) [
    | inl same ↦ inl (record {
      before = [];
      found = c;
      after = l;
      splits = refl;
      others = tt;
      named = same;
      has_id = find_service_named c l same;
    })
    | inr other ↦ elim (find_service-IsFirst l) [
      | inl f ↦
          inl (subst (IsFirst (c ∷ l)) (sym (find_service_other c l other)) (extend c other f))
      | inr (o, e) ↦ inr ((other, o), find_service_other c l other ∙ e)
    ]
  ]

Panics-audit_nil {ℓ} :
    {A : Type ℓ} (host : Host) (s : Session) (actor action actee : String) (n : ℕ)
    (f : Option Response → Go A)
    → s.log_audit ≡ true
    → Panics (log_audit_response host s actor action actee none n >>= f)
unfolding log_audit_response
Panics-audit_nil host s actor action actee n f audit = Panics-first _ f (rw audit Panics-crash)

-- Where no reply comes and the audit log is on, registering ends the program: the audit log reads
-- the body of a nil response.
submit_registration_panics :
    (host : Host) (json : PzJson) (s : Session) (id svc_json : String) (e : GoError) (t : Trace)
    → s.log_audit ≡ true
    → ((t' : Trace) (r : Request) → host.respond t' r ≡ err e)
    → (submit_registration host json s id svc_json t).0 ≡ panic
unfolding submit_registration
submit_registration_panics host json s id svc_json e t audit down =
    let h : Panics (submit_registration host json s id svc_json) =
      search
        (Panics-if, Panics-then, Panics-submit_down {0} host e down, Panics-audit_nil {0} host s)
        depth 9 in
    h.at t
