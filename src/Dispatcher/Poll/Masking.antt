-- ===== src/Dispatcher/Poll/Masking.antt =====
-- The credentials of a job's input are hidden before anything is logged of it.
use pzsvc_exec.Prelude.{
  String, ◌==◌, ◌≡◌, ◌⊎◌, inl, inr, refl, nonempty, if◌then◌else◌, eq_iff, Bool-cases,
}
use pzsvc_exec.Host.{Host, Trace, Try, ok, err, ret}
use pzsvc_exec.Host.Returns.{Returns, returns_rules}
use pzsvc_exec.Pzsvc.Model.{InpStruct}
use pzsvc_exec.Dispatcher.JobData.{DispatcherJson}
use pzsvc_exec.Dispatcher.Poll.{Loop, mask, parse_job_input}

-- Nothing, or asterisks.
abbrev pub IsHidden : String → Type 0
IsHidden s = (s ≡ "") ⊎ (s ≡ "*****")

mask_credential-IsHidden : (s : String) → IsHidden (if nonempty s then "*****" else s)
mask_credential-IsHidden s = elim (Bool-cases (s == "")) [
  | inl h ↦ inl (rw h ((eq_iff s "").0 h))
  | inr h ↦ inr (rw h refl)
]

-- The input of a job with its credentials hidden, and the rest as it was sent.
abbrev pub IsMaskedFrom : InpStruct → Try InpStruct → Type 0
IsMaskedFrom sent_input (ok inp) =
    IsHidden inp.ext_auth
    × IsHidden inp.pz_auth
    × (inp ≡ record sent_input { ext_auth = inp.ext_auth; pz_auth = inp.pz_auth })
IsMaskedFrom sent_input (err e) = Unit

module _ (host : Host) (json : DispatcherJson) (l : Loop) where
  masked : (inp : InpStruct) → IsMaskedFrom inp (ok (mask inp))
  unfolding mask
  masked inp = (mask_credential-IsHidden inp.ext_auth, mask_credential-IsHidden inp.pz_auth, refl)

  -- The input of a job that is handed on has no credentials: each is empty or asterisks. Everything
  -- else is as Piazza sent it.
  pub parse_job_input-IsMaskedFrom :
      (text : String) (t : Trace) (r : Try InpStruct)
      → (parse_job_input host json l text t).0 ≡ ret r
      → IsMaskedFrom (json.inp_struct.decode text).0 r
  unfolding parse_job_input
  parse_job_input-IsMaskedFrom text =
      let h : Returns (IsMaskedFrom (json.inp_struct.decode text).0)
          (parse_job_input host json l text) =
        search (returns_rules, masked) depth 9 in
      h.at
