-- ===== src/Worker/Cmd/Laws.antt =====
-- Which configurations the worker executes.
use pzsvc_exec.Prelude.{
  String, ◌<>◌, ◌==◌, Bool, true, false, List, [], ◌∷◌, ◌≡◌, subst, refl, nonempty, if◌then◌else◌,
}
use pzsvc_exec.Host.{Host, Try, ok, err, on_error}
use pzsvc_exec.Worker.Config.{WorkerConfig, InputSource}
use pzsvc_exec.Worker.Cmd.{Flags, complete, parse_inputs, or_env, require_output}

-- A configuration that names its service, its Piazza with a key, an output, and its inputs.
pub record IsComplete (host : Host) (flags : Flags) (c : WorkerConfig) : Type 0 where
  pub service : nonempty c.piazza_service_id ≡ true
  pub address : nonempty c.piazza_base_url ≡ true
  pub key : nonempty c.piazza_api_key ≡ true
  pub some_output : ¬ (c.outputs ≡ [])
  pub same_address : c.session.pz_addr ≡ c.piazza_base_url
  pub auth : c.session.pz_auth ≡ "Basic " <> host.base64 (c.piazza_api_key <> ":")
  pub inputs : parse_inputs flags.input ≡ ok c.inputs

module _ (host : Host) (flags : Flags) where
  abbrev IsChecked : Try WorkerConfig → Type 0
  IsChecked (ok c) = IsComplete host flags c
  IsChecked (err e) = Unit

  IsChecked-if :
      (b : Bool) (r k : Try WorkerConfig)
      → (b ≡ true → IsChecked r)
      → (b ≡ false → IsChecked k)
      → IsChecked (if b then r else k)
  IsChecked-if true r k hr hk = hr refl
  IsChecked-if false r k hr hk = hk refl

  IsChecked-output :
      (outputs : List String) (r : Try WorkerConfig)
      → (¬ (outputs ≡ []) → IsChecked r)
      → IsChecked (require_output outputs r)
  IsChecked-output [] r h = tt
  IsChecked-output (o ∷ more) r h = h (λ e. absurd (cc))

  IsChecked-inputs :
      (r : Try (List InputSource)) (k : List InputSource → WorkerConfig)
      → ((inputs : List InputSource) → r ≡ ok inputs → IsChecked (ok (k inputs)))
      → IsChecked (on_error r err (λ inputs. ok (k inputs)))
  IsChecked-inputs (ok inputs) k h = h inputs refl
  IsChecked-inputs (err e) k h = tt

  full : (s : String) → (s == "") ≡ false → nonempty s ≡ true
  full s h = rw h refl

  complete-IsChecked : (cfg : WorkerConfig) → IsChecked (complete host flags cfg)
  unfolding complete
  complete-IsChecked cfg =
      IsChecked-if (cfg.piazza_service_id == "") _ _ (λ _. tt)
        (λ service.
          IsChecked-if (or_env host cfg.piazza_base_url cfg.pz_se_config.pz_addr_en_var == "") _ _
            (λ _. tt)
            (λ address.
              IsChecked-if (or_env host cfg.piazza_api_key cfg.pz_se_config.api_key_en_var == "") _
                _ (λ _. tt)
                (λ key. IsChecked-output cfg.outputs _ (λ some_output.
                  IsChecked-inputs (parse_inputs flags.input) _ (λ inputs parsed. record {
                    service = full _ service;
                    address = full _ address;
                    key = full _ key;
                    some_output = some_output;
                    same_address = refl;
                    auth = refl;
                    inputs = parsed;
                  })))))

  -- The checks of the command let a configuration through only if it names a service, a Piazza
  -- address and a key, if it has an output, if its inputs are those of the flags, and if its
  -- session talks to the same address under that key.
  pub complete-IsComplete :
      (cfg c : WorkerConfig) → complete host flags cfg ≡ ok c → IsComplete host flags c
  complete-IsComplete cfg c h = subst IsChecked h (complete-IsChecked cfg)
