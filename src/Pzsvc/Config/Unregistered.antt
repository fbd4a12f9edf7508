-- ===== src/Pzsvc/Config/Unregistered.antt =====
-- A configuration that cannot be registered makes start-up send nothing.
use pzsvc_exec.Prelude.{Bool, true, false, ◌≡◌, refl, if◌then◌else◌, count}
use pzsvc_exec.Host.{Host, Go, Event, Trace, is_sent, pure, ◌>>=◌}
use pzsvc_exec.Host.Adds.{Adds, adds_rules, Adds-pure, count-Adds}
use pzsvc_exec.Host.Returns.{Returns, returns_rules}
use pzsvc_exec.Host.Runs.{Adds-bind_of}
use pzsvc_exec.Pzsvc.Model.{Session}
use pzsvc_exec.Pzsvc.Json.{PzJson}
use pzsvc_exec.Pzsvc.Log.Laws.{log_info-Adds, log_simple_err-Adds}
use pzsvc_exec.Pzsvc.Config.{Config, check_config, get_version}
use pzsvc_exec.Pzsvc.Config.Startup.{resolve_address, resolve_key, parse_config_and_register}
use pzsvc_exec.Pzsvc.Config.Laws.{CanRegister, check_config-Adds, check_config-CanRegister}

abbrev NotSent : Event → Type 0
NotSent e = is_sent e ≡ false

not_true : (b : Bool) → ¬ (b ≡ true) → b ≡ false
not_true true h = absurd (h refl)
not_true false h = refl

module _ (host : Host) (s : Session) (c : Config) where
  Returns-check : ¬ (CanRegister c) → Returns (λ b. b ≡ false) (check_config host s c)
  Returns-check h = record {
    at = λ t b e.
        let (b', runs, verdict, quiet) = check_config-CanRegister host s c t in
        not_true b (λ p. h (verdict.0 (cc (runs, e, p))));
  }

  address-Adds : (b : Bool) → Adds NotSent (resolve_address host s c b)
  unfolding resolve_address
  address-Adds b = search (adds_rules, log_info-Adds host {Q = NotSent} (λ l. refl)) depth 9

  Returns-address : (b : Bool) → b ≡ false → Returns (λ r. r.1 ≡ false) (resolve_address host s c b)
  unfolding resolve_address
  Returns-address b h = search returns_rules depth 9

  key-Adds : (b : Bool) → Adds NotSent (resolve_key host s c b)
  unfolding resolve_key
  key-Adds b = search (adds_rules, log_info-Adds host {Q = NotSent} (λ l. refl) s) depth 9

  Returns-key : (b : Bool) → b ≡ false → Returns (λ r. r.1 ≡ false) (resolve_key host s c b)
  unfolding resolve_key
  Returns-key b h = search returns_rules depth 9

  version-Adds : Adds NotSent (get_version host s c)
  unfolding get_version
  version-Adds =
      search
        (
          adds_rules,
          log_info-Adds host {Q = NotSent} (λ l. refl) s,
          log_simple_err-Adds host {Q = NotSent} (λ l. refl) s,
        )
        depth 9

  module _ {ℓ} {A : Type ℓ} where
    check_bind :
        ¬ (CanRegister c)
        → (f : Bool → Go A) → ((b : Bool) → b ≡ false → Adds NotSent (f b))
        → Adds NotSent (check_config host s c >>= f)
    check_bind h f k =
        Adds-bind_of _ _ f (check_config-Adds host s (λ l. refl) c) (Returns-check h) k

    address_bind :
        (b : Bool) (f : Session × Bool → Go A)
        → b ≡ false
        → ((r : Session × Bool) → r.1 ≡ false → Adds NotSent (f r))
        → Adds NotSent (resolve_address host s c b >>= f)
    address_bind b f h k = Adds-bind_of _ _ f (address-Adds b) (Returns-address b h) k

    key_bind :
        (b : Bool) (f : Session × Bool → Go A)
        → b ≡ false
        → ((r : Session × Bool) → r.1 ≡ false → Adds NotSent (f r))
        → Adds NotSent (resolve_key host s c b >>= f)
    key_bind b f h k = Adds-bind_of _ _ f (key-Adds b) (Returns-key b h) k

when_false : (b : Bool) (m : Go (Unit {0})) → b ≡ false → Adds NotSent (if b then m else pure tt)
when_false b m h = rw h (Adds-pure tt)

-- Without a configuration that can be registered, start-up sends no request to Piazza.
parse_config_and_register_unregistered :
    (host : Host) (json : PzJson) (s : Session) (c : Config) (t : Trace)
    → ¬ (CanRegister c)
    → count is_sent (parse_config_and_register host json s c t).1 ≡ count is_sent t
unfolding parse_config_and_register
parse_config_and_register_unregistered host json s c t h =
    let quiet : Adds NotSent (parse_config_and_register host json s c) =
      search
        (
          adds_rules,
          check_bind {0} host s c h,
          address_bind,
          key_bind,
          when_false,
          version-Adds,
          log_info-Adds host {Q = NotSent} (λ l. refl),
        )
        depth 14 in
    count-Adds is_sent _ quiet t
