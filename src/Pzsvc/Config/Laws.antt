-- ===== src/Pzsvc/Config/Laws.antt =====
-- When the configuration permits registration, and what start-up does with it.
use pzsvc_exec.Prelude.{
  String, ◌==◌, Bool, true, false, not, ◌&&◌, Option, none, some, ◌≡◌, ◌↔◌, arith, refl,
  if◌then◌else◌, is_some,
}
use pzsvc_exec.Prelude.Int.{pos, positive, is_zero}
use pzsvc_exec.Text.{atoi}
use pzsvc_exec.Host.{Host, Go, Event, Trace, ret, logged, is_log, pure, on_nil, ◌>>=◌, ◌>>◌}
use pzsvc_exec.Host.Adds.{Adds, adds_rules}
use pzsvc_exec.Host.Runs.{Runs, Runs-pure, Runs-bind, runs_rules}
use pzsvc_exec.Pzsvc.Model.{Session}
use pzsvc_exec.Pzsvc.Log.{log_info}
use pzsvc_exec.Pzsvc.Log.Laws.{log_info-Runs, log_alert-Runs, log_info-Adds, log_alert-Adds}
use pzsvc_exec.Pzsvc.Config.{
  Config, registration_problem, check_config, remarks_with, remarks_without,
}
use pzsvc_exec.Pzsvc.Config.Startup.{resolve_port}

-- What a configuration that registers its service has to give.
pub record CanRegister (c : Config) : Type 0 where
  pub address : (c.pz_addr == "" && c.pz_addr_en_var == "") ≡ false
  pub key : (c.api_key_en_var == "") ≡ false
  pub name : (c.svc_name == "") ≡ false
  pub url : c.reg_for_task_mgr ≡ false → (c.url == "") ≡ false
  pub run_time : c.reg_for_task_mgr ≡ true → is_zero c.max_run_time ≡ false

problem_none : (c : Config) → registration_problem c ≡ none → CanRegister c
unfolding registration_problem
problem_none c h = record {
  address = ground arith;
  key = ground arith;
  name = ground arith;
  url = λ r. ground arith;
  run_time = λ r. ground arith;
}

none_problem : (c : Config) → CanRegister c → registration_problem c ≡ none
unfolding registration_problem
none_problem c h = ground (arith, h.address, h.key, h.name, h.url, h.run_time)

module _ (host : Host) (s : Session) where
  remarks_with-Runs : (c : Config) → Runs tt (remarks_with host s c)
  unfolding remarks_with
  remarks_with-Runs c = search (runs_rules, log_info-Runs host s) depth 12

  remarks_without-Runs : (c : Config) → Runs tt (remarks_without host s c)
  unfolding remarks_without
  remarks_without-Runs c = search (runs_rules, log_info-Runs host s) depth 12

  verdict-Runs :
      (o : Option String)
      → Runs (not (is_some o)) (on_nil o (pure true) (λ msg. log_info host s msg >> pure false))
  verdict-Runs none = Runs-pure true
  verdict-Runs (some msg) = Runs-bind tt _ _ (log_info-Runs host s msg) (Runs-pure false)

  verdict_bind-Runs :
      {b : Bool} (o : Option String) (f : Bool → Go Bool)
      → Runs b (f (not (is_some o)))
      → Runs b (on_nil o (pure true) (λ msg. log_info host s msg >> pure false) >>= f)
  verdict_bind-Runs o f h = Runs-bind _ _ f (verdict-Runs o) h

  check_config-Runs :
      (c : Config) → Runs (not (is_some (registration_problem c))) (check_config host s c)
  unfolding check_config
  check_config-Runs c =
      search
        (
          runs_rules,
          log_info-Runs host s,
          log_alert-Runs host s,
          verdict_bind-Runs,
          remarks_with-Runs,
          remarks_without-Runs,
        )
        depth 12

  remarks_with-Adds :
      {Q : Event → Type 0}
      → ((l : String) → Q (logged l))
      → (c : Config) → Adds Q (remarks_with host s c)
  unfolding remarks_with
  remarks_with-Adds {Q} q c = search (adds_rules, log_info-Adds host {Q = Q} q s) depth 12

  remarks_without-Adds :
      {Q : Event → Type 0}
      → ((l : String) → Q (logged l))
      → (c : Config) → Adds Q (remarks_without host s c)
  unfolding remarks_without
  remarks_without-Adds {Q} q c = search (adds_rules, log_info-Adds host {Q = Q} q s) depth 12

  pub check_config-Adds :
      {Q : Event → Type 0}
      → ((l : String) → Q (logged l))
      → (c : Config) → Adds Q (check_config host s c)
  unfolding check_config
  check_config-Adds {Q} q c =
      search
        (
          adds_rules,
          log_info-Adds host {Q = Q} q s,
          log_alert-Adds host {Q = Q} q s,
          remarks_with-Adds,
          remarks_without-Adds,
        )
        depth 12

-- checkConfig returns on every configuration. It answers true exactly when the configuration can
-- be registered, and does nothing but write to the log.
pub check_config-CanRegister :
    (host : Host) (s : Session) (c : Config) (t : Trace)
    → (b : Bool) × ((check_config host s c t).0 ≡ ret b)
      × ((b ≡ true) ↔ CanRegister c)
      × Adds (λ e. is_log e ≡ true) (check_config host s c)
check_config-CanRegister host s c t = (
  not (is_some (registration_problem c)),
  (check_config-Runs host s c).at t,
  (λ h. problem_none c (ground arith), λ h. rw (none_problem c h) refl),
  check_config-Adds host s (λ l. refl) c,
)

-- The port that is listened on is positive. It is the variable's value where a variable is named and
-- its value is a positive number, and the configured port or 8080 where no variable is named.
pub resolve_port_lem :
    (host : Host) (c : Config)
    → (positive (resolve_port host c).0 ≡ true)
      × ((c.port_en_var == "") ≡ false
          → (atoi (host.getenv c.port_en_var)).1 ≡ true
          → positive (atoi (host.getenv c.port_en_var)).0 ≡ true
          → (resolve_port host c).0 ≡ (atoi (host.getenv c.port_en_var)).0)
      × ((c.port_en_var == "") ≡ true
          → (resolve_port host c).0 ≡ (if positive c.port then c.port else pos 8080))
unfolding resolve_port
resolve_port_lem host c = (ground arith, λ h k l. ground arith, λ h. ground arith)
