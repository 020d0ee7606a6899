-- ===== src/Process/Manager/Consistency.antt =====
-- main.rs, `manage_monitors`: the state of a manager that runs.
use mathlib.Core.Path.{subst}
use simple_network_monitor.Prelude.{
  ◌≡◌, ◌∙◌, refl, ap, inl, inr, ℕ, String, Bool, List, [], ◌∷◌, ◌==◌, Result, ok, err, ok-injective,
  bind-ok, then-ok, Result-cases, Bool-cases, arith,
}
use simple_network_monitor.Config.Validate.{AppConfig, RawConfig}
use simple_network_monitor.Config.Hosts.{validate}
use simple_network_monitor.Config.Soundness.{IsSafe, validate-IsSafe}
use simple_network_monitor.Config.Reload.{for_reload, for_reload-IsSafe}
use simple_network_monitor.History.Epochs.{Signature}
use simple_network_monitor.Storage.Tables.{Storage}
use simple_network_monitor.Storage.Reconfigure.{update_configuration, monitor_generation}
use simple_network_monitor.Process.Manager.{
  Manager, Event, reload, exited, prepare_monitor_config, policies_of, apply_reloaded_config,
  spawn_monitor_generation, after_apply, after_check, after_prepare, on_reload, handle_event,
  manage_monitors,
}

-- What runs is what the configuration says: the monitors write through the generation of the
-- storage, the API asks for the token of the configuration, and the configuration is safe for the
-- listener that it was started with.
pub record IsConsistent {F : Type 0} (is_ip_literal : String → Bool) (start : AppConfig)
    (m : Manager F) : Type 0 where
  pub writes : m.monitors ≡ monitor_generation m.storage
  pub token : m.api_token ≡ m.config.core.api_token
  pub modules : m.module_config ≡ m.config.core.modules
  pub safe : IsSafe is_ip_literal m.config
  pub bind : m.config.core.bind ≡ start.core.bind
  pub database : m.config.core.database_path ≡ start.core.database_path
  pub workers : m.config.core.api_workers ≡ start.core.api_workers

prepared-IsSafe :
    (is_ip_literal : String → Bool) (parsed : Result String RawConfig)
    (ready : Result String (Unit {0})) (c : AppConfig)
    → prepare_monitor_config is_ip_literal parsed ready ≡ ok c
    → IsSafe is_ip_literal c
unfolding prepare_monitor_config
prepared-IsSafe is_ip_literal parsed ready c h =
    let (raw, e, h1) = bind-ok parsed _ h in
    let (made, e1, h2) = bind-ok (validate is_ip_literal raw) _ h1 in
    let (done, h3) = then-ok ready _ h2 in
    validate-IsSafe is_ip_literal raw c (e1 ∙ ap ok (ok-injective h3))

module _ {F : Type 0} (is_ip_literal : String → Bool) (to_json : Signature → String) where
  -- A reload leaves the manager as it was, or with all of a new configuration that is applied.
  pub data Reloads (now : ℕ) (m : Manager F) : Manager F → Type 0 where
    kept : Reloads now m m
    switched :
        (next c : AppConfig) (storage : Storage F)
        → IsSafe is_ip_literal next
        → for_reload next m.config ≡ ok c
        → update_configuration is_ip_literal to_json c.hosts (policies_of c) now m.storage
          ≡ ok storage
        → Reloads now m (
            spawn_monitor_generation is_ip_literal to_json c (record m {
              storage = storage;
              api_token = c.core.api_token;
              module_config = c.core.modules;
            }))

  after_apply-Reloads :
      (now : ℕ) (m : Manager F) (next c : AppConfig)
      → IsSafe is_ip_literal next
      → for_reload next m.config ≡ ok c
      → Reloads now m (
          after_apply is_ip_literal to_json c m
            (apply_reloaded_config is_ip_literal to_json c now m))
  unfolding apply_reloaded_config after_apply
  after_apply-Reloads now m next c safe f =
      elim (Result-cases
        (update_configuration is_ip_literal to_json c.hosts (policies_of c) now m.storage)) [
          | inr (x, g) ↦ rw (apply_reloaded_config, g) kept
          | inl (storage, g) ↦ rw (apply_reloaded_config, g) (switched next c storage safe f g)
        ]

  after_check-Reloads :
      (now : ℕ) (m : Manager F) (next : AppConfig) (r : Result String AppConfig)
      → IsSafe is_ip_literal next
      → for_reload next m.config ≡ r
      → Reloads now m (after_check is_ip_literal to_json now m r)
  unfolding after_check
  after_check-Reloads now m next (err e) safe f = kept
  after_check-Reloads now m next (ok c) safe f = after_apply-Reloads now m next c safe f

  after_prepare-Reloads :
      (now : ℕ) (m : Manager F) (r : Result String AppConfig)
      → ((c : AppConfig) → r ≡ ok c → IsSafe is_ip_literal c)
      → Reloads now m (after_prepare is_ip_literal to_json now m r)
  unfolding after_prepare
  after_prepare-Reloads now m (err e) safe = kept
  after_prepare-Reloads now m (ok next) safe =
      after_check-Reloads now m next (for_reload next m.config) (safe next refl) refl

  pub on_reload-Reloads :
      (parsed : Result String RawConfig) (ready : Result String (Unit {0})) (now : ℕ)
      (m : Manager F)
      → Reloads now m (on_reload is_ip_literal to_json parsed ready now m)
  unfolding on_reload
  on_reload-Reloads parsed ready now m =
      after_prepare-Reloads now m (prepare_monitor_config is_ip_literal parsed ready)
        (λ c e. prepared-IsSafe is_ip_literal parsed ready c e)

  Reloads-IsConsistent :
      {now : ℕ} {m m' : Manager F} (start : AppConfig)
      → Reloads now m m'
      → IsConsistent is_ip_literal start m
      → IsConsistent is_ip_literal start m'
  unfolding spawn_monitor_generation
  Reloads-IsConsistent start kept c = c
  Reloads-IsConsistent {now} {m} start (switched next c storage safe f g) i =
      let (closed, bind, database, workers) =
        for_reload-IsSafe is_ip_literal next m.config c safe f in
      record {
        writes = refl;
        token = refl;
        modules = refl;
        safe = closed;
        bind = bind ∙ i.bind;
        database = database ∙ i.database;
        workers = workers ∙ i.workers;
      }

  handle_event-IsConsistent :
      (start : AppConfig) (e : Event) (m m' : Manager F)
      → handle_event is_ip_literal to_json e m ≡ ok m'
      → IsConsistent is_ip_literal start m
      → IsConsistent is_ip_literal start m'
  unfolding handle_event
  handle_event-IsConsistent start (reload parsed ready now) m m' h c =
      subst (λ x. IsConsistent is_ip_literal start x) (ok-injective h)
        (Reloads-IsConsistent start (on_reload-Reloads parsed ready now m) c)
  handle_event-IsConsistent start (exited generation) m m' h c =
      elim (Bool-cases (generation == m.generation)) [
        | inl e ↦ absurd (ground arith)
        | inr e ↦
            let same : m ≡ m' = ground arith in
            subst (λ x. IsConsistent is_ip_literal start x) same c
      ]

  -- Whatever signals and exits a consistent manager is sent, as long as it runs it stays consistent.
  pub manage_monitors-IsConsistent :
      (start : AppConfig) (events : List Event) (m m' : Manager F)
      → IsConsistent is_ip_literal start m
      → manage_monitors is_ip_literal to_json events m ≡ ok m'
      → IsConsistent is_ip_literal start m'
  unfolding manage_monitors
  manage_monitors-IsConsistent start [] m m' c h =
      subst (λ x. IsConsistent is_ip_literal start x) (ok-injective h) c
  manage_monitors-IsConsistent start (e ∷ events) m m' c h =
      let (m1, h1, h2) = bind-ok (handle_event is_ip_literal to_json e m) _ h in
      manage_monitors-IsConsistent start events m1 m' (handle_event-IsConsistent start e m m1 h1 c)
        h2
