-- ===== src/Process/Manager.antt =====
-- main.rs: the manager of the monitors reloads the configuration on a signal, and ends when a monitor
-- of the current generation exits. What the file parses to, and whether the modules can prepare their
-- monitors, are arguments of the event; the tasks of the monitors are the handle that they write
-- through.
pub mod Consistency
use simple_network_monitor.Prelude.{
  ℕ, String, Bool, Option, some, List, [], ◌∷◌, ◌==◌, Result, ok, err, ◌>>=◌, ◌>>◌, if◌then◌else◌,
}
use simple_network_monitor.Domain.Clock.{add_u64}
use simple_network_monitor.Config.Modules.{ModuleConfigs}
use simple_network_monitor.Config.Validate.{AppConfig, RawConfig}
use simple_network_monitor.Config.Hosts.{validate}
use simple_network_monitor.Config.Reload.{for_reload}
use simple_network_monitor.History.Epochs.{Signature}
use simple_network_monitor.Storage.Errors.{StorageError}
use simple_network_monitor.Storage.Tables.{Storage}
use simple_network_monitor.Storage.Reconfigure.{
  StoragePolicies, update_configuration, monitor_generation,
}

-- `config`, `generation` and the monitors of the loop, with what they share with the API.
pub record Manager (F : Type 0) : Type 0 where
  pub config : AppConfig
  pub generation : ℕ
  pub monitors : Option ℕ
  pub storage : Storage F
  pub api_token : Option String
  pub module_config : ModuleConfigs

pub data Event : Type 0 where
  reload : Result String RawConfig → Result String (Unit {0}) → ℕ → Event
  exited : ℕ → Event

-- `prepare_monitor_config_from_path`.
unfoldable pub prepare_monitor_config :
    (String → Bool) → Result String RawConfig → Result String (Unit {0}) → Result String AppConfig
unfolding validate
prepare_monitor_config is_ip_literal parsed ready = do
  raw ← parsed
  config ← validate is_ip_literal raw
  ready
  ok config

abbrev pub policies_of : AppConfig → StoragePolicies
policies_of c = record {
  history = c.core.history;
  maintenance = c.core.maintenance;
  usage_retention = c.core.modules.usage.sample_retention;
  history_retention = c.core.history_retention;
}

module _ {F : Type 0} (is_ip_literal : String → Bool) (to_json : Signature → String) where
  unfoldable pub apply_reloaded_config : AppConfig → ℕ → Manager F → Result StorageError (Manager F)
  unfolding update_configuration
  apply_reloaded_config c now m = do
    storage ← update_configuration is_ip_literal to_json c.hosts (policies_of c) now m.storage
    ok (record m {
      storage = storage;
      api_token = c.core.api_token;
      module_config = c.core.modules;
    })

  -- What follows an application that succeeds: the monitors of the next generation.
  unfoldable pub spawn_monitor_generation : AppConfig → Manager F → Manager F
  unfolding monitor_generation
  spawn_monitor_generation c m = record m {
    config = c;
    generation = add_u64 m.generation 1;
    monitors = monitor_generation m.storage;
  }

  -- The arm of the signal: each failure keeps what runs.
  unfoldable pub after_apply : AppConfig → Manager F → Result StorageError (Manager F) → Manager F
  unfolding spawn_monitor_generation
  after_apply next m (err e) = m
  after_apply next m (ok applied) = spawn_monitor_generation next applied

  unfoldable pub after_check : ℕ → Manager F → Result String AppConfig → Manager F
  unfolding apply_reloaded_config after_apply
  after_check now m (err e) = m
  after_check now m (ok next) = after_apply next m (apply_reloaded_config next now m)

  unfoldable pub after_prepare : ℕ → Manager F → Result String AppConfig → Manager F
  unfolding for_reload after_check
  after_prepare now m (err e) = m
  after_prepare now m (ok prepared) = after_check now m (for_reload prepared m.config)

  unfoldable pub on_reload :
      Result String RawConfig → Result String (Unit {0}) → ℕ → Manager F → Manager F
  unfolding prepare_monitor_config after_prepare
  on_reload parsed ready now m =
      after_prepare now m (prepare_monitor_config is_ip_literal parsed ready)

  -- One turn of the loop; an error ends the manager.
  unfoldable pub handle_event : Event → Manager F → Result String (Manager F)
  unfolding on_reload
  handle_event (reload parsed ready now) m = ok (on_reload parsed ready now m)
  handle_event (exited generation) m =
      if generation == m.generation then err "monitor exited" else ok m

  unfoldable pub manage_monitors : List Event → Manager F → Result String (Manager F)
  unfolding handle_event
  manage_monitors [] m = ok m
  manage_monitors (e ∷ es) m = do m' ← handle_event e m; manage_monitors es m'
