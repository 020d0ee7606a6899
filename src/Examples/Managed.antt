-- ===== src/Examples/Managed.antt =====
-- The theorems about the manager of the monitors and about epochs on concrete inputs.
use simple_network_monitor.Prelude.{
  ℕ, ◌≡◌, refl, ◌||◌, not, true, some, List, [], ◌∷◌, all, All, ok, err,
}
use simple_network_monitor.History.Epochs.{checks_of, sync_epochs}
use simple_network_monitor.History.Epochs.Currency.{is_open, is_configured}
use simple_network_monitor.History.Epochs.Synchronised.{sync_epochs-IsCurrent}
use simple_network_monitor.History.Epochs.Served.{Apart, targets, has_epoch}
use simple_network_monitor.History.Epochs.Coverage.{sync_epochs-Covers}
use simple_network_monitor.Storage.Reconfigure.{monitor_generation}
use simple_network_monitor.Process.Manager.{Manager, Event, reload, exited, manage_monitors}
use simple_network_monitor.Process.Manager.Consistency.{IsConsistent, manage_monitors-IsConsistent}
use simple_network_monitor.Config.Soundness.{validate-IsSafe}
use simple_network_monitor.Examples.{router, lab}
use simple_network_monitor.Examples.Configured.{is_literal, parsed, config, parsed-valid}
use simple_network_monitor.Examples.Recorded.{recorded}
use simple_network_monitor.Examples.Stored.{to_json, opened, or_else}

abbrev manager : Manager ℕ
manager = record {
  config = config;
  generation = 0;
  monitors = some opened.inner.generation;
  storage = opened;
  api_token = config.core.api_token;
  module_config = config.core.modules;
}

same_generation : manager.monitors ≡ monitor_generation manager.storage
unfolding monitor_generation
same_generation = refl

manager-IsConsistent : IsConsistent is_literal config manager
manager-IsConsistent = record {
  writes = same_generation;
  token = refl;
  modules = refl;
  safe = validate-IsSafe is_literal parsed config parsed-valid;
  bind = refl;
  database = refl;
  workers = refl;
}

abbrev signals : List Event
signals =
    reload (ok parsed) (ok tt) 5_000 ∷ exited 0 ∷ reload (err "no such file") (ok tt) 6_000 ∷ []

abbrev managed : Manager ℕ
managed = or_else (manage_monitors is_literal to_json signals manager) manager

managed-ok : manage_monitors is_literal to_json signals manager ≡ ok managed
unfolding manage_monitors
managed-ok = refl

manage_monitors-IsConsistent_example : IsConsistent is_literal config managed
manage_monitors-IsConsistent_example =
    manage_monitors-IsConsistent is_literal to_json config signals manager managed
      manager-IsConsistent managed-ok

sync_epochs-IsCurrent_example :
    all
      (λ e. not (is_open e) || is_configured to_json (lab ∷ router ∷ []) e)
      (sync_epochs to_json (lab ∷ router ∷ []) 9_000 recorded).epochs
    ≡ true
sync_epochs-IsCurrent_example =
    sync_epochs-IsCurrent to_json (lab ∷ router ∷ []) 9_000 recorded (tt, tt)

two_hosts-Apart : Apart (targets (lab ∷ router ∷ []))
unfolding checks_of
two_hosts-Apart = ((refl, (refl, tt)), ((refl, tt), (tt, tt)))

sync_epochs-Covers_example :
    All
      (λ t.
        has_epoch to_json (sync_epochs to_json (lab ∷ router ∷ []) 9_000 recorded).epochs t ≡ true)
      (targets (lab ∷ router ∷ []))
sync_epochs-Covers_example =
    sync_epochs-Covers to_json (lab ∷ router ∷ []) 9_000 recorded (tt, tt) two_hosts-Apart
