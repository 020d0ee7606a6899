-- ===== src/Storage/Startup.antt =====
-- storage/sqlite/mod.rs, `new_initialized`: the storage of a migrated database.
use simple_network_monitor.Prelude.{
  ℕ, ◌*◌, String, Bool, none, some, Option, List, [], ◌∷◌, Result, ok, ◌>>=◌,
}
use simple_network_monitor.Domain.Clock.{from_secs}
use simple_network_monitor.Domain.Host.{Host}
use simple_network_monitor.Domain.Usage.{UsageSnapshot}
use simple_network_monitor.Domain.Maintenance.{default_history, default_maintenance}
use simple_network_monitor.History.Epochs.{Signature}
use simple_network_monitor.Storage.Errors.{StorageError}
use simple_network_monitor.Storage.Tables.{Keyed, lookup, upsert, Database, Storage}
use simple_network_monitor.Storage.Identities.{sync_identities_in_transaction}
use simple_network_monitor.Storage.Reconfigure.{host_map}

abbrev pub remember : String → Option UsageSnapshot → Keyed UsageSnapshot → Keyed UsageSnapshot
remember id none cache = cache
remember id (some s) cache = upsert id s cache

-- The cache that the loop over the hosts fills.
unfoldable pub load_cache : List Host → Keyed UsageSnapshot → Keyed UsageSnapshot
load_cache [] persisted = []
load_cache (h ∷ hs) persisted = remember h.id (lookup h.id persisted) (load_cache hs persisted)

-- The storage on the tables that the synchronisation leaves.
abbrev pub initial : {F : Type 0} → List Host → Database F → Storage F
initial hosts db = record {
  hosts = host_map hosts;
  history_policy = default_history;
  inner = record {
    generation = 0;
    history_retention = from_secs (365 * 86400);
    history_config = default_history;
    maintenance_config = default_maintenance;
    usage = load_cache hosts db.latest_usage;
    conn = db;
    usage_sample_retention = none;
  };
}

unfoldable pub new_initialized :
    {F : Type 0}
    → (String → Bool)
    → (Signature → String)
    → List Host
    → ℕ
    → Database F
    → Result StorageError (Storage F)
unfolding sync_identities_in_transaction
new_initialized is_ip_literal to_json hosts now db = do
  db' ← sync_identities_in_transaction is_ip_literal to_json hosts now db
  ok (initial hosts db')
