-- ===== src/Storage/Reconfigure.antt =====
-- storage/sqlite/mod.rs: the storage that handles share, and the replacement of its configuration.
-- A handle is its `write_generation`. The admission of writers is a semaphore, and is not modelled.
pub mod Catalog
use text.Mathlib.Text.{is_le}
use Prim.Native.String.{compare}
use simple_network_monitor.Prelude.{
  ℕ, String, Bool, true, false, not, ◌&&◌, Option, none, some, List, [], ◌∷◌, map, ◌==◌, str_eq,
  any, length, retain, Result, ok, err, ◌>>=◌, ◌>>◌, map_err, reject, if◌then◌else◌,
}
use simple_network_monitor.Domain.Clock.{Duration, DateTime, add_u64, from_secs}
use simple_network_monitor.Domain.Validation.{validate_duration}
use simple_network_monitor.Domain.Host.{Host}
use simple_network_monitor.Domain.Usage.{UsageSnapshot}
use simple_network_monitor.Domain.Maintenance.{
  HistoryConfig, MaintenanceConfig, default_history, default_maintenance, validate_history,
  validate_maintenance,
}
use simple_network_monitor.History.Epochs.{Signature}
use simple_network_monitor.Storage.Jobs.{register_jobs}
use simple_network_monitor.Storage.Errors.{StorageError, stale_generation, invalid_data, not_found}
use simple_network_monitor.Storage.Tables.{Keyed, lookup, Database, Inner, Storage}
use simple_network_monitor.Storage.Identities.{ids_of, sync_identities_in_transaction}

pub record StoragePolicies : Type 0 where
  pub history : HistoryConfig
  pub maintenance : MaintenanceConfig
  pub usage_retention : Duration
  pub history_retention : Duration

-- `collect::<HashSet<_>>`.
unfoldable pub to_set : List String → List String
to_set [] = []
to_set (x ∷ xs) = let rest = to_set xs in if any (str_eq x) rest then rest else x ∷ rest

-- `host_ids.len() != hosts.len()`.
abbrev pub is_duplicated : List Host → Bool
is_duplicated hosts = not (length (to_set (ids_of hosts)) == length hosts)

-- `BTreeMap::insert`, on the entries in the order of their keys.
unfoldable pub insert_host : Host → Keyed Host → Keyed Host
insert_host h [] = (h.id, h) ∷ []
insert_host h ((key, old) ∷ rest) =
    let later = (key, old) ∷ insert_host h rest in
    if str_eq key h.id
    then (key, h) ∷ rest
    else if is_le (compare h.id key)
    then (h.id, h) ∷ (key, old) ∷ rest
    else later

unfoldable pub host_map : List Host → Keyed Host
unfolding insert_host
host_map [] = []
host_map (h ∷ hs) = insert_host h (host_map hs)

abbrev pub values : {V : Type 0} → Keyed V → List V
values m = map (λ e. e.1) m

-- `current.get(id).zip(host_map.get(id)).is_some_and(…)`.
abbrev pub same_address : Option Host → Option Host → Bool
same_address (some old) (some new) = str_eq old.address new.address
same_address _ _ = false

abbrev pub check_duration : Duration → Result StorageError (Unit {0})
check_duration d = map_err invalid_data (validate_duration d)

module _ {F : Type 0} where
  unfoldable pub monitor_generation : Storage F → Option ℕ
  monitor_generation s = some s.inner.generation

  -- `generation.is_some_and(|expected| expected != inner.generation)`.
  abbrev pub is_stale : Option ℕ → Inner F → Bool
  is_stale none inner = false
  is_stale (some expected) inner = not (expected == inner.generation)

  unfoldable pub with_inner :
      {A : Type 0}
      → Option ℕ
      → (Inner F → Result StorageError (A × Inner F))
      → Storage F
      → Result StorageError (A × Storage F)
  with_inner handle f s = do
    reject (is_stale handle s.inner) stale_generation
    (a, inner) ← f s.inner
    ok (a, record s { inner = inner })

  unfoldable pub ensure_host_exists : String → Storage F → Result StorageError (Unit {0})
  ensure_host_exists id s = elim (lookup id s.hosts) [ none ↦ err (not_found id) | some h ↦ ok tt ]

  unfoldable pub set_history_retention : Duration → Storage F → Result StorageError (Storage F)
  unfolding validate_duration
  set_history_retention d s = do
    check_duration d
    ok (record s { inner = record s.inner { history_retention = d } })

  unfoldable pub set_usage_sample_retention :
      Option Duration → Storage F → Result StorageError (Storage F)
  unfolding validate_duration
  set_usage_sample_retention retention s = do
    elim retention [ none ↦ ok tt | some d ↦ check_duration d ]
    ok (record s { inner = record s.inner { usage_sample_retention = retention } })

  abbrev pub register : MaintenanceConfig → ℕ → Database F → Database F
  register config now db = record db { jobs = register_jobs config now db.jobs }

  unfoldable pub configure_maintenance :
      HistoryConfig → MaintenanceConfig → ℕ → Storage F → Result StorageError (Storage F)
  unfolding validate_history validate_maintenance register_jobs
  configure_maintenance history maintenance now s = do
    map_err invalid_data (validate_history history)
    map_err invalid_data (validate_maintenance maintenance)
    ok (record s {
      history_policy = history;
      inner = record s.inner {
        conn = register maintenance now s.inner.conn;
        history_config = history;
        maintenance_config = maintenance;
      };
    })

  abbrev pub register_policies : Option StoragePolicies → ℕ → Database F → Database F
  register_policies none now db = db
  register_policies (some p) now db = register p.maintenance now db

  abbrev pub apply_policies : Option StoragePolicies → Storage F → Storage F
  apply_policies none s = s
  apply_policies (some p) s = record s {
    history_policy = p.history;
    inner = record s.inner {
      history_config = p.history;
      maintenance_config = p.maintenance;
      history_retention = p.history_retention;
      usage_sample_retention = some p.usage_retention;
    };
  }

  -- What follows the commit: the generation, the cache and the catalog.
  unfoldable pub publish : List String → Keyed Host → Storage F → Storage F
  publish host_ids map s =
      let kept = retain (λ r. same_address (lookup r.0 s.hosts) (lookup r.0 map)) s.inner.usage in
      record s {
        hosts = map;
        inner = record s.inner {
          generation = add_u64 s.inner.generation 1;
          usage = retain (λ r. any (str_eq r.0) host_ids) kept;
        };
      }

  abbrev pub with_conn : Database F → Storage F → Storage F
  with_conn db s = record s { inner = record s.inner { conn = db } }

  unfoldable pub replace_configuration :
      (String → Bool)
      → (Signature → String)
      → List Host
      → Option StoragePolicies
      → ℕ
      → Storage F
      → Result StorageError (Storage F)
  unfolding to_set host_map publish sync_identities_in_transaction register_jobs
  replace_configuration is_ip_literal to_json hosts policies now s = do
    reject (is_duplicated hosts) (invalid_data "duplicate host ID")
    db ←
        sync_identities_in_transaction is_ip_literal to_json (values (host_map hosts)) now
          s.inner.conn
    ok (
        publish (to_set (ids_of hosts)) (host_map hosts)
          (apply_policies policies (with_conn (register_policies policies now db) s)))

  unfoldable pub update_hosts :
      (String → Bool)
      → (Signature → String)
      → List Host
      → ℕ
      → Storage F
      → Result StorageError (Storage F)
  unfolding replace_configuration
  update_hosts is_ip_literal to_json hosts now s =
      replace_configuration is_ip_literal to_json hosts none now s

  unfoldable pub update_configuration :
      (String → Bool)
      → (Signature → String)
      → List Host
      → StoragePolicies
      → ℕ
      → Storage F
      → Result StorageError (Storage F)
  unfolding replace_configuration validate_history validate_maintenance validate_duration
  update_configuration is_ip_literal to_json hosts p now s = do
    map_err invalid_data (validate_history p.history)
    map_err invalid_data (validate_maintenance p.maintenance)
    check_duration p.usage_retention
    check_duration p.history_retention
    replace_configuration is_ip_literal to_json hosts (some p) now s
