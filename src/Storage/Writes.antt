-- ===== src/Storage/Writes.antt =====
-- storage/sqlite/mod.rs and tcp.rs: `update_usage`, `update_tcp`, and a write of any kind, which the
-- monitors send through their handle.
pub mod Caching
pub mod Coherence
pub mod Fencing
use simple_network_monitor.Prelude.{
  ℕ, String, Bool, true, false, ◌&&◌, not, Option, none, some, List, [], ◌∷◌, ◌==◌, str_eq, Result,
  ok, err, ◌>>=◌, ◌>>◌, map_err, if◌then◌else◌,
}
use simple_network_monitor.Prelude.Float.{FloatOps}
use simple_network_monitor.Domain.Clock.{DateTime, timestamp_millis}
use simple_network_monitor.Domain.Icmp.{IcmpTransition}
use simple_network_monitor.Domain.Usage.{UsageSnapshot, validate_snapshot, differs_for_history}
use simple_network_monitor.Domain.Tcp.{
  CheckId, TcpCheckConfig, ResolvedTcpHostConfig, TcpSnapshot, success, duration, error,
}
use simple_network_monitor.Domain.Host.{Host, HostRuntimeState}
use simple_network_monitor.History.Ingest.{record_observation}
use simple_network_monitor.Storage.Errors.{StorageError, invalid_data, not_found}
use simple_network_monitor.Storage.Tables.{lookup, upsert, TcpRow, Database, Inner, Storage, Chrono}
use simple_network_monitor.Storage.Reconfigure.{with_inner, ensure_host_exists}
use simple_network_monitor.Storage.Updates.{
  update_coverage, insert_usage_row, usage_observation, prune_samples, should_insert_history,
  tcp_observation, update_check_result,
}

-- `host.modules.tcp.checks.iter().find(…)`.
unfoldable pub find_check :
    CheckId → ResolvedTcpHostConfig → List TcpCheckConfig → Option TcpCheckConfig
find_check id tcp [] = none
find_check id tcp (c ∷ cs) =
    if str_eq c.id.as_str id.as_str && tcp.enabled then some c else find_check id tcp cs

unfoldable pub upsert_tcp : TcpRow → List TcpRow → List TcpRow
upsert_tcp row [] = row ∷ []
upsert_tcp row (r ∷ rs) =
    if str_eq r.host_id row.host_id && str_eq r.check_id row.check_id
    then row ∷ rs
    else r ∷ upsert_tcp row rs

abbrev pub host_or_missing : String → Option Host → Result StorageError Host
host_or_missing id none = err (not_found id)
host_or_missing id (some h) = ok h

abbrev pub check_or_missing : CheckId → Host → Result StorageError TcpCheckConfig
check_or_missing id h = elim (find_check id h.modules.tcp h.modules.tcp.checks) [
  | none ↦ err (invalid_data "TCP check is absent or disabled")
  | some c ↦ ok c
]

module _ {F : Type 0} ⦃o : FloatOps F⦄ where
  -- The tables that the transaction of `update_usage` writes before it prunes the samples.
  unfoldable pub write_usage :
      Host → String → UsageSnapshot → Bool → DateTime → Database F → Database F
  unfolding update_coverage insert_usage_row usage_observation record_observation
  write_usage host host_id s fresh now db = record db {
    usage_coverage = update_coverage host s db.usage_coverage;
    latest_usage = upsert host_id s db.latest_usage;
    usage_samples = insert_usage_row host_id s db.usage_samples;
    history =
        record_observation host_id "usage" "" (timestamp_millis s.collected_at)
          (usage_observation s) (timestamp_millis now) db.history;
    usage_history = if fresh then insert_usage_row host_id s db.usage_history else db.usage_history;
  }

  -- What `update_usage` does behind the writer mutex.
  unfoldable pub store_usage :
      Chrono
      → Host
      → String
      → UsageSnapshot
      → DateTime
      → Inner F
      → Result StorageError (Bool × Inner F)
  unfolding write_usage prune_samples differs_for_history
  store_usage chrono host host_id s now inner =
      let fresh = should_insert_history s (lookup host_id inner.usage) in
      let db : Database F = write_usage host host_id s fresh now inner.conn in
      do
        samples ← prune_samples chrono host_id now inner.usage_sample_retention db.usage_samples
        ok (
          fresh,
          record inner {
            conn = record db { usage_samples = samples };
            usage = upsert host_id s inner.usage;
          },
        )

  unfoldable pub update_usage :
      Chrono
      → Option ℕ
      → String
      → UsageSnapshot
      → DateTime
      → Storage F
      → Result StorageError (Bool × Storage F)
  unfolding ensure_host_exists validate_snapshot with_inner store_usage
  update_usage chrono handle host_id snapshot now s = do
    ensure_host_exists host_id s
    map_err invalid_data (validate_snapshot snapshot)
    host ← host_or_missing host_id (lookup host_id s.hosts)
    with_inner handle (store_usage chrono host host_id snapshot now) s

  unfoldable pub write_tcp : Host → CheckId → ℕ → TcpSnapshot → DateTime → Database F → Database F
  unfolding record_observation tcp_observation upsert_tcp
  write_tcp h id port s now db = record db {
    history =
        record_observation h.id "tcp" id.as_str (timestamp_millis s.observed_at) (tcp_observation s)
          (timestamp_millis now) db.history;
    latest_tcp =
        upsert_tcp
          (record {
            host_id = h.id;
            check_id = id.as_str;
            address = h.address;
            port = port;
            snapshot = s;
          })
          db.latest_tcp;
  }

  -- What `update_tcp` does behind the writer mutex.
  unfoldable pub store_tcp :
      Host
      → CheckId
      → ℕ
      → TcpSnapshot
      → DateTime
      → Inner F
      → Result StorageError (Unit {0} × Inner F)
  unfolding write_tcp
  store_tcp h id port snapshot now inner =
      ok (tt, record inner { conn = write_tcp h id port snapshot now inner.conn })

  unfoldable pub update_tcp :
      Option ℕ
      → String
      → CheckId
      → TcpSnapshot
      → DateTime
      → Storage F
      → Result StorageError (Unit {0} × Storage F)
  unfolding find_check with_inner store_tcp
  update_tcp handle host_id id snapshot now s = do
    h ← host_or_missing host_id (lookup host_id s.hosts)
    check ← check_or_missing id h
    with_inner handle (store_tcp h id check.port snapshot now) s

-- A write of a monitor.
pub data Write (F : Type 0) : Type 0 where
  check_result : String → HostRuntimeState → Option (IcmpTransition F) → Write F
  usage : String → UsageSnapshot → Write F
  tcp : String → CheckId → TcpSnapshot → Write F

abbrev pub done :
    {A : Type 0} {F : Type 0}
    → Result StorageError (A × Storage F)
    → Result StorageError (Storage F)
done r = elim r [ ok p ↦ ok p.1 | err e ↦ err e ]

unfoldable pub perform :
    {F : Type 0} ⦃o : FloatOps F⦄
    → Chrono
    → Option ℕ
    → Write F
    → DateTime
    → Storage F
    → Result StorageError (Storage F)
unfolding update_check_result update_usage update_tcp
perform chrono handle (check_result host state transition) now s =
    done (update_check_result handle host state transition now s)
perform chrono handle (usage host snapshot) now s =
    done (update_usage chrono handle host snapshot now s)
perform chrono handle (tcp host id snapshot) now s = done (update_tcp handle host id snapshot now s)
