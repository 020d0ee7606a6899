-- ===== src/Storage/Updates.antt =====
-- storage/sqlite/mod.rs, tcp.rs, maintenance.rs and queries.rs: the writes of the monitors. `now` is
-- the wall clock that the call reads.
pub mod Retried
use simple_network_monitor.Prelude.{
  ℕ, suc, String, Bool, true, false, not, ◌&&◌, Option, none, some, List, [], ◌∷◌, ◌++◌, ltb, ◌==◌,
  str_eq, any, is_none, retain, Result, ok, err, ◌>>=◌, ◌>>◌, map_err, unwrap_or, if◌then◌else◌,
}
use simple_network_monitor.Prelude.Float.{FloatOps}
use simple_network_monitor.Domain.Clock.{Duration, DateTime, timestamp_millis}
use simple_network_monitor.Domain.Icmp.{
  IcmpTransition, HostStatus, unknown, up, down, status_as_str,
}
use simple_network_monitor.Domain.Usage.{
  UsageSnapshot, validate_snapshot, differs_for_history, status_eq, collected,
}
use simple_network_monitor.Domain.Tcp.{
  CheckId, TcpCheckConfig, TcpSnapshot, success, duration, error,
}
use simple_network_monitor.Domain.Host.{Host, HostRuntimeState, duration_ms, is_fresh}
use simple_network_monitor.Domain.History.Stats.{HistoryObservation}
use simple_network_monitor.Domain.Inactivity.{UsageRow}
use simple_network_monitor.History.Ingest.{record_observation}
use simple_network_monitor.Storage.Errors.{StorageError, invalid_data, not_found}
use simple_network_monitor.Storage.Tables.{
  Keyed, lookup, upsert, StatusRow, Numbered, Coverage, TcpRow, Database, Inner, Storage, Chrono,
}
use simple_network_monitor.Storage.Reconfigure.{with_inner, ensure_host_exists}

abbrev pub status_same : HostStatus → HostStatus → Bool
status_same unknown unknown = true
status_same up up = true
status_same down down = true
status_same _ _ = false

unfoldable pub checked_cutoff : Chrono → DateTime → Duration → Result StorageError DateTime
checked_cutoff chrono now d = elim (chrono.from_std d) [
  | none ↦ err (invalid_data "invalid retention duration")
  | some delta ↦ elim (chrono.checked_sub_signed now delta) [
    | none ↦ err (invalid_data "duration exceeds supported date range")
    | some cutoff ↦ ok cutoff
  ]
]

-- The start of the coverage that goes on, where the last observation is still fresh.
abbrev pub continued : Host → DateTime → Option Coverage → Option DateTime
continued h observed none = none
continued h observed (some c) =
    if is_fresh (some c.observed_at) h.modules.usage.interval h.modules.usage.timeout observed
    then some c.started_at
    else none

unfoldable pub update_coverage : Host → UsageSnapshot → Keyed Coverage → Keyed Coverage
unfolding is_fresh
update_coverage h snapshot table =
    let started =
      unwrap_or (continued h snapshot.collected_at (lookup h.id table)) snapshot.collected_at in
    upsert h.id (record { started_at = started; observed_at = snapshot.collected_at }) table

unfoldable pub insert_usage_row : String → UsageSnapshot → Numbered UsageRow → Numbered UsageRow
insert_usage_row host s table = record {
  rows =
      table.rows
      ++ record {
        id = suc table.last_id;
        host_id = host;
        collected_at = s.collected_at;
        console_users = s.console_users;
        remote_users = s.remote_users;
        status = s.status;
        error = s.error;
      }
        ∷ [];
  last_id = suc table.last_id;
}

unfoldable pub usage_observation : {F : Type 0} → UsageSnapshot → HistoryObservation F
usage_observation s = record {
  state = if status_eq s.status collected then "up" else "unknown";
  success = status_eq s.status collected;
  latency_ms = none;
  console_users = s.console_users;
  remote_users = s.remote_users;
  error = s.error;
}

-- `DELETE FROM usage_samples WHERE host_id = ?1 AND collected_at < ?2`.
abbrev pub delete_samples : String → DateTime → Numbered UsageRow → Numbered UsageRow
delete_samples host cutoff table = record table {
  rows = retain (λ r. not (str_eq r.host_id host && ltb r.collected_at cutoff)) table.rows;
}

unfoldable pub prune_samples :
    Chrono
    → String
    → DateTime
    → Option Duration
    → Numbered UsageRow
    → Result StorageError (Numbered UsageRow)
unfolding checked_cutoff
prune_samples chrono host now none table = ok table
prune_samples chrono host now (some retention) table = do
  cutoff ← checked_cutoff chrono now retention
  ok (delete_samples host cutoff table)

-- `previous` is the cached snapshot.
abbrev pub should_insert_history : UsageSnapshot → Option UsageSnapshot → Bool
should_insert_history s none = true
should_insert_history s (some previous) = differs_for_history s previous

module _ {F : Type 0} where
  -- `SELECT EXISTS(SELECT 1 FROM transitions WHERE …)`.
  abbrev pub same_event : IcmpTransition F → IcmpTransition F → Bool
  same_event event r =
      str_eq r.host_id event.host_id
      && r.changed_at == event.changed_at
      && status_same r.previous_status event.previous_status
      && status_same r.new_status event.new_status

  unfoldable pub insert_transition :
      IcmpTransition F → Numbered (IcmpTransition F) → Numbered (IcmpTransition F)
  insert_transition event table = if any (same_event event) table.rows then table else record {
    rows = table.rows ++ record event { id = some (suc table.last_id) } ∷ [];
    last_id = suc table.last_id;
  }

  unfoldable pub add_transition :
      Option (IcmpTransition F) → Numbered (IcmpTransition F) → Numbered (IcmpTransition F)
  unfolding insert_transition
  add_transition none table = table
  add_transition (some event) table = insert_transition event table

module _ {F : Type 0} ⦃o : FloatOps F⦄ where
  abbrev pub latency_ms : Option Duration → Option F
  latency_ms none = none
  latency_ms (some d) = some (duration_ms d)

  unfoldable pub status_row : HostRuntimeState → StatusRow F
  unfolding duration_ms
  status_row state = record {
    status = state.status;
    last_checked_at = state.last_checked_at;
    last_change_at = state.last_change_at;
    latency_ms = latency_ms state.latency;
    consecutive_successes = state.consecutive_successes;
    consecutive_failures = state.consecutive_failures;
    last_error = state.last_error;
  }

  unfoldable pub icmp_observation : HostRuntimeState → HistoryObservation F
  unfolding status_as_str duration_ms
  icmp_observation state = record {
    state = status_as_str state.status;
    success = is_none state.last_error;
    latency_ms = latency_ms state.latency;
    console_users = none;
    remote_users = none;
    error = state.last_error;
  }

  -- `if let Some(at) = state.last_checked_at`.
  abbrev pub record_check :
      String → HostRuntimeState → Option DateTime → DateTime → Database F → Database F
  record_check host state none now db = db
  record_check host state (some at) now db = record db {
    history =
        record_observation host "icmp" "" (timestamp_millis at) (icmp_observation state)
          (timestamp_millis now) db.history;
  }

  -- The transaction of `update_check_result`.
  unfoldable pub write_check_result :
      String → HostRuntimeState → Option (IcmpTransition F) → DateTime → Database F → Database F
  unfolding record_observation icmp_observation status_row add_transition
  write_check_result host state transition now db =
      let stored : Database F = record db {
        latest_status = upsert host (status_row state) db.latest_status;
      } in
      let recorded = record_check host state state.last_checked_at now stored in
      record recorded { transitions = add_transition transition recorded.transitions }

  -- What `update_check_result` does behind the writer mutex.
  unfoldable pub store_check_result :
      String
      → HostRuntimeState
      → Option (IcmpTransition F)
      → DateTime
      → Inner F
      → Result StorageError (Unit {0} × Inner F)
  unfolding write_check_result
  store_check_result host state transition now inner =
      ok (tt, record inner { conn = write_check_result host state transition now inner.conn })

  unfoldable pub update_check_result :
      Option ℕ
      → String
      → HostRuntimeState
      → Option (IcmpTransition F)
      → DateTime
      → Storage F
      → Result StorageError (Unit {0} × Storage F)
  unfolding ensure_host_exists with_inner store_check_result
  update_check_result handle host state transition now s = do
    ensure_host_exists host s
    with_inner handle (store_check_result host state transition now) s

  unfoldable pub tcp_observation : TcpSnapshot → HistoryObservation F
  unfolding success duration error duration_ms
  tcp_observation s = record {
    state = if success s then "up" else "down";
    success = success s;
    latency_ms = latency_ms (duration s);
    console_users = none;
    remote_users = none;
    error = error s;
  }
