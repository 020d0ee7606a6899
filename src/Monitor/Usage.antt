-- ===== src/Monitor/Usage.antt =====
-- modules/usage/monitor.rs: one collection of a host, and how it is stored. The collector is an
-- argument: it runs ssh, and answers counts of 32 bits or the message of a failure.
pub mod Stored
use simple_network_monitor.Prelude.{ℕ, String, Bool, Option, Result, ok, err}
use simple_network_monitor.Prelude.Float.{FloatOps}
use simple_network_monitor.Domain.Clock.{Duration, DateTime}
use simple_network_monitor.Domain.Usage.{
  UsageOs, UsageCollectionStatus, UsageSnapshot, status_eq, collected, success_snapshot,
  error_snapshot,
}
use simple_network_monitor.Domain.Host.{Host}
use simple_network_monitor.Storage.Errors.{StorageError}
use simple_network_monitor.Storage.Tables.{Storage, Chrono}
use simple_network_monitor.Storage.Writes.{update_usage}

pub record UsageCollectionRequest : Type 0 where
  pub host_id : String
  pub address : String
  pub os : UsageOs
  pub ssh_verify_host_key : Bool
  pub timeout : Duration
  pub linux_min_uid : ℕ
  pub macos_min_uid : ℕ

pub record UsageCounts : Type 0 where
  pub console_users : ℕ
  pub remote_users : ℕ

pub record UsageFailure : Type 0 where
  pub message : String

abbrev pub Collector : Type 0
Collector = UsageCollectionRequest → Result UsageFailure UsageCounts

unfoldable pub request_of : Host → UsageCollectionRequest
request_of h = record {
  host_id = h.id;
  address = h.address;
  os = h.modules.usage.os;
  ssh_verify_host_key = h.modules.usage.ssh_verify_host_key;
  timeout = h.modules.usage.timeout;
  linux_min_uid = h.modules.usage.linux_min_uid;
  macos_min_uid = h.modules.usage.macos_min_uid;
}

abbrev pub snapshot_of : DateTime → Result UsageFailure UsageCounts → UsageSnapshot
snapshot_of at (ok counts) = success_snapshot at counts.console_users counts.remote_users
snapshot_of at (err failure) = error_snapshot at failure.message

unfoldable pub collect_once : Collector → DateTime → Host → UsageSnapshot
unfolding request_of success_snapshot error_snapshot
collect_once collect at h = snapshot_of at (collect (request_of h))

-- `observe`: the snapshot, and whether the collection succeeded.
unfoldable pub observe : Collector → DateTime → Host → UsageSnapshot × Bool
unfolding collect_once
observe collect at h =
    let snapshot = collect_once collect at h in (snapshot, status_eq snapshot.status collected)

-- `persist`, without the line in the log.
unfoldable pub persist :
    {F : Type 0} ⦃o : FloatOps F⦄
    → Chrono
    → Option ℕ
    → Host
    → UsageSnapshot
    → DateTime
    → Storage F
    → Result StorageError (Bool × Storage F)
unfolding update_usage
persist chrono handle h snapshot now s = update_usage chrono handle h.id snapshot now s
