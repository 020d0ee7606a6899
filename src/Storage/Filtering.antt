-- ===== src/Storage/Filtering.antt =====
-- storage/sqlite/queries.rs and tcp.rs: which hosts a filter lets through, on tables that answer.
-- `from_ms` is `Duration::try_from_secs_f64` of the milliseconds over a thousand.
pub mod Inactive
use simple_network_monitor.Prelude.{
  ℕ, ◌+◌, max, String, Bool, true, false, not, ◌&&◌, ◌||◌, Option, none, some, List, [], ◌∷◌, leb,
  ltb, ◌==◌, str_eq, any, all, is_some, unwrap_or, Result, ok, err, ◌>>=◌, map_err, if◌then◌else◌,
}
use simple_network_monitor.Domain.Clock.{Duration, DateTime, add_u64}
use simple_network_monitor.Domain.Icmp.{HostStatus}
use simple_network_monitor.Domain.Usage.{UsageSnapshot, collected, failed, status_eq}
use simple_network_monitor.Domain.Tcp.{TcpCheckConfig, TcpSnapshot}
use simple_network_monitor.Domain.Host.{
  Host, HostRuntimeState, default_state, MetadataValue, text, boolean, number, other, is_fresh,
}
use simple_network_monitor.Domain.Filters.{UsageFilter, HostFilter, is_empty}
use simple_network_monitor.Domain.Inactivity.{
  ActivityPredicate, console_only, any_user, InactivityError, invalid_duration, storage,
  evaluate_inactivity, sqlite_history,
}
use simple_network_monitor.Storage.Errors.{StorageError, invalid_data}
use simple_network_monitor.Storage.Tables.{
  Keyed, lookup, upsert, StatusRow, Coverage, TcpRow, Database, Chrono,
}
use simple_network_monitor.Storage.Updates.{checked_cutoff, status_same}

unfoldable pub map_inactivity_error : InactivityError StorageError → StorageError
map_inactivity_error (invalid_duration message) = invalid_data message
map_inactivity_error (storage e) = e

-- `.max().unwrap_or_default()` of the durations asked for.
abbrev pub longest : Option Duration → Option Duration → Duration
longest none none = 0
longest (some d) none = d
longest none (some e) = e
longest (some d) (some e) = max d e

-- `NOT EXISTS(SELECT 1 FROM retention_floor WHERE cutoff > ?2)`.
abbrev pub above_floor : DateTime → Option DateTime → Bool
above_floor cutoff none = true
above_floor cutoff (some floor) = leb floor cutoff

abbrev pub covers : DateTime → Option Coverage → Bool
covers cutoff none = false
covers cutoff (some c) = leb c.started_at cutoff

-- `if !test { return Ok(false); }`.
abbrev pub and_then : Result StorageError Bool → Result StorageError Bool → Result StorageError Bool
and_then m k = m >>= λ b. if b then k else ok false

abbrev pub usage_status_matches : UsageFilter → UsageSnapshot → Bool
usage_status_matches f snapshot = elim f.status [
  | none ↦ true
  | some status ↦ status_eq snapshot.status status
]

module _ {F : Type 0} where
  unfoldable pub is_covered : Database F → String → DateTime → Bool
  is_covered db host cutoff =
      covers cutoff (lookup host db.usage_coverage) && above_floor cutoff db.retention_floor

  -- The block on freshness and coverage: whether the evaluation goes on.
  unfoldable pub window_covered :
      Chrono → Database F → Host → UsageSnapshot → UsageFilter → Result StorageError Bool
  unfolding checked_cutoff is_covered is_fresh
  window_covered chrono db host snapshot f =
      if not (is_some f.inactive_console_for || is_some f.no_users_for)
      then ok true
      else if not host.modules.usage.enabled
          || not (
              is_fresh (some snapshot.collected_at) host.modules.usage.interval
                host.modules.usage.timeout f.now)
      then ok false
      else do
        cutoff ← checked_cutoff chrono f.now (longest f.inactive_console_for f.no_users_for)
        ok (is_covered db host.id cutoff)

  -- `if let Some(duration) = … { evaluate_inactivity(…) }`.
  unfoldable pub inactive_for :
      Database F
      → Host
      → UsageSnapshot
      → DateTime
      → ActivityPredicate
      → Option Duration
      → Result StorageError Bool
  unfolding evaluate_inactivity sqlite_history map_inactivity_error
  inactive_for db host snapshot now p none = ok true
  inactive_for db host snapshot now p (some d) =
      map_err map_inactivity_error
        (evaluate_inactivity snapshot d now p (sqlite_history db.usage_history.rows host.id))

  unfoldable pub matches_usage_filter :
      Chrono → Database F → Host → UsageSnapshot → UsageFilter → Result StorageError Bool
  unfolding window_covered inactive_for
  matches_usage_filter chrono db host snapshot f = and_then (ok (usage_status_matches f snapshot)) (
      and_then (window_covered chrono db host snapshot f) (
        and_then (inactive_for db host snapshot f.now console_only f.inactive_console_for)
          (inactive_for db host snapshot f.now any_user f.no_users_for)))
