-- ===== src/Storage/Records.antt =====
-- storage/sqlite/queries.rs, rows.rs and tcp.rs: the records of the hosts that a filter lets through.
-- `from_ms` is `Duration::try_from_secs_f64` of the milliseconds over a thousand.
pub mod Readback
use simple_network_monitor.Prelude.{
  ℕ, ◌+◌, String, Bool, true, false, ◌&&◌, Option, none, some, List, [], ◌∷◌, ◌==◌, str_eq, any,
  all, unwrap_or, Result, ok, err, ◌>>=◌, if◌then◌else◌,
}
use simple_network_monitor.Domain.Clock.{Duration, add_u64}
use simple_network_monitor.Domain.Usage.{UsageSnapshot, collected, failed}
use simple_network_monitor.Domain.Tcp.{TcpCheckConfig, TcpSnapshot}
use simple_network_monitor.Domain.Host.{
  Host, HostRuntimeState, default_state, MetadataValue, text, boolean, number, other,
}
use simple_network_monitor.Domain.Filters.{HostFilter, is_empty}
use simple_network_monitor.Storage.Errors.{StorageError, invalid_data}
use simple_network_monitor.Storage.Tables.{
  Keyed, lookup, upsert, StatusRow, TcpRow, Database, Chrono,
}
use simple_network_monitor.Storage.Updates.{status_same}
use simple_network_monitor.Storage.Filtering.{and_then, matches_usage_filter}

pub record HostRecord : Type 0 where
  pub host : Host
  pub state : HostRuntimeState
  pub usage : Option UsageSnapshot
  pub tcp : Keyed TcpSnapshot

unfoldable pub metadata_value_matches : MetadataValue → String → Bool
metadata_value_matches (text value) expected = str_eq value expected
metadata_value_matches (boolean true) expected = str_eq "true" expected
metadata_value_matches (boolean false) expected = str_eq "false" expected
metadata_value_matches (number value) expected = str_eq value expected
metadata_value_matches other expected = false

-- The row is a result for the present target of the host.
unfoldable pub is_target : Host → TcpRow → TcpCheckConfig → Bool
is_target h r c = str_eq c.id.as_str r.check_id && c.port == r.port

-- `load` with the id of a host.
unfoldable pub load_host : Host → List TcpRow → Keyed TcpSnapshot
unfolding is_target
load_host h [] = []
load_host h (r ∷ rs) =
    let rest = load_host h rs in
    if str_eq r.host_id h.id
      && str_eq h.address r.address
      && h.modules.tcp.enabled
      && any (is_target h r) h.modules.tcp.checks
    then upsert r.check_id r.snapshot rest
    else rest

abbrev pub icmp_status_matches : HostFilter → HostRecord → Bool
icmp_status_matches f r = elim f.icmp_status [
  | none ↦ true
  | some status ↦ status_same r.state.status status
]

abbrev pub group_matches : HostFilter → HostRecord → Bool
group_matches f r = elim f.group [ none ↦ true | some g ↦ any (str_eq g) r.host.groups ]

abbrev pub field_matches : HostRecord → String × String → Bool
field_matches r p = elim (lookup p.0 r.host.metadata) [
  | none ↦ false
  | some actual ↦ metadata_value_matches actual p.1
]

module _ {F : Type 0} where
  unfoldable pub matches_host_filter :
      Chrono → Database F → HostRecord → HostFilter → Result StorageError Bool
  unfolding matches_usage_filter metadata_value_matches
  matches_host_filter chrono db r f = and_then (ok (icmp_status_matches f r)) (
      and_then (ok (group_matches f r)) (
        and_then (ok (all (field_matches r) f.metadata)) (
          if is_empty f.usage then ok true else elim r.usage [
            | none ↦ ok false
            | some snapshot ↦ matches_usage_filter chrono db r.host snapshot f.usage
          ])))

  abbrev pub to_latency : (F → Option Duration) → Option F → Result StorageError (Option Duration)
  to_latency from_ms none = ok none
  to_latency from_ms (some ms) = elim (from_ms ms) [
    | none ↦ err (invalid_data "invalid latency")
    | some d ↦ ok (some d)
  ]

  unfoldable pub runtime_state_from_row :
      (F → Option Duration) → StatusRow F → Result StorageError HostRuntimeState
  runtime_state_from_row from_ms r = do
    latency ← to_latency from_ms r.latency_ms
    ok (record {
      status = r.status;
      last_checked_at = r.last_checked_at;
      last_change_at = r.last_change_at;
      latency = latency;
      consecutive_successes = r.consecutive_successes;
      consecutive_failures = r.consecutive_failures;
      last_error = r.last_error;
    })

  abbrev pub state_or_default :
      (F → Option Duration) → Option (StatusRow F) → Result StorageError HostRuntimeState
  state_or_default from_ms none = ok default_state
  state_or_default from_ms (some r) = runtime_state_from_row from_ms r

  unfoldable pub host_record :
      (F → Option Duration) → Database F → Host → Result StorageError HostRecord
  unfolding runtime_state_from_row load_host
  host_record from_ms db h = do
    state ← state_or_default from_ms (lookup h.id db.latest_status)
    ok (record {
      host = h;
      state = state;
      usage = lookup h.id db.latest_usage;
      tcp = load_host h db.latest_tcp;
    })

  -- `load_all_latest_states`.
  unfoldable pub load_states :
      (F → Option Duration) → Keyed (StatusRow F) → Result StorageError (Keyed HostRuntimeState)
  unfolding runtime_state_from_row
  load_states from_ms [] = ok []
  load_states from_ms ((id, r) ∷ rows) = do
    state ← runtime_state_from_row from_ms r
    rest ← load_states from_ms rows
    ok ((id, state) ∷ rest)

  abbrev pub loaded_record : Database F → Keyed HostRuntimeState → Host → HostRecord
  loaded_record db states h = record {
    host = h;
    state = unwrap_or (lookup h.id states) default_state;
    usage = lookup h.id db.latest_usage;
    tcp = load_host h db.latest_tcp;
  }

  -- The loop over the hosts, which are in the order of their ids.
  unfoldable pub matching :
      Chrono
      → Database F
      → Keyed HostRuntimeState
      → HostFilter
      → List Host
      → Result StorageError (List HostRecord)
  unfolding matches_host_filter load_host
  matching chrono db states f [] = ok []
  matching chrono db states f (h ∷ hs) = do
    matches ← matches_host_filter chrono db (loaded_record db states h) f
    rest ← matching chrono db states f hs
    ok (if matches then loaded_record db states h ∷ rest else rest)

  unfoldable pub sorted_records :
      Chrono
      → (F → Option Duration)
      → Database F
      → List Host
      → HostFilter
      → Result StorageError (List HostRecord)
  unfolding matching load_states
  sorted_records chrono from_ms db hosts f = do
    states ← load_states from_ms db.latest_status
    matching chrono db states f hosts

pub record UsageSummary : Type 0 where
  pub hosts_reporting : ℕ
  pub hosts_with_errors : ℕ
  pub console_users : ℕ
  pub remote_users : ℕ

abbrev pub count_snapshot : UsageSnapshot → UsageSummary → UsageSummary
count_snapshot s u = elim s.status [
  | collected ↦ record u {
    hosts_reporting = u.hosts_reporting + 1;
    console_users = add_u64 u.console_users (unwrap_or s.console_users 0);
    remote_users = add_u64 u.remote_users (unwrap_or s.remote_users 0);
  }
  | failed ↦ record u {
    hosts_reporting = u.hosts_reporting + 1;
    hosts_with_errors = u.hosts_with_errors + 1;
  }
]

-- The loop over the snapshots, from the summary so far.
unfoldable pub usage_summary : UsageSummary → List UsageSnapshot → UsageSummary
usage_summary u [] = u
usage_summary u (s ∷ ss) = usage_summary (count_snapshot s u) ss
