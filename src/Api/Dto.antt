-- ===== src/Api/Dto.antt =====
-- api/dto.rs: what the routes answer of a host, and whether its checks are stale.
use simple_network_monitor.Prelude.{ℕ, String, Bool, ◌||◌, not, Option, none, some, List, [], ◌∷◌}
use simple_network_monitor.Prelude.Float.{FloatOps}
use simple_network_monitor.Domain.Clock.{Duration, DateTime}
use simple_network_monitor.Domain.Icmp.{HostStatus}
use simple_network_monitor.Domain.Usage.{UsageSnapshot, UsageCollectionStatus}
use simple_network_monitor.Domain.Tcp.{
  TcpCheckConfig, TcpSnapshot, ResolvedTcpHostConfig, success, duration, error,
}
use simple_network_monitor.Domain.Host.{MetadataValue, is_fresh, duration_ms}
use simple_network_monitor.Storage.Tables.{Keyed, lookup}
use simple_network_monitor.Storage.Records.{HostRecord}

pub record UsageSnapshotResponse : Type 0 where
  pub collected_at : DateTime
  pub console_users : Option ℕ
  pub remote_users : Option ℕ
  pub status : UsageCollectionStatus
  pub error : Option String

unfoldable pub usage_response : UsageSnapshot → UsageSnapshotResponse
usage_response s = record {
  collected_at = s.collected_at;
  console_users = s.console_users;
  remote_users = s.remote_users;
  status = s.status;
  error = s.error;
}

pub record TcpObservationResponse (F : Type 0) : Type 0 where
  pub observed_at : DateTime
  pub success : Bool
  pub duration_seconds : Option F
  pub error : Option String

pub record TcpCheckResponse (F : Type 0) : Type 0 where
  pub id : String
  pub port : ℕ
  pub enabled : Bool
  pub stale : Bool
  pub observation : Option (TcpObservationResponse F)

pub record HostResponse (F : Type 0) : Type 0 where
  pub id : String
  pub address : String
  pub name : String
  pub groups : List String
  pub metadata : List (String × MetadataValue)
  pub status : HostStatus
  pub last_checked_at : Option DateTime
  pub last_change_at : Option DateTime
  pub latency_ms : Option F
  pub consecutive_successes : ℕ
  pub consecutive_failures : ℕ
  pub last_error : Option String
  pub usage : Option UsageSnapshotResponse
  pub icmp_enabled : Bool
  pub usage_enabled : Bool
  pub icmp_stale : Bool
  pub usage_stale : Bool
  pub tcp : List (TcpCheckResponse F)

abbrev pub usage_at : Option UsageSnapshot → Option DateTime
usage_at none = none
usage_at (some s) = some s.collected_at

abbrev pub tcp_at : Option TcpSnapshot → Option DateTime
tcp_at none = none
tcp_at (some s) = some s.observed_at

abbrev pub usage_responses : Option UsageSnapshot → Option UsageSnapshotResponse
usage_responses none = none
usage_responses (some s) = some (usage_response s)

module _ {F : Type 0} ⦃o : FloatOps F⦄ where
  abbrev pub seconds_of : Option Duration → Option F
  seconds_of none = none
  seconds_of (some d) = some (o.as_secs_f64 d)

  abbrev pub milliseconds_of : Option Duration → Option F
  milliseconds_of none = none
  milliseconds_of (some d) = some (duration_ms d)

  unfoldable pub observation_response : TcpSnapshot → TcpObservationResponse F
  unfolding success duration error
  observation_response s = record {
    observed_at = s.observed_at;
    success = success s;
    duration_seconds = seconds_of (duration s);
    error = error s;
  }

  abbrev pub observations : Option TcpSnapshot → Option (TcpObservationResponse F)
  observations none = none
  observations (some s) = some (observation_response s)

  unfoldable pub tcp_check_response :
      DateTime → ResolvedTcpHostConfig → Keyed TcpSnapshot → TcpCheckConfig → TcpCheckResponse F
  unfolding is_fresh observation_response
  tcp_check_response now config tcp check = record {
    id = check.id.as_str;
    port = check.port;
    enabled = config.enabled;
    stale =
        not config.enabled
        || not (is_fresh (tcp_at (lookup check.id.as_str tcp)) config.interval config.timeout now);
    observation = observations (lookup check.id.as_str tcp);
  }

  -- The map over the checks of the host.
  unfoldable pub tcp_responses :
      DateTime
      → ResolvedTcpHostConfig
      → Keyed TcpSnapshot
      → List TcpCheckConfig
      → List (TcpCheckResponse F)
  unfolding tcp_check_response
  tcp_responses now config tcp [] = []
  tcp_responses now config tcp (c ∷ cs) =
      tcp_check_response now config tcp c ∷ tcp_responses now config tcp cs

  -- `From<HostRecord> for HostResponse`, at the time that it reads from the clock.
  unfoldable pub host_response : DateTime → HostRecord → HostResponse F
  unfolding is_fresh tcp_responses usage_response
  host_response now r = record {
    id = r.host.id;
    address = r.host.address;
    name = r.host.name;
    groups = r.host.groups;
    metadata = r.host.metadata;
    status = r.state.status;
    last_checked_at = r.state.last_checked_at;
    last_change_at = r.state.last_change_at;
    latency_ms = milliseconds_of r.state.latency;
    consecutive_successes = r.state.consecutive_successes;
    consecutive_failures = r.state.consecutive_failures;
    last_error = r.state.last_error;
    usage = usage_responses r.usage;
    icmp_enabled = r.host.modules.icmp.enabled;
    usage_enabled = r.host.modules.usage.enabled;
    icmp_stale =
        not r.host.modules.icmp.enabled
        || not (
            is_fresh r.state.last_checked_at r.host.modules.icmp.interval
              r.host.modules.icmp.timeout now);
    usage_stale =
        not r.host.modules.usage.enabled
        || not (
            is_fresh (usage_at r.usage) r.host.modules.usage.interval r.host.modules.usage.timeout
              now);
    tcp = tcp_responses now r.host.modules.tcp r.tcp r.host.modules.tcp.checks;
  }
