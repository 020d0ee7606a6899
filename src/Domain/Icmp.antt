-- ===== src/Domain/Icmp.antt =====
-- domain/icmp.rs: host status, the outcome of a ping, and the recorded change of status.
use simple_network_monitor.Prelude.{ℕ, String, Option, str_eq, Result, ok, err, if◌then◌else◌}
use simple_network_monitor.Domain.Clock.{Duration, DateTime}

pub data HostStatus : Type 0 where
  unknown up down : HostStatus

unfoldable pub status_as_str : HostStatus → String
status_as_str unknown = "unknown"
status_as_str up = "up"
status_as_str down = "down"

-- The error stands for the message, which quotes the text.
unfoldable pub status_try_from : String → Result String HostStatus
status_try_from value =
    if str_eq value "unknown"
    then ok unknown
    else if str_eq value "up"
    then ok up
    else if str_eq value "down"
    then ok down
    else err value

-- `std::net::IpAddr`.
pub data IpAddr : Type 0 where
  v4 v6 : ℕ → IpAddr

pub record PingOutcome : Type 0 where
  pub address : Option IpAddr
  pub latency : Duration

pub record CheckFailure : Type 0 where
  pub message : String

pub record IcmpTransition (F : Type 0) : Type 0 where
  pub id : Option ℕ
  pub host_id : String
  pub previous_status : HostStatus
  pub new_status : HostStatus
  pub changed_at : DateTime
  pub latency_ms : Option F
  pub error : Option String
  pub backend : String
  pub reason : String
