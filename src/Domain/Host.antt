-- ===== src/Domain/Host.antt =====
-- domain/host.rs: a configured host, its runtime state, freshness and validation.
use simple_network_monitor.Prelude.{
  ℕ, ◌-◌, String, Bool, false, ◌&&◌, not, Option, none, some, List, [], ◌∷◌, leb, Result, ok, ◌>>◌,
  reject,
}
use simple_network_monitor.Prelude.Float.{FloatOps}
use simple_network_monitor.Domain.Clock.{Duration, DateTime, saturating_mul, saturating_add}
use simple_network_monitor.Domain.Validation.{validate_duration, validate_address, is_identifier}
use simple_network_monitor.Domain.Icmp.{HostStatus, unknown}
use simple_network_monitor.Domain.Settings.{
  ResolvedIcmpHostConfig, ResolvedUsageHostConfig, default_icmp, default_usage,
}
use simple_network_monitor.Domain.Tcp.{ResolvedTcpHostConfig, default_tcp, validate_tcp}

pub record HostModuleConfig : Type 0 where
  pub icmp : ResolvedIcmpHostConfig
  pub usage : ResolvedUsageHostConfig
  pub tcp : ResolvedTcpHostConfig

abbrev pub default_modules : HostModuleConfig
default_modules = record { icmp = default_icmp; usage = default_usage; tcp = default_tcp }

-- What a metadata field may hold, as far as a filter can match it. A number is kept as the text
-- that it prints; arrays, objects and null match no filter.
pub data MetadataValue : Type 0 where
  text : String → MetadataValue
  boolean : Bool → MetadataValue
  number : String → MetadataValue
  other : MetadataValue

pub record Host : Type 0 where
  pub id : String
  pub address : String
  pub name : String
  pub groups : List String
  pub metadata : List (String × MetadataValue)
  pub modules : HostModuleConfig

pub record HostRuntimeState : Type 0 where
  pub status : HostStatus
  pub last_checked_at : Option DateTime
  pub last_change_at : Option DateTime
  pub latency : Option Duration
  pub consecutive_successes : ℕ
  pub consecutive_failures : ℕ
  pub last_error : Option String

abbrev pub default_state : HostRuntimeState
default_state = record {
  status = unknown;
  last_checked_at = none;
  last_change_at = none;
  latency = none;
  consecutive_successes = 0;
  consecutive_failures = 0;
  last_error = none;
}

unfoldable pub duration_ms : {F : Type 0} ⦃o : FloatOps F⦄ → Duration → F
duration_ms ⦃o⦄ d = o.mul (o.as_secs_f64 d) (o.literal 1000 1)

-- `(now - observed).to_std()` fails only on a negative span, which the first test has excluded.
unfoldable pub is_fresh : Option DateTime → Duration → Duration → DateTime → Bool
is_fresh none interval timeout now = false
is_fresh (some observed) interval timeout now =
    leb observed now && leb (now - observed) (saturating_add (saturating_mul interval 2) timeout)

-- The loop over the four durations.
unfoldable pub validate_durations : List Duration → Result String (Unit {0})
unfolding validate_duration
validate_durations [] = ok tt
validate_durations (d ∷ ds) = do validate_duration d; validate_durations ds

unfoldable pub validate_host : (String → Bool) → Host → Result String (Unit {0})
unfolding is_identifier validate_address validate_durations validate_tcp
validate_host is_ip_literal h = do
  reject (not (is_identifier h.id)) "invalid host ID"
  validate_address is_ip_literal h.address
  validate_durations (
      h.modules.icmp.interval ∷ h.modules.icmp.timeout ∷ h.modules.usage.interval
      ∷ h.modules.usage.timeout ∷ [])
  validate_tcp h.modules.tcp
