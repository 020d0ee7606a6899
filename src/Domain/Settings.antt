-- ===== src/Domain/Settings.antt =====
-- domain/settings.rs: the settings of a host after the module defaults are filled in.
use simple_network_monitor.Prelude.{ℕ, Bool, true, false}
use simple_network_monitor.Domain.Clock.{Duration, from_secs}
use simple_network_monitor.Domain.Usage.{UsageOs, auto}

pub record ResolvedIcmpHostConfig : Type 0 where
  pub enabled : Bool
  pub interval : Duration
  pub timeout : Duration

pub record ResolvedUsageHostConfig : Type 0 where
  pub enabled : Bool
  pub os : UsageOs
  pub ssh_verify_host_key : Bool
  pub interval : Duration
  pub timeout : Duration
  pub linux_min_uid : ℕ
  pub macos_min_uid : ℕ

abbrev pub default_icmp : ResolvedIcmpHostConfig
default_icmp = record { enabled = true; interval = from_secs 30; timeout = from_secs 1 }

abbrev pub default_usage : ResolvedUsageHostConfig
default_usage = record {
  enabled = false;
  os = auto;
  ssh_verify_host_key = true;
  interval = from_secs 300;
  timeout = from_secs 5;
  linux_min_uid = 1000;
  macos_min_uid = 500;
}
