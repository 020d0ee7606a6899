-- ===== src/Config/Modules.antt =====
-- modules/icmp/mod.rs, modules/usage/mod.rs, modules/tcp/mod.rs: the settings of a module, those of
-- a host, and how a host's are resolved.
use simple_network_monitor.Prelude.{ℕ, Bool, Option, none, some, List, unwrap_or}
use simple_network_monitor.Domain.Clock.{Duration}
use simple_network_monitor.Domain.Usage.{UsageOs, auto}
use simple_network_monitor.Domain.Settings.{ResolvedIcmpHostConfig, ResolvedUsageHostConfig}
use simple_network_monitor.Domain.Tcp.{TcpCheckConfig, ResolvedTcpHostConfig}

pub data BackendKind : Type 0 where
  automatic raw system : BackendKind

pub record IcmpModuleConfig : Type 0 where
  pub enabled : Bool
  pub backend : BackendKind
  pub interval : Duration
  pub timeout : Duration
  pub concurrency : ℕ
  pub failure_threshold : ℕ
  pub success_threshold : ℕ

pub record IcmpHostConfig : Type 0 where
  pub enabled : Option Bool
  pub interval : Option Duration
  pub timeout : Option Duration

unfoldable pub resolve_icmp : IcmpModuleConfig → IcmpHostConfig → ResolvedIcmpHostConfig
resolve_icmp c host = record {
  enabled = unwrap_or host.enabled c.enabled;
  interval = unwrap_or host.interval c.interval;
  timeout = unwrap_or host.timeout c.timeout;
}

pub record UsageModuleConfig : Type 0 where
  pub enabled : Bool
  pub interval : Duration
  pub timeout : Duration
  pub concurrency : ℕ
  pub ssh_verify_host_key : Bool
  pub sample_retention : Duration
  pub linux_min_uid : ℕ
  pub macos_min_uid : ℕ

pub record UsageHostConfig : Type 0 where
  pub enabled : Option Bool
  pub os : Option UsageOs
  pub ssh_verify_host_key : Option Bool
  pub interval : Option Duration
  pub timeout : Option Duration
  pub linux_min_uid : Option ℕ
  pub macos_min_uid : Option ℕ

-- `Option::or`.
abbrev pub or_else {ℓ} : {A : Type ℓ} → Option A → Option A → Option A
or_else none b = b
or_else (some a) b = some a

unfoldable pub resolve_usage :
    UsageModuleConfig → UsageHostConfig → Option Bool → ResolvedUsageHostConfig
resolve_usage c host group_ssh_verify_host_key = record {
  enabled = unwrap_or host.enabled c.enabled;
  os = unwrap_or host.os auto;
  ssh_verify_host_key =
      unwrap_or (or_else host.ssh_verify_host_key group_ssh_verify_host_key) c.ssh_verify_host_key;
  interval = unwrap_or host.interval c.interval;
  timeout = unwrap_or host.timeout c.timeout;
  linux_min_uid = unwrap_or host.linux_min_uid c.linux_min_uid;
  macos_min_uid = unwrap_or host.macos_min_uid c.macos_min_uid;
}

pub record TcpModuleConfig : Type 0 where
  pub enabled : Bool
  pub interval : Duration
  pub timeout : Duration
  pub concurrency : ℕ

pub record TcpHostConfig : Type 0 where
  pub enabled : Option Bool
  pub interval : Option Duration
  pub timeout : Option Duration
  pub checks : List TcpCheckConfig

unfoldable pub resolve_tcp : TcpModuleConfig → TcpHostConfig → ResolvedTcpHostConfig
resolve_tcp c host = record {
  enabled = unwrap_or host.enabled c.enabled;
  interval = unwrap_or host.interval c.interval;
  timeout = unwrap_or host.timeout c.timeout;
  checks = host.checks;
}

pub record ModuleConfigs : Type 0 where
  pub icmp : IcmpModuleConfig
  pub usage : UsageModuleConfig
  pub tcp : TcpModuleConfig
