-- ===== src/Config/Validate.antt =====
-- config.rs: the parsed file, the configuration, and the validations that come before the hosts. A
-- map is the list of its entries in the order in which it is visited. An error text leaves out the
-- names that it quotes.
use simple_network_monitor.Prelude.{
  ℕ, ◌/◌, ◌^◌, String, Bool, true, false, not, ◌&&◌, ◌||◌, Option, none, some, List, [], ◌∷◌, ◌++◌,
  ltb, ◌==◌, str_eq, any, is_none, Result, ok, ◌>>=◌, ◌>>◌, reject, if◌then◌else◌,
}
use simple_network_monitor.Domain.Clock.{Duration}
use simple_network_monitor.Domain.Validation.{validate_duration, is_identifier}
use simple_network_monitor.Domain.Icmp.{IpAddr, v4, v6}
use simple_network_monitor.Domain.Host.{Host, MetadataValue}
use simple_network_monitor.Domain.Maintenance.{
  HistoryConfig, MaintenanceConfig, validate_history, validate_maintenance, within,
}
use simple_network_monitor.Config.Modules.{
  IcmpHostConfig, UsageHostConfig, TcpHostConfig, ModuleConfigs,
}

-- `std::net::SocketAddr`.
pub record SocketAddr : Type 0 where
  pub ip : IpAddr
  pub port : ℕ

-- `IpAddr::is_loopback`: 127.0.0.0/8 and ::1.
abbrev pub is_loopback : IpAddr → Bool
is_loopback (v4 bits) = bits / 2 ^ 24 == 127
is_loopback (v6 bits) = bits == 1

-- The fields that the file and the configuration share.
pub record Core : Type 0 where
  pub bind : SocketAddr
  pub database_path : String
  pub history_retention : Duration
  pub history : HistoryConfig
  pub maintenance : MaintenanceConfig
  pub api_workers : Option ℕ
  pub modules : ModuleConfigs
  pub api_token : Option String
  pub allow_unauthenticated_non_loopback : Bool

pub record AppConfig : Type 0 where
  pub core : Core
  pub hosts : List Host

pub record RawHost : Type 0 where
  pub id : String
  pub address : String
  pub name : Option String
  pub groups : List String
  pub metadata : List (String × MetadataValue)
  pub icmp : IcmpHostConfig
  pub usage : UsageHostConfig
  pub tcp : TcpHostConfig

-- `group_settings` holds the `ssh_verify_host_key` of each group.
pub record RawConfig : Type 0 where
  pub core : Core
  pub groups : List (String × List String)
  pub group_settings : List (String × Option Bool)
  pub hosts : List RawHost

abbrev pub Checked : Type 0
Checked = Result String (Unit {0})

unfoldable pub validate_core_settings : RawConfig → Checked
unfolding validate_duration validate_history validate_maintenance
validate_core_settings raw = do
  validate_duration raw.core.history_retention
  validate_history raw.core.history
  validate_maintenance raw.core.maintenance
  reject (elim raw.core.api_workers [ none ↦ false | some n ↦ n == 0 || ltb 256 n ])
      "api_workers must be between 1 and 256"
  reject (elim raw.hosts [ [] ↦ true | _ ∷ _ ↦ false ]) "at least one host is required"

-- A listener that others can reach, with neither a token nor the permission to go without.
unfoldable pub is_open : IpAddr → Core → Bool
is_open ip core =
    not (is_loopback ip) && (is_none core.api_token && not core.allow_unauthenticated_non_loopback)

unfoldable pub validate_auth_settings : Core → Checked
unfolding is_open
validate_auth_settings core =
    reject (is_open core.bind.ip core)
      "non-loopback bind requires api_token or allow_unauthenticated_non_loopback = true"

unfoldable pub validate_id : String → Checked
unfolding is_identifier
validate_id value =
    reject (not (is_identifier value))
      "must contain only ASCII letters, digits, dash, underscore, or dot"

-- The loop over the hosts: `ids` holds the identifiers met so far.
unfoldable pub collect_ids : List String → List RawHost → Result String (List String)
unfolding validate_id
collect_ids ids [] = ok ids
collect_ids ids (raw ∷ rest) = do
  validate_id raw.id
  reject (any (str_eq raw.id) ids) "duplicate host id"
  collect_ids (raw.id ∷ ids) rest

-- `entry(member).or_default().push(group)`.
unfoldable pub push_group :
    String → String → List (String × List String) → List (String × List String)
push_group member group [] = (member, group ∷ []) ∷ []
push_group member group ((key, groups) ∷ rest) =
    if str_eq key member
    then (key, groups ++ group ∷ []) ∷ rest
    else (key, groups) ∷ push_group member group rest

abbrev pub GroupsByHost : Type 0
GroupsByHost = List (String × List String)

unfoldable pub add_members :
    List String → String → List String → GroupsByHost → Result String GroupsByHost
unfolding validate_id push_group
add_members ids group [] found = ok found
add_members ids group (member ∷ members) found = do
  validate_id member
  reject (not (any (str_eq member) ids)) "group references unknown host"
  add_members ids group members (push_group member group found)

unfoldable pub validate_root_groups :
    List String → List (String × List String) → GroupsByHost → Result String GroupsByHost
unfolding validate_id add_members
validate_root_groups ids [] found = ok found
validate_root_groups ids ((group, members) ∷ rest) found = do
  validate_id group
  reject (elim members [ [] ↦ true | _ ∷ _ ↦ false ]) "group must contain at least one host"
  found' ← add_members ids group members found
  validate_root_groups ids rest found'

unfoldable pub is_known_group : String → List RawHost → GroupsByHost → Bool
is_known_group group hosts found =
    any (λ h. any (str_eq group) h.groups) hosts || any (λ e. any (str_eq group) e.1) found

unfoldable pub validate_group_settings_names :
    List RawHost → GroupsByHost → List (String × Option Bool) → Checked
unfolding validate_id is_known_group
validate_group_settings_names hosts found [] = ok tt
validate_group_settings_names hosts found ((group, setting) ∷ rest) = do
  validate_id group
  reject (not (is_known_group group hosts found)) "group_settings references unknown group"
  validate_group_settings_names hosts found rest

unfoldable pub validate_module_config : ModuleConfigs → Checked
unfolding validate_duration
validate_module_config m = do
  validate_duration m.tcp.interval
  validate_duration m.tcp.timeout
  reject (not (within 4096 m.tcp.concurrency)) "modules.tcp.concurrency must be between 1 and 4096"
  reject (not (within 4096 m.icmp.concurrency))
      "modules.icmp.concurrency must be between 1 and 4096"
  reject (m.icmp.failure_threshold == 0 || m.icmp.success_threshold == 0)
      "modules.icmp.success_threshold and modules.icmp.failure_threshold must be at least 1"
  validate_duration m.icmp.interval
  validate_duration m.icmp.timeout
  reject (not (within 4096 m.usage.concurrency))
      "modules.usage.concurrency must be between 1 and 4096"
  validate_duration m.usage.interval
  validate_duration m.usage.timeout
  validate_duration m.usage.sample_retention
