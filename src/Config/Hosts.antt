-- ===== src/Config/Hosts.antt =====
-- config.rs: the hosts of the file become the hosts of the service, and the whole validation.
use text.Mathlib.Text.{is_le}
use Prim.Native.String.{compare}
use simple_network_monitor.Prelude.{
  String, Bool, true, false, not, ◌&&◌, Option, none, some, List, [], ◌∷◌, ◌++◌, str_eq, Result, ok,
  ◌>>=◌, ◌>>◌, reject, unwrap_or, if◌then◌else◌,
}
use simple_network_monitor.Domain.Validation.{validate_duration, validate_address}
use simple_network_monitor.Domain.Settings.{ResolvedIcmpHostConfig, ResolvedUsageHostConfig}
use simple_network_monitor.Domain.Tcp.{validate_tcp}
use simple_network_monitor.Domain.Host.{Host}
use simple_network_monitor.Config.Modules.{ModuleConfigs, resolve_icmp, resolve_usage, resolve_tcp}
use simple_network_monitor.Config.Validate.{
  Checked, AppConfig, RawHost, RawConfig, GroupsByHost, validate_core_settings,
  validate_auth_settings, validate_id, collect_ids, validate_root_groups,
  validate_group_settings_names, validate_module_config,
}

-- `groups.sort()`, as insertion, and `groups.dedup()`.
unfoldable pub insert_group : String → List String → List String
insert_group g [] = g ∷ []
insert_group g (x ∷ xs) = if is_le (compare g x) then g ∷ x ∷ xs else x ∷ insert_group g xs

unfoldable pub sort_groups : List String → List String
unfolding insert_group
sort_groups [] = []
sort_groups (g ∷ gs) = insert_group g (sort_groups gs)

unfoldable pub dedup : List String → List String
dedup [] = []
dedup (x ∷ []) = x ∷ []
dedup (x ∷ y ∷ rest) = let kept = dedup (y ∷ rest) in if str_eq x y then kept else x ∷ kept

-- `groups_by_host.remove(id)`.
unfoldable pub remove_groups : String → GroupsByHost → Option (List String) × GroupsByHost
remove_groups id [] = (none, [])
remove_groups id ((key, groups) ∷ rest) =
    let (found, left) = remove_groups id rest in
    if str_eq key id then (some groups, rest) else (found, (key, groups) ∷ left)

-- `group_settings.get(group).and_then(|s| s.usage.ssh_verify_host_key)`.
unfoldable pub key_setting : List (String × Option Bool) → String → Option Bool
key_setting [] group = none
key_setting ((key, setting) ∷ rest) group =
    if str_eq key group then setting else key_setting rest group

-- The loop over the groups, on what is configured so far.
unfoldable pub combine_keys : List (String × Option Bool) → Option Bool → List String → Option Bool
unfolding key_setting
combine_keys settings configured [] = configured
combine_keys settings configured (group ∷ groups) =
    combine_keys settings
      (elim (key_setting settings group) [
        | none ↦ configured
        | some value ↦ some (unwrap_or configured true && value)
      ])
      groups

unfoldable pub group_settings_usage_ssh_verify_host_key :
    List (String × Option Bool) → List String → Option Bool
unfolding combine_keys
group_settings_usage_ssh_verify_host_key settings groups = combine_keys settings none groups

unfoldable pub validate_host_module_durations :
    ResolvedIcmpHostConfig → ResolvedUsageHostConfig → Checked
unfolding validate_duration
validate_host_module_durations icmp usage = do
  validate_duration icmp.interval
  validate_duration icmp.timeout
  validate_duration usage.interval
  validate_duration usage.timeout

unfoldable pub validate_ids : List String → Checked
unfolding validate_id
validate_ids [] = ok tt
validate_ids (g ∷ gs) = do validate_id g; validate_ids gs

-- The host that one pass of the loop builds, from the groups that the file's root gives it.
unfoldable pub resolved_host :
    ModuleConfigs → List (String × Option Bool) → Option (List String) → RawHost → Host
unfolding sort_groups dedup group_settings_usage_ssh_verify_host_key resolve_icmp resolve_usage
    resolve_tcp
resolved_host modules settings external raw =
    let groups = dedup (sort_groups (raw.groups ++ unwrap_or external [])) in
    record {
      id = raw.id;
      address = raw.address;
      name = unwrap_or raw.name raw.id;
      groups = groups;
      metadata = raw.metadata;
      modules = record {
        icmp = resolve_icmp modules.icmp raw.icmp;
        usage =
            resolve_usage modules.usage raw.usage
              (group_settings_usage_ssh_verify_host_key settings groups);
        tcp = resolve_tcp modules.tcp raw.tcp;
      };
    }

abbrev pub no_group : Host → Bool
no_group h = elim h.groups [ [] ↦ true | _ ∷ _ ↦ false ]

-- The guards of the loop, in their order.
unfoldable pub check_host : (String → Bool) → ModuleConfigs → Host → Checked
unfolding validate_address validate_ids validate_host_module_durations validate_tcp
check_host is_ip_literal modules host = do
  validate_address is_ip_literal host.address
  reject (no_group host) "host must be in at least one group"
  validate_ids host.groups
  reject (not modules.icmp.enabled && host.modules.icmp.enabled)
      "modules.icmp.enabled requires modules.icmp.enabled = true"
  reject (not modules.usage.enabled && host.modules.usage.enabled)
      "modules.usage.enabled requires modules.usage.enabled = true"
  validate_host_module_durations host.modules.icmp host.modules.usage
  reject (host.modules.tcp.enabled && not modules.tcp.enabled)
      "TCP requires modules.tcp.enabled = true"
  validate_tcp host.modules.tcp

unfoldable pub into_host :
    (String → Bool)
    → ModuleConfigs
    → List (String × Option Bool)
    → Option (List String)
    → RawHost
    → Result String Host
unfolding resolved_host check_host
into_host is_ip_literal modules settings external raw =
    let host = resolved_host modules settings external raw in
    do check_host is_ip_literal modules host; ok host

unfoldable pub into_hosts :
    (String → Bool)
    → ModuleConfigs
    → List (String × Option Bool)
    → GroupsByHost
    → List RawHost
    → Result String (List Host)
unfolding into_host remove_groups
into_hosts is_ip_literal modules settings found [] = ok []
into_hosts is_ip_literal modules settings found (raw ∷ rest) = do
  let (external, found') = remove_groups raw.id found
  host ← into_host is_ip_literal modules settings external raw
  hosts ← into_hosts is_ip_literal modules settings found' rest
  ok (host ∷ hosts)

unfoldable pub into_app_config :
    (String → Bool) → RawConfig → GroupsByHost → Result String AppConfig
unfolding into_hosts
into_app_config is_ip_literal raw found = do
  hosts ← into_hosts is_ip_literal raw.core.modules raw.group_settings found raw.hosts
  ok (record { core = raw.core; hosts = hosts })

unfoldable pub validate : (String → Bool) → RawConfig → Result String AppConfig
unfolding validate_core_settings validate_auth_settings validate_module_config collect_ids
    validate_root_groups validate_group_settings_names into_app_config
validate is_ip_literal raw = do
  validate_core_settings raw
  validate_auth_settings raw.core
  validate_module_config raw.core.modules
  ids ← collect_ids [] raw.hosts
  found ← validate_root_groups ids raw.groups []
  validate_group_settings_names raw.hosts found raw.group_settings
  into_app_config is_ip_literal raw found
