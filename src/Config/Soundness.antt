-- ===== src/Config/Soundness.antt =====
-- A configuration that passed validation: its hosts are valid, distinct and in a group, and no host
-- has a module that is off for the service.
use simple_network_monitor.Prelude.{
  ◌≡◌, refl, String, Bool, true, false, not, ◌&&◌, ◌||◌, Option, List, [], ◌∷◌, arith, All, map, ok,
  reject, then-ok, not_rejected, bind-ok,
}
use simple_network_monitor.Domain.Validation.{is_identifier, validate_duration, validate_address}
use simple_network_monitor.Domain.Host.{Host, validate_host, validate_durations}
use simple_network_monitor.Config.Modules.{ModuleConfigs}
use simple_network_monitor.Config.Validate.{
  AppConfig, RawHost, RawConfig, GroupsByHost, collect_ids, is_open, validate_auth_settings,
  validate_core_settings, validate_module_config, validate_root_groups,
  validate_group_settings_names,
}
use simple_network_monitor.Config.Distinct.{Distinct, ids_of, collect_ids-Fresh}
use simple_network_monitor.Config.Hosts.{
  no_group, check_host, resolved_host, into_host, into_hosts, into_app_config, validate,
  remove_groups, validate_host_module_durations, validate_ids,
}

-- A module of the host is on only where it is on for the service.
abbrev pub gated : ModuleConfigs → Host → Bool
gated m h =
    (m.icmp.enabled || not h.modules.icmp.enabled)
    && ((m.usage.enabled || not h.modules.usage.enabled)
        && (m.tcp.enabled || not h.modules.tcp.enabled))

pub record IsServed (is_ip_literal : String → Bool) (m : ModuleConfigs) (h : Host) : Type 0 where
  pub valid : validate_host is_ip_literal h ≡ ok tt
  pub gate : gated m h ≡ true
  pub group : no_group h ≡ false

gates :
    (m : ModuleConfigs) (h : Host)
    → (not m.icmp.enabled && h.modules.icmp.enabled) ≡ false
    → (not m.usage.enabled && h.modules.usage.enabled) ≡ false
    → (h.modules.tcp.enabled && not m.tcp.enabled) ≡ false
    → gated m h ≡ true
gates m h i u t = ground arith

check_host-IsServed :
    (is_ip_literal : String → Bool) (m : ModuleConfigs) (h : Host)
    → is_identifier h.id ≡ true
    → check_host is_ip_literal m h ≡ ok tt
    → IsServed is_ip_literal m h
unfolding check_host validate_host validate_durations validate_host_module_durations
check_host-IsServed is_ip_literal m h name e =
    let (address, e1) = then-ok (validate_address is_ip_literal h.address) _ e in
    let (grouped, e2) = then-ok (reject (no_group h) _) _ e1 in
    let (groups, e3) = then-ok (validate_ids h.groups) _ e2 in
    let (icmp, e4) = then-ok (reject (not m.icmp.enabled && h.modules.icmp.enabled) _) _ e3 in
    let (usage, e5) = then-ok (reject (not m.usage.enabled && h.modules.usage.enabled) _) _ e4 in
    let (durations, e6) =
      then-ok (validate_host_module_durations h.modules.icmp h.modules.usage) _ e5 in
    let (tcp, checks) = then-ok (reject (h.modules.tcp.enabled && not m.tcp.enabled) _) _ e6 in
    let (a, d1) = then-ok (validate_duration h.modules.icmp.interval) _ durations in
    let (b, d2) = then-ok (validate_duration h.modules.icmp.timeout) _ d1 in
    let (c, d) = then-ok (validate_duration h.modules.usage.interval) _ d2 in
    record {
      valid = rw (validate_host, name, address, a, b, c, d) checks;
      gate = gates m h (not_rejected _ _ icmp) (not_rejected _ _ usage) (not_rejected _ _ tcp);
      group = not_rejected (no_group h) _ grouped;
    }

into_hosts-IsServed :
    (is_ip_literal : String → Bool) (m : ModuleConfigs) (settings : List (String × Option Bool))
    (found : GroupsByHost) (raws : List RawHost) (hosts : List Host)
    → All (λ x. is_identifier x ≡ true) (ids_of raws)
    → into_hosts is_ip_literal m settings found raws ≡ ok hosts
    → All (IsServed is_ip_literal m) hosts × (map (λ h. h.id) hosts ≡ ids_of raws)
unfolding into_hosts into_host resolved_host
into_hosts-IsServed is_ip_literal m settings found [] hosts names e =
    let same : [] ≡ hosts = cc e in (rw (← same) tt, rw (← same) refl)
into_hosts-IsServed is_ip_literal m settings found (raw ∷ rest) hosts names e =
    let (external, left) = remove_groups raw.id found in
    let (host, e1, e2) = bind-ok (into_host is_ip_literal m settings external raw) _ e in
    let (others, e3, e4) = bind-ok (into_hosts is_ip_literal m settings left rest) _ e2 in
    let (checked, built) =
      then-ok (check_host is_ip_literal m (resolved_host m settings external raw)) _ e1 in
    let served =
      check_host-IsServed is_ip_literal m (resolved_host m settings external raw) names.0 checked in
    let (all_served, same) =
      into_hosts-IsServed is_ip_literal m settings left rest others names.1 e3 in
    let one : resolved_host m settings external raw ≡ host = cc built in
    let list : host ∷ others ≡ hosts = cc e4 in rw (← list, ← one) ((served, all_served), cc same)

-- What a validated configuration promises of its hosts and of its listener.
pub record IsSafe (is_ip_literal : String → Bool) (c : AppConfig) : Type 0 where
  pub hosts : All (IsServed is_ip_literal c.core.modules) c.hosts
  pub ids : Distinct (map (λ h. h.id) c.hosts)
  pub closed : is_open c.core.bind.ip c.core ≡ false

into_app_config-IsSafe :
    (is_ip_literal : String → Bool) (raw : RawConfig) (ids : List String) (found : GroupsByHost)
    (c : AppConfig)
    → validate_auth_settings raw.core ≡ ok tt
    → collect_ids [] raw.hosts ≡ ok ids
    → into_app_config is_ip_literal raw found ≡ ok c
    → IsSafe is_ip_literal c
unfolding into_app_config validate_auth_settings
into_app_config-IsSafe is_ip_literal raw ids found c auth met e =
    let (names, fresh) = collect_ids-Fresh [] raw.hosts ids met in
    let (hosts, e1, e2) =
      bind-ok (into_hosts is_ip_literal raw.core.modules raw.group_settings found raw.hosts) _ e in
    let (served, same) =
      into_hosts-IsServed is_ip_literal raw.core.modules raw.group_settings found raw.hosts hosts
        names e1 in
    let made : AppConfig = record { core = raw.core; hosts = hosts } in
    let built : made ≡ c = cc e2 in
    rw (← built) (record {
      hosts = served;
      ids = rw same fresh.1;
      closed = not_rejected (is_open raw.core.bind.ip raw.core) _ auth;
    })

-- A file that passes validation gives a configuration in which every host passes the validation of
-- hosts, is in a group and has no module on that is off for the service, the identifiers of the
-- hosts are distinct, and a listener that is not on a loopback address has a token or the explicit
-- permission to go without.
pub validate-IsSafe :
    (is_ip_literal : String → Bool) (raw : RawConfig) (c : AppConfig)
    → validate is_ip_literal raw ≡ ok c
    → IsSafe is_ip_literal c
unfolding validate
validate-IsSafe is_ip_literal raw c e =
    let (core, e1) = then-ok (validate_core_settings raw) _ e in
    let (auth, e2) = then-ok (validate_auth_settings raw.core) _ e1 in
    let (modules, e3) = then-ok (validate_module_config raw.core.modules) _ e2 in
    let (ids, met, e4) = bind-ok (collect_ids [] raw.hosts) _ e3 in
    let (found, groups, e5) = bind-ok (validate_root_groups ids raw.groups []) _ e4 in
    let (names, e6) =
      then-ok (validate_group_settings_names raw.hosts found raw.group_settings) _ e5 in
    into_app_config-IsSafe is_ip_literal raw ids found c auth met e6
