-- ===== src/Examples/Configured.antt =====
-- The theorems about configurations on a concrete file.
use simple_network_monitor.Prelude.{
  ◌+◌, ◌*◌, ◌^◌, ◌≡◌, refl, String, Bool, true, false, none, some, [], ◌∷◌, ok,
}
use simple_network_monitor.Domain.Clock.{from_secs}
use simple_network_monitor.Domain.Icmp.{v4}
use simple_network_monitor.Domain.Maintenance.{default_history, default_maintenance}
use simple_network_monitor.Config.Modules.{ModuleConfigs, automatic}
use simple_network_monitor.Config.Validate.{AppConfig, Core, RawConfig, RawHost}
use simple_network_monitor.Config.Hosts.{resolved_host, validate}
use simple_network_monitor.Config.Soundness.{IsSafe, validate-IsSafe}
use simple_network_monitor.Config.Reload.{for_reload, kept_listener, for_reload-IsSafe}

abbrev pub modules : ModuleConfigs
modules = record {
  icmp = record {
    enabled = true;
    backend = automatic;
    interval = from_secs 30;
    timeout = from_secs 1;
    concurrency = 128;
    failure_threshold = 3;
    success_threshold = 1;
  };
  usage = record {
    enabled = false;
    interval = from_secs 300;
    timeout = from_secs 5;
    concurrency = 16;
    ssh_verify_host_key = true;
    sample_retention = from_secs 86400;
    linux_min_uid = 1000;
    macos_min_uid = 500;
  };
  tcp = record {
    enabled = false;
    interval = from_secs 30;
    timeout = from_secs 3;
    concurrency = 64;
  };
}

-- 127.0.0.1.
abbrev pub local : Core
local = record {
  bind = record { ip = v4 (127 * 2 ^ 24 + 1); port = 3000 };
  database_path = "./network-monitor.sqlite3";
  history_retention = from_secs 31_536_000;
  history = default_history;
  maintenance = default_maintenance;
  api_workers = none;
  modules = modules;
  api_token = none;
  allow_unauthenticated_non_loopback = false;
}

abbrev pub gateway : RawHost
gateway = record {
  id = "gw";
  address = "192.0.2.1";
  name = none;
  groups = "core" ∷ [];
  metadata = [];
  icmp = record { enabled = none; interval = none; timeout = none };
  usage = record {
    enabled = none;
    os = none;
    ssh_verify_host_key = none;
    interval = none;
    timeout = none;
    linux_min_uid = none;
    macos_min_uid = none;
  };
  tcp = record { enabled = none; interval = none; timeout = none; checks = [] };
}

abbrev pub parsed : RawConfig
parsed = record {
  core = local;
  groups = ("edge", "gw" ∷ []) ∷ [];
  group_settings = ("edge", some false) ∷ [];
  hosts = gateway ∷ [];
}

abbrev pub is_literal : String → Bool
is_literal s = true

abbrev pub config : AppConfig
config = record {
  core = local;
  hosts = resolved_host modules (("edge", some false) ∷ []) (some ("edge" ∷ [])) gateway ∷ [];
}

pub parsed-valid : validate is_literal parsed ≡ ok config
unfolding validate
parsed-valid = refl

validate-IsSafe_example : IsSafe is_literal config
validate-IsSafe_example = validate-IsSafe is_literal parsed config parsed-valid

-- The service listens on 192.0.2.9 with a token.
abbrev public : AppConfig
public = record config {
  core = record local {
    bind = record { ip = v4 3_221_225_993; port = 3000 };
    api_token = some "secret";
  };
}

abbrev with_token : AppConfig
with_token = record config { core = record local { api_token = some "other" } }

abbrev parsed_with_token : RawConfig
parsed_with_token = record parsed { core = record local { api_token = some "other" } }

with_token-valid : validate is_literal parsed_with_token ≡ ok with_token
unfolding validate
with_token-valid = refl

with_token-IsSafe : IsSafe is_literal with_token
with_token-IsSafe = validate-IsSafe is_literal parsed_with_token with_token with_token-valid

reloaded : for_reload with_token public ≡ ok (kept_listener with_token public)
unfolding for_reload
reloaded = refl

for_reload-IsSafe_example :
    IsSafe is_literal (kept_listener with_token public)
    × (public.core.bind ≡ public.core.bind)
    × (public.core.database_path ≡ public.core.database_path)
    × (public.core.api_workers ≡ public.core.api_workers)
for_reload-IsSafe_example =
    for_reload-IsSafe is_literal with_token public (kept_listener with_token public)
      with_token-IsSafe reloaded
