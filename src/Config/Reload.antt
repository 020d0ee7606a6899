-- ===== src/Config/Reload.antt =====
-- config.rs, `for_reload`: a new configuration takes the place of the running one.
use simple_network_monitor.Prelude.{
  ◌≡◌, refl, String, Bool, Result, ok, not_rejected, ◌>>◌, reject, then-ok,
}
use simple_network_monitor.Config.Validate.{AppConfig, is_open}
use simple_network_monitor.Config.Soundness.{IsSafe}

-- The listener, the database and the workers stay those of the running process.
abbrev pub kept_listener : AppConfig → AppConfig → AppConfig
kept_listener new running = record new {
  core = record new.core {
    bind = running.core.bind;
    database_path = running.core.database_path;
    api_workers = running.core.api_workers;
  };
}

unfoldable pub for_reload : AppConfig → AppConfig → Result String AppConfig
unfolding is_open
for_reload new running = do
  reject (is_open running.core.bind.ip new.core)
      "reload would remove authentication from the active non-loopback listener"
  ok (kept_listener new running)

-- A reload that succeeds keeps the listener, the database and the workers, and if the new
-- configuration is safe for its own listener then what is run is safe for the listener that stays.
pub for_reload-IsSafe :
    (is_ip_literal : String → Bool) (new running c : AppConfig)
    → IsSafe is_ip_literal new
    → for_reload new running ≡ ok c
    → IsSafe is_ip_literal c
      × (c.core.bind ≡ running.core.bind)
      × (c.core.database_path ≡ running.core.database_path)
      × (c.core.api_workers ≡ running.core.api_workers)
unfolding for_reload is_open
for_reload-IsSafe is_ip_literal new running c safe e =
    let (kept, e1) = then-ok (reject (is_open running.core.bind.ip new.core) _) _ e in
    let built : kept_listener new running ≡ c = cc e1 in
    rw (← built) (
      record {
        hosts = safe.hosts;
        ids = safe.ids;
        closed = not_rejected (is_open running.core.bind.ip new.core) _ kept;
      },
      refl,
      refl,
      refl,
    )
