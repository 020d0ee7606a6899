-- ===== src/History/Epochs.antt =====
-- history/ingest.rs, `sync_epochs`: the epochs follow the checks of the configured hosts. A check
-- keeps its epoch while its signature stays the same; the JSON text of the signature is an argument.
pub mod Currency
pub mod Synchronised
pub mod Served
pub mod Coverage
use simple_network_monitor.Prelude.{
  ℕ, suc, min, max, String, Bool, ◌&&◌, not, Option, none, some, List, [], ◌∷◌, ◌++◌, map, ◌==◌,
  str_eq, any, is_none, if◌then◌else◌,
}
use simple_network_monitor.Domain.Clock.{Duration, as_millis, saturating_mul, saturating_add}
use simple_network_monitor.Domain.Tcp.{TcpCheckConfig}
use simple_network_monitor.Domain.Host.{Host}
use simple_network_monitor.Config.Hosts.{sort_groups, dedup}
use simple_network_monitor.History.Tables.{Epoch}
use simple_network_monitor.History.Ingest.{Tables, i64_max, active_epoch, close_epoch}

-- An entry of `checks`.
pub record Check : Type 0 where
  pub module_id : String
  pub check_id : String
  pub interval : Duration
  pub timeout : Duration
  pub port : ℕ

-- What `serde_json::to_string` prints for the signature of a check.
pub record Signature : Type 0 where
  pub address : String
  pub name : String
  pub groups : List String
  pub interval_ms : ℕ
  pub timeout_ms : ℕ
  pub port : ℕ

unfoldable pub tcp_check : Host → TcpCheckConfig → Check
tcp_check h c = record {
  module_id = "tcp";
  check_id = c.id.as_str;
  interval = h.modules.tcp.interval;
  timeout = h.modules.tcp.timeout;
  port = c.port;
}

-- The three `if`s that push the checks of the enabled modules.
unfoldable pub checks_of : Host → List Check
unfolding tcp_check
checks_of h =
    (if h.modules.icmp.enabled
      then record {
        module_id = "icmp";
        check_id = "";
        interval = h.modules.icmp.interval;
        timeout = h.modules.icmp.timeout;
        port = 0;
      }
        ∷ []
      else [])
    ++ (if h.modules.usage.enabled
        then record {
          module_id = "usage";
          check_id = "";
          interval = h.modules.usage.interval;
          timeout = h.modules.usage.timeout;
          port = 0;
        }
          ∷ []
        else [])
    ++ (if h.modules.tcp.enabled then map (tcp_check h) h.modules.tcp.checks else [])

unfoldable pub groups_of : Host → List String
unfolding sort_groups dedup
groups_of h = dedup (sort_groups h.groups)

unfoldable pub signature_of : Host → Check → Signature
unfolding groups_of
signature_of h c = record {
  address = h.address;
  name = h.name;
  groups = groups_of h;
  interval_ms = as_millis c.interval;
  timeout_ms = as_millis c.timeout;
  port = c.port;
}

abbrev pub contains_id : List ℕ → ℕ → Bool
contains_id ids id = any (λ i. i == id) ids

module _ {F : Type 0} where
  -- The row number of an inserted row: one more than the largest.
  unfoldable pub next_rowid : List (Epoch F) → ℕ
  next_rowid [] = 1
  next_rowid (e ∷ es) = max (suc e.id) (next_rowid es)

  unfoldable pub new_epoch : (Signature → String) → Host → Check → ℕ → ℕ → Epoch F
  unfolding signature_of groups_of
  new_epoch to_json h c id now = record {
    id = id;
    host_id = h.id;
    name = h.name;
    groups = groups_of h;
    module_id = c.module_id;
    check_id = c.check_id;
    signature = to_json (signature_of h c);
    started_ms = now;
    ended_ms = none;
    freshness_ms = min (as_millis (saturating_add (saturating_mul c.interval 2) c.timeout)) i64_max;
    last_ms = none;
    last_observation = none;
  }

  unfoldable pub insert_epoch :
      (Signature → String) → Host → Check → ℕ → List ℕ → Tables F → List ℕ × Tables F
  unfolding next_rowid new_epoch
  insert_epoch to_json h c now active t =
      let id = next_rowid t.epochs in
      (id ∷ active, record t { epochs = t.epochs ++ new_epoch to_json h c id now ∷ [] })

  -- The active epoch is kept where its signature is current, and otherwise replaced.
  unfoldable pub replace_epoch :
      (Signature → String)
      → Host
      → Check
      → ℕ
      → List ℕ
      → Tables F
      → Option (Epoch F)
      → List ℕ × Tables F
  unfolding insert_epoch
  replace_epoch to_json h c now active t none = insert_epoch to_json h c now active t
  replace_epoch to_json h c now active t (some e) =
      if str_eq e.signature (to_json (signature_of h c))
      then (e.id ∷ active, t)
      else insert_epoch to_json h c now active (close_epoch e now t)

  unfoldable pub sync_check :
      (Signature → String) → Host → ℕ → Check → List ℕ × Tables F → List ℕ × Tables F
  unfolding replace_epoch active_epoch
  sync_check to_json h now c (active, t) =
      replace_epoch to_json h c now active t (active_epoch h.id c.module_id c.check_id t.epochs)

  unfoldable pub sync_host :
      (Signature → String) → Host → ℕ → List Check → List ℕ × Tables F → List ℕ × Tables F
  unfolding sync_check
  sync_host to_json h now [] s = s
  sync_host to_json h now (c ∷ cs) s = sync_host to_json h now cs (sync_check to_json h now c s)

  unfoldable pub sync_hosts :
      (Signature → String) → ℕ → List Host → List ℕ × Tables F → List ℕ × Tables F
  unfolding sync_host checks_of
  sync_hosts to_json now [] s = s
  sync_hosts to_json now (h ∷ hs) s =
      sync_hosts to_json now hs (sync_host to_json h now (checks_of h) s)

  -- The last loop: `es` holds the rows of the table when their ids are selected.
  unfoldable pub close_inactive : List ℕ → ℕ → List (Epoch F) → Tables F → Tables F
  unfolding close_epoch
  close_inactive active now [] t = t
  close_inactive active now (e ∷ es) t =
      close_inactive active now es
        (if is_none e.ended_ms && not (contains_id active e.id) then close_epoch e now t else t)

  unfoldable pub sync_epochs : (Signature → String) → List Host → ℕ → Tables F → Tables F
  unfolding sync_hosts close_inactive
  sync_epochs to_json hosts now t =
      let (active, t') = sync_hosts to_json now hosts ([], t) in
      close_inactive active now t'.epochs t'
