-- ===== src/Storage/Tables.antt =====
-- storage/sqlite/schema.rs and mod.rs: the tables beside the histories, keyed by the host, and the
-- state behind the writer mutex. An instant in a table is the instant itself: its text sorts alike.
pub mod Lookups
use simple_network_monitor.Prelude.{
  ℕ, String, Bool, not, Option, none, some, List, [], ◌∷◌, str_eq, retain, if◌then◌else◌,
}
use simple_network_monitor.Domain.Clock.{Duration, DateTime}
use simple_network_monitor.Domain.Icmp.{HostStatus, IcmpTransition}
use simple_network_monitor.Domain.Usage.{UsageSnapshot}
use simple_network_monitor.Domain.Tcp.{TcpSnapshot}
use simple_network_monitor.Domain.Host.{Host}
use simple_network_monitor.Domain.Maintenance.{HistoryConfig, MaintenanceConfig}
use simple_network_monitor.Domain.Inactivity.{UsageRow}
use simple_network_monitor.History.Ingest.{Tables}
use simple_network_monitor.Storage.Jobs.{Job}

-- A table whose primary key is the host, and the caches and catalogs that are keyed alike.
abbrev pub Keyed : Type 0 → Type 0
Keyed V = List (String × V)

module _ {V : Type 0} where
  abbrev pub lookup : String → Keyed V → Option V
  lookup id [] = none
  lookup id ((key, v) ∷ rest) = if str_eq key id then some v else lookup id rest

  abbrev pub delete_key : String → Keyed V → Keyed V
  delete_key id = retain (λ r. not (str_eq r.0 id))

  -- `INSERT … ON CONFLICT(host_id) DO UPDATE` of every column.
  abbrev pub upsert : String → V → Keyed V → Keyed V
  upsert id v [] = (id, v) ∷ []
  upsert id v ((key, old) ∷ rest) =
      if str_eq key id then (key, v) ∷ rest else (key, old) ∷ upsert id v rest

pub record Identity : Type 0 where
  pub address : String
  pub usage_enabled : Bool

pub record Coverage : Type 0 where
  pub started_at : DateTime
  pub observed_at : DateTime

pub record TcpRow : Type 0 where
  pub host_id : String
  pub check_id : String
  pub address : String
  pub port : ℕ
  pub snapshot : TcpSnapshot

-- A row of `latest_status`, which keeps the latency in milliseconds.
pub record StatusRow (F : Type 0) : Type 0 where
  pub status : HostStatus
  pub last_checked_at : Option DateTime
  pub last_change_at : Option DateTime
  pub latency_ms : Option F
  pub consecutive_successes : ℕ
  pub consecutive_failures : ℕ
  pub last_error : Option String

-- A table with `AUTOINCREMENT`: its rows, and the largest row number ever given.
pub record Numbered (R : Type 0) : Type 0 where
  pub rows : List R
  pub last_id : ℕ

pub record Database (F : Type 0) : Type 0 where
  pub latest_status : Keyed (StatusRow F)
  pub transitions : Numbered (IcmpTransition F)
  pub latest_usage : Keyed UsageSnapshot
  pub usage_samples : Numbered UsageRow
  pub usage_history : Numbered UsageRow
  pub usage_coverage : Keyed Coverage
  pub host_identity : Keyed Identity
  pub retention_floor : Option DateTime
  pub latest_tcp : List TcpRow
  pub history : Tables F
  pub jobs : List Job

pub record Inner (F : Type 0) : Type 0 where
  pub generation : ℕ
  pub history_retention : Duration
  pub history_config : HistoryConfig
  pub maintenance_config : MaintenanceConfig
  pub usage : Keyed UsageSnapshot
  pub conn : Database F
  pub usage_sample_retention : Option Duration

-- What all clones of a storage share. A clone has its own `write_generation`, which is an argument.
pub record Storage (F : Type 0) : Type 0 where
  pub hosts : Keyed Host
  pub history_policy : HistoryConfig
  pub inner : Inner F

-- `checked_sub_signed` of chrono and its `Duration::from_std`: what is out of range is `none`.
pub record Chrono : Type 0 where
  pub from_std : Duration → Option Duration
  pub checked_sub_signed : DateTime → Duration → Option DateTime
