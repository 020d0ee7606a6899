-- ===== src/Domain/Maintenance.antt =====
-- domain/maintenance.rs: retention and maintenance settings, and the kinds of job.
use simple_network_monitor.Prelude.{
  ℕ, ◌*◌, ◌-◌, ◌^◌, String, Bool, false, not, ◌&&◌, ◌||◌, List, [], ◌∷◌, ltb, leb, Result, ok, ◌>>◌,
  reject,
}
use simple_network_monitor.Domain.Clock.{Duration, from_secs}
use simple_network_monitor.Domain.Validation.{validate_duration}

pub record HistoryConfig : Type 0 where
  pub raw_retention : Duration
  pub five_minute_retention : Duration
  pub hourly_retention : Duration
  pub daily_retention : Duration
  pub event_retention : Duration

abbrev pub default_history : HistoryConfig
default_history = record {
  raw_retention = from_secs (3 * 86400);
  five_minute_retention = from_secs (30 * 86400);
  hourly_retention = from_secs (365 * 86400);
  daily_retention = from_secs (1095 * 86400);
  event_retention = from_secs (1095 * 86400);
}

-- The loop over the tiers and the event retention.
unfoldable pub validate_retentions : List Duration → Result String (Unit {0})
unfolding validate_duration
validate_retentions [] = ok tt
validate_retentions (d ∷ ds) = do
  validate_duration d
  reject (ltb d (from_secs 86400)) "history retention must be at least one day"
  validate_retentions ds

-- `tiers.windows(2).any(|pair| pair[0] > pair[1])`, with the tier before the rest at hand.
unfoldable pub any_decrease : Duration → List Duration → Bool
any_decrease d [] = false
any_decrease d (e ∷ ds) = ltb e d || any_decrease e ds

unfoldable pub validate_history : HistoryConfig → Result String (Unit {0})
unfolding validate_retentions any_decrease
validate_history c = do
  validate_retentions (
      c.raw_retention ∷ c.five_minute_retention ∷ c.hourly_retention ∷ c.daily_retention
      ∷ c.event_retention ∷ [])
  reject
      (any_decrease c.raw_retention
        (c.five_minute_retention ∷ c.hourly_retention ∷ c.daily_retention ∷ []))
      "history retention must increase as resolution becomes coarser"

pub record MaintenanceConfig : Type 0 where
  pub rollup_interval : Duration
  pub retention_interval : Duration
  pub reclaim_interval : Duration
  pub optimize_interval : Duration
  pub batch_size : ℕ
  pub reclaim_min_bytes : ℕ
  pub reclaim_free_percent : ℕ
  pub reclaim_pages : ℕ

abbrev pub default_maintenance : MaintenanceConfig
default_maintenance = record {
  rollup_interval = from_secs 60;
  retention_interval = from_secs 300;
  reclaim_interval = from_secs 3600;
  optimize_interval = from_secs 86400;
  batch_size = 500;
  reclaim_min_bytes = 256 * 1024 * 1024;
  reclaim_free_percent = 20;
  reclaim_pages = 1000;
}

unfoldable pub validate_intervals : List Duration → Result String (Unit {0})
unfolding validate_duration
validate_intervals [] = ok tt
validate_intervals (v ∷ vs) = do
  validate_duration v
  reject (ltb v (from_secs 1)) "maintenance intervals must be at least one second"
  validate_intervals vs

-- `(1..=hi).contains(&n)`.
abbrev pub within : ℕ → ℕ → Bool
within hi n = leb 1 n && leb n hi

unfoldable pub validate_maintenance : MaintenanceConfig → Result String (Unit {0})
unfolding validate_intervals
validate_maintenance c = do
  validate_intervals
      (c.rollup_interval ∷ c.retention_interval ∷ c.reclaim_interval ∷ c.optimize_interval ∷ [])
  reject (ltb (2 ^ 63 - 1) c.reclaim_min_bytes) "reclaim_min_bytes exceeds the supported range"
  reject
      (not (within 5000 c.batch_size)
        || not (within 10000 c.reclaim_pages)
        || not (within 90 c.reclaim_free_percent))
      "invalid maintenance batch size, page limit or free-space percentage"

pub data JobKind : Type 0 where
  rollup retention reclaim optimize checkpoint job_history : JobKind

abbrev pub all_jobs : List JobKind
all_jobs = rollup ∷ retention ∷ reclaim ∷ optimize ∷ checkpoint ∷ job_history ∷ []

unfoldable pub job_id : JobKind → String
job_id rollup = "history_rollup"
job_id retention = "retention"
job_id reclaim = "space_reclamation"
job_id optimize = "query_optimization"
job_id checkpoint = "wal_checkpoint"
job_id job_history = "job_history_cleanup"

unfoldable pub job_interval : JobKind → MaintenanceConfig → Duration
job_interval rollup c = c.rollup_interval
job_interval retention c = c.retention_interval
job_interval reclaim c = c.reclaim_interval
job_interval optimize c = c.optimize_interval
job_interval checkpoint c = from_secs 300
job_interval job_history c = from_secs 86400
