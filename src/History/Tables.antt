-- ===== src/History/Tables.antt =====
-- history/mod.rs: the tables, `add_stats`, and the arithmetic of buckets and cutoffs.
pub mod Counting
pub mod Bins
pub mod Totals
use simple_network_monitor.Prelude.{
  ℕ, ◌-◌, ◌*◌, ◌/◌, String, ◌&&◌, Option, List, [], ◌∷◌, ◌==◌, if◌then◌else◌,
}
use simple_network_monitor.Prelude.Float.{FloatOps}
use simple_network_monitor.Domain.Clock.{Duration, as_millis}
use simple_network_monitor.Domain.Maintenance.{HistoryConfig}
use simple_network_monitor.Domain.History.Stats.{
  HistoryStats, HistoryObservation, default_stats, merge,
}

-- The seconds of a five-minute, an hourly and a daily bucket.
abbrev pub tiers : List ℕ
tiers = 300 ∷ 3600 ∷ 86400 ∷ []

unfoldable pub floor : ℕ → ℕ → ℕ
floor at seconds = at / (seconds * 1000) * (seconds * 1000)

unfoldable pub cutoff : ℕ → Duration → ℕ
cutoff now duration = now - as_millis duration

unfoldable pub retention : HistoryConfig → ℕ → Duration
retention config resolution =
    if resolution == 300
    then config.five_minute_retention
    else if resolution == 3600
    then config.hourly_retention
    else config.daily_retention

pub record Epoch (F : Type 0) : Type 0 where
  pub id : ℕ
  pub host_id : String
  pub name : String
  pub groups : List String
  pub module_id : String
  pub check_id : String
  pub signature : String
  pub started_ms : ℕ
  pub ended_ms : Option ℕ
  pub freshness_ms : ℕ
  pub last_ms : Option ℕ
  pub last_observation : Option (HistoryObservation F)

pub record Raw (F : Type 0) : Type 0 where
  pub epoch_id : ℕ
  pub at_ms : ℕ
  pub observation : HistoryObservation F

pub record Bucket (F : Type 0) : Type 0 where
  pub epoch_id : ℕ
  pub resolution : ℕ
  pub start_ms : ℕ
  pub stats : HistoryStats F

pub record Span (F : Type 0) : Type 0 where
  pub epoch_id : ℕ
  pub cursor_ms : ℕ
  pub end_ms : ℕ
  pub observation : HistoryObservation F

pub record Event (F : Type 0) : Type 0 where
  pub epoch_id : ℕ
  pub at_ms : ℕ
  pub previous_state : Option String
  pub observation : HistoryObservation F

module _ {F : Type 0} ⦃o : FloatOps F⦄ where
  -- The upsert: the statistics of the bucket, or empty ones, with the new ones merged in.
  unfoldable pub add_stats : ℕ → ℕ → ℕ → HistoryStats F → List (Bucket F) → List (Bucket F)
  add_stats epoch resolution start stats [] =
      record {
        epoch_id = epoch;
        resolution = resolution;
        start_ms = start;
        stats = merge default_stats stats;
      }
      ∷ []
  add_stats epoch resolution start stats (b ∷ bs) =
      if b.epoch_id == epoch && (b.resolution == resolution && b.start_ms == start)
      then record b { stats = merge b.stats stats } ∷ bs
      else b ∷ add_stats epoch resolution start stats bs
