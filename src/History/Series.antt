-- ===== src/History/Series.antt =====
-- history/query.rs: the series of an answer, and the spans that are credited to their buckets.
pub mod Crediting
use simple_network_monitor.Prelude.{
  ℕ, zero, suc, ◌+◌, ◌-◌, ◌*◌, ◌/◌, String, List, [], ◌∷◌, Option, none, min, max, ltb, str_eq, any,
  if◌then◌else◌,
}
use simple_network_monitor.Prelude.Float.{FloatOps}
use simple_network_monitor.Domain.History.Stats.{
  HistoryStats, HistoryObservation, default_stats, merge, duration_stats,
}
use simple_network_monitor.History.Query.{HistoryRequest}
use simple_network_monitor.History.Events.{SelectedEpoch}

pub record HistoryBucket (F : Type 0) : Type 0 where
  pub start_ms : ℕ
  pub end_ms : ℕ
  pub eligible_ms : ℕ
  pub stats : HistoryStats F
  pub latency_p95_ms : Option F

pub record HistorySeries (F : Type 0) : Type 0 where
  pub id : String
  pub label : String
  pub buckets : List (HistoryBucket F)

-- The groups that the request asks for, each with itself as its label.
unfoldable pub group_labels : List String → List String → List (String × String)
group_labels chosen [] = []
group_labels [] (g ∷ gs) = (g, g) ∷ group_labels [] gs
group_labels (c ∷ cs) (g ∷ gs) =
    let rest = group_labels (c ∷ cs) gs in if any (str_eq g) (c ∷ cs) then (g, g) ∷ rest else rest

unfoldable pub labels : {F : Type 0} → SelectedEpoch F → HistoryRequest → List (String × String)
unfolding group_labels
labels e r =
    if str_eq r.breakdown "host"
    then (e.host, e.name) ∷ []
    else if str_eq r.breakdown "group"
    then group_labels r.groups e.groups
    else ("all", "All selected hosts") ∷ []

module _ {F : Type 0} ⦃o : FloatOps F⦄ where
  -- The buckets of a new series, from the one with the given number on.
  unfoldable pub new_buckets : ℕ → ℕ → ℕ → ℕ → ℕ → List (HistoryBucket F)
  new_buckets from to step i zero = []
  new_buckets from to step i (suc count) =
      record {
        start_ms = from + i * step * 1000;
        end_ms = min (from + (i + 1) * step * 1000) to;
        eligible_ms = 0;
        stats = default_stats;
        latency_p95_ms = none;
      }
      ∷ new_buckets from to step (suc i) count

  -- `buckets.get_mut(index)`, where there is one.
  unfoldable pub merge_bucket : ℕ → HistoryStats F → List (HistoryBucket F) → List (HistoryBucket F)
  merge_bucket index stats [] = []
  merge_bucket zero stats (b ∷ bs) = record b { stats = merge b.stats stats } ∷ bs
  merge_bucket (suc index) stats (b ∷ bs) = b ∷ merge_bucket index stats bs

  -- `series.get_mut(key)`, where there is one.
  unfoldable pub merge_series :
      String → ℕ → HistoryStats F → List (HistorySeries F) → List (HistorySeries F)
  unfolding merge_bucket
  merge_series key index stats [] = []
  merge_series key index stats (s ∷ ss) =
      if str_eq s.id key
      then record s { buckets = merge_bucket index stats s.buckets } ∷ ss
      else s ∷ merge_series key index stats ss

  -- The loop over the keys of an epoch.
  unfoldable pub merge_keys :
      List (String × String) → ℕ → HistoryStats F → List (HistorySeries F) → List (HistorySeries F)
  unfolding merge_series
  merge_keys [] index stats ss = ss
  merge_keys ((key, label) ∷ keys) index stats ss =
      merge_keys keys index stats (merge_series key index stats ss)

  -- The `while` loop. Each round moves the cursor on, so that one for each millisecond is enough.
  unfoldable pub apply_from :
      ℕ
      → List (String × String)
      → ℕ
      → ℕ
      → ℕ
      → ℕ
      → HistoryObservation F
      → List (HistorySeries F)
      → List (HistorySeries F)
  unfolding merge_keys duration_stats
  apply_from zero keys cursor end from width observation ss = ss
  apply_from (suc rounds) keys cursor end from width observation ss =
      let index = (cursor - from) / width in
      let until = min end (from + (index + 1) * width) in
      let stats = duration_stats observation (until - cursor) in
      let rest =
        apply_from rounds keys until end from width observation (merge_keys keys index stats ss) in
      if ltb cursor end then rest else ss

  unfoldable pub apply_span :
      List (String × String)
      → ℕ
      → ℕ
      → ℕ
      → ℕ
      → HistoryObservation F
      → List (HistorySeries F)
      → List (HistorySeries F)
  unfolding apply_from
  apply_span keys start end from step observation ss =
      let cursor = max start from in
      apply_from (end - cursor) keys cursor end from (step * 1000) observation ss
