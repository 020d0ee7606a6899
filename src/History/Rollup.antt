-- ===== src/History/Rollup.antt =====
-- history/rollup.rs, `rollup`: spans of time are moved into the buckets of the three tiers, one
-- piece for each unit of work.
pub mod Pieces
pub mod Conservation
pub mod Balance
pub mod Time
use simple_network_monitor.Prelude.{
  ℕ, zero, suc, ◌+◌, ◌-◌, ◌*◌, Bool, true, false, Option, none, some, List, [], ◌∷◌, min, max, ltb,
  leb, ◌==◌, if◌then◌else◌,
}
use simple_network_monitor.Prelude.Float.{FloatOps}
use simple_network_monitor.Domain.Maintenance.{HistoryConfig}
use simple_network_monitor.Domain.History.Stats.{HistoryStats, duration_stats}
use simple_network_monitor.History.Tables.{tiers, floor, cutoff, retention, Span, Bucket, add_stats}

-- The first bucket of a tier that is kept.
unfoldable pub boundary : ℕ → HistoryConfig → ℕ → ℕ
unfolding floor cutoff retention
boundary now config resolution = floor (cutoff now (retention config resolution)) resolution

unfoldable pub smallest : ℕ → HistoryConfig → ℕ → ℕ
smallest now config start =
    if leb (floor (cutoff now config.five_minute_retention) 300) start
    then 300
    else if leb (floor (cutoff now config.hourly_retention) 3600) start
    then 3600
    else 86400

-- The loop over the tiers: the piece ends where a finer tier begins to be kept.
unfoldable pub cut_at_boundaries : ℕ → HistoryConfig → ℕ → List ℕ → ℕ → ℕ
unfolding boundary
cut_at_boundaries now config start [] until = until
cut_at_boundaries now config start (res ∷ rest) until =
    cut_at_boundaries now config start rest
      (if ltb start (boundary now config res) then min until (boundary now config res) else until)

unfoldable pub piece_end : ℕ → HistoryConfig → ℕ → ℕ → ℕ
unfolding smallest cut_at_boundaries
piece_end now config start end =
    let width = smallest now config start in
    cut_at_boundaries now config start tiers (min end (floor start width + width * 1000))

-- What is left of a span that begins before the daily tier is kept.
unfoldable pub clipped_start : ℕ → HistoryConfig → ℕ → ℕ
clipped_start now config cursor = max cursor (floor (cutoff now config.daily_retention) 86400)

module _ {F : Type 0} ⦃o : FloatOps F⦄ where
  -- The loop that adds the piece to each tier that keeps it.
  unfoldable pub add_to_tiers :
      ℕ → HistoryConfig → ℕ → ℕ → HistoryStats F → List ℕ → List (Bucket F) → List (Bucket F)
  unfolding boundary add_stats
  add_to_tiers now config epoch start stats [] buckets = buckets
  add_to_tiers now config epoch start stats (res ∷ rest) buckets =
      add_to_tiers now config epoch start stats rest (
        if leb (boundary now config res) start
        then add_stats epoch res (floor start res) stats buckets
        else buckets)

  -- One unit of work on the first span: the span that is left of it, if any, and the buckets.
  unfoldable pub rollup_span :
      ℕ → HistoryConfig → Span F → List (Bucket F) → Option (Span F) × List (Bucket F)
  rollup_span now config span buckets =
      let start = clipped_start now config span.cursor_ms in
      let until = piece_end now config start span.end_ms in
      let stats = duration_stats span.observation (until - start) in
      let filled = add_to_tiers now config span.epoch_id start stats tiers buckets in
      if leb span.end_ms start
      then (none, buckets)
      else if until == span.end_ms
      then (none, filled)
      else (some (record span { cursor_ms = until }), filled)

  -- `DELETE` or `UPDATE` of the first row.
  abbrev pub replace_first : Option (Span F) → List (Span F) → List (Span F)
  replace_first none rest = rest
  replace_first (some span) rest = span ∷ rest

  -- The `while work < limit` loop, on the work still allowed: the work done, the spans, the buckets.
  unfoldable pub rollup_loop :
      ℕ → HistoryConfig → ℕ → List (Span F) → List (Bucket F) → ℕ × List (Span F) × List (Bucket F)
  unfolding rollup_span
  rollup_loop now config zero spans buckets = (0, spans, buckets)
  rollup_loop now config (suc left) [] buckets = (0, [], buckets)
  rollup_loop now config (suc left) (span ∷ rest) buckets =
      let (remaining, filled) = rollup_span now config span buckets in
      let (work, spans, done) = rollup_loop now config left (replace_first remaining rest) filled in
      (suc work, spans, done)

  abbrev pub any_left : List (Span F) → Bool
  any_left [] = false
  any_left (span ∷ rest) = true

  -- The work done, whether spans are left, and the tables after it.
  unfoldable pub rollup :
      ℕ
      → HistoryConfig
      → ℕ
      → List (Span F)
      → List (Bucket F)
      → ℕ × Bool × List (Span F) × List (Bucket F)
  unfolding rollup_loop
  rollup now config limit spans buckets =
      let (work, spans', buckets') = rollup_loop now config limit spans buckets in
      (work, any_left spans', spans', buckets')
