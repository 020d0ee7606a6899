-- ===== src/Examples/Statistics.antt =====
-- The theorems about statistics on concrete inputs.
use simple_network_monitor.Prelude.{ℕ, ◌^◌, ◌≤◌, ◌<◌, ◌≡◌, arith, some, refl, List, [], ◌∷◌}
use simple_network_monitor.Domain.History.Stats.{merge, sample_stats, latency_p95, p95_target}
use simple_network_monitor.Domain.History.Merging.{
  sum, IsConsistent, merge-IsConsistent, sample_stats-IsConsistent,
}
use simple_network_monitor.Domain.History.Percentile.{IsRank, latency_p95-IsRank}
use simple_network_monitor.Domain.History.Stats.{HistoryStats}
use simple_network_monitor.History.Tables.Counting.{
  Contribution, sample, time, Counts, bucket_stats, filled,
}
use simple_network_monitor.History.Tables.Totals.{filled-Counts}
use simple_network_monitor.Examples.{thousandths, fast, slow}

merge-IsConsistent_example : IsConsistent (merge (sample_stats fast) (sample_stats slow))
merge-IsConsistent_example =
    merge-IsConsistent (sample_stats fast) (sample_stats slow) (sample_stats-IsConsistent fast)
      (sample_stats-IsConsistent slow)

one_sample-fits : sum (sample_stats fast).latency_histogram < 2 ^ 64
unfolding sum sample_stats
one_sample-fits = omega arith

one_sample-counted : 0 < (sample_stats fast).latency_count
unfolding sample_stats
one_sample-counted = omega arith

one_sample-low : 0 < p95_target ℕ (sample_stats fast).latency_count
unfolding sample_stats p95_target
one_sample-low = omega arith

one_sample-high : p95_target ℕ (sample_stats fast).latency_count ≤ (sample_stats fast).latency_count
unfolding sample_stats p95_target
one_sample-high = omega arith

latency_p95-IsRank_example :
    (i : ℕ) × (b : ℕ) × (latency_p95 (sample_stats fast) ≡ some b) × IsRank (sample_stats fast) i b
latency_p95-IsRank_example =
    latency_p95-IsRank (sample_stats fast) (sample_stats-IsConsistent fast) one_sample-fits
      one_sample-counted one_sample-low one_sample-high

-- A slow sample, two minutes of it, and a fast sample.
abbrev the_rest : List (Contribution ℕ)
the_rest = time slow 120_000 ∷ sample fast ∷ []

filled-Counts_example :
    (s : HistoryStats ℕ) × (bucket_stats 1 300 0 (filled 1 300 0 (sample slow ∷ the_rest) [])
      ≡ some s)
    × Counts s (sample slow ∷ the_rest)
filled-Counts_example = filled-Counts 1 300 0 (sample slow) the_rest [] refl
