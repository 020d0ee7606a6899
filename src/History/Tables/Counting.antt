-- ===== src/History/Tables/Counting.antt =====
-- domain/history.rs, `merge`, `sample_stats` and `duration_stats`, with `add_stats` of
-- storage/sqlite/history/mod.rs: what a bucket holds of the observations that went into it.
use simple_network_monitor.Prelude.{
  ℕ, String, zero, suc, ◌+◌, ◌%◌, ◌^◌, ◌<◌, ◌≡◌, Bool, true, false, not, ◌&&◌, Option, none, some,
  List, [], ◌∷◌, ◌==◌, str_eq, get_elem?, is_some, if◌then◌else◌,
}
use simple_network_monitor.Prelude.Float.{FloatOps}
use simple_network_monitor.Domain.History.Stats.{
  HistoryStats, HistoryObservation, merge, sample_stats, duration_stats, latency_bounds,
}
use simple_network_monitor.History.Tables.{Bucket, add_stats}

-- What goes into a bucket: a sample, or the milliseconds for which an observation held.
pub data Contribution (F : Type 0) : Type 0 where
  sample : HistoryObservation F → Contribution F
  time : HistoryObservation F → ℕ → Contribution F

abbrev pub one : Bool → ℕ
one true = 1
one false = 0

module _ {F : Type 0} ⦃o : FloatOps F⦄ where
  abbrev pub total : (Contribution F → ℕ) → List (Contribution F) → ℕ
  total f [] = 0
  total f (c ∷ cs) = f c + total f cs

  abbrev pub samples_of : Contribution F → ℕ
  samples_of (sample s) = 1
  samples_of (time s ms) = 0

  abbrev pub successes_of : Contribution F → ℕ
  successes_of (sample s) = one s.success
  successes_of (time s ms) = 0

  -- The latency is above every limit before the one with the number, and not above that one.
  abbrev pub falls_in : F → ℕ → List F → Bool
  falls_in v zero [] = true
  falls_in v (suc i) [] = false
  falls_in v zero (limit ∷ limits) = o.le v limit
  falls_in v (suc i) (limit ∷ limits) = not (o.le v limit) && falls_in v i limits

  -- A latency that is measured by a success, finite and not negative, and that passes a test.
  abbrev pub is_measured : (F → Bool) → HistoryObservation F → Bool
  is_measured p s = elim s.latency_ms [
    | none ↦ false
    | some v ↦ s.success && o.is_finite v && o.le o.zero_float v && p v
  ]

  abbrev pub latencies_of : Contribution F → ℕ
  latencies_of (sample s) = one (is_measured (λ v. true) s)
  latencies_of (time s ms) = 0

  abbrev pub bin_of : ℕ → Contribution F → ℕ
  bin_of i (sample s) = one (is_measured (λ v. falls_in v i latency_bounds) s)
  bin_of i (time s ms) = 0

  abbrev pub state_time_of : String → Contribution F → ℕ
  state_time_of state (sample s) = 0
  state_time_of state (time s ms) = if str_eq s.state state then ms else 0

  abbrev pub observed_time_of : Contribution F → ℕ
  observed_time_of (sample s) = 0
  observed_time_of (time s ms) =
      if s.success && is_some s.console_users && is_some s.remote_users then ms else 0

  -- Every counter of the statistics is the count or the sum over what went in, as far as 64 bits go.
  pub record Counts (s : HistoryStats F) (cs : List (Contribution F)) : Type 0 where
    pub samples : s.samples ≡ total samples_of cs % 2 ^ 64
    pub successes : s.successful_samples ≡ total successes_of cs % 2 ^ 64
    pub latencies : s.latency_count ≡ total latencies_of cs % 2 ^ 64
    pub bins :
        (i : ℕ) → i < 17 → get_elem? s.latency_histogram i ≡ some (total (bin_of i) cs % 2 ^ 64)
    pub up : s.up_ms ≡ total (state_time_of "up") cs % 2 ^ 64
    pub down : s.down_ms ≡ total (state_time_of "down") cs % 2 ^ 64
    pub observed : s.usage_observed_ms ≡ total observed_time_of cs % 2 ^ 64

  abbrev pub stats_of : Contribution F → HistoryStats F
  stats_of (sample s) = sample_stats s
  stats_of (time s ms) = duration_stats s ms

  -- The merges, one after the other.
  abbrev pub accumulated : HistoryStats F → List (Contribution F) → HistoryStats F
  accumulated s [] = s
  accumulated s (c ∷ cs) = accumulated (merge s (stats_of c)) cs

  -- The statistics of a bucket.
  abbrev pub bucket_stats : ℕ → ℕ → ℕ → List (Bucket F) → Option (HistoryStats F)
  bucket_stats epoch resolution start [] = none
  bucket_stats epoch resolution start (b ∷ bs) =
      let rest = bucket_stats epoch resolution start bs in
      if b.epoch_id == epoch && (b.resolution == resolution && b.start_ms == start)
      then some b.stats
      else rest

  -- All of it goes into one bucket.
  abbrev pub filled : ℕ → ℕ → ℕ → List (Contribution F) → List (Bucket F) → List (Bucket F)
  filled epoch resolution start [] bs = bs
  filled epoch resolution start (c ∷ cs) bs =
      filled epoch resolution start cs (add_stats epoch resolution start (stats_of c) bs)
