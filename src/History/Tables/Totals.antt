-- ===== src/History/Tables/Totals.antt =====
-- A bucket after any contributions.
use simple_network_monitor.Prelude.{
  ℕ, unwrap_or, ◌+◌, ◌%◌, ◌^◌, ◌≡◌, refl, sym, ap, ◌∙◌, ◌&&◌, none, some, List, [], ◌∷◌, arith,
  ◌==◌, length, Bool-cases, inl, inr,
}
use simple_network_monitor.Prelude.Float.{FloatOps}
use simple_network_monitor.Domain.Clock.{add_u64}
use simple_network_monitor.Domain.History.Stats.{
  HistoryStats, merge, default_stats, sample_stats, duration_stats, with_usage,
}
use simple_network_monitor.History.Tables.{Bucket, add_stats}
use simple_network_monitor.Domain.History.Merging.{
  length-add_histogram, sample_stats-IsConsistent, duration_stats-IsConsistent,
}
use simple_network_monitor.History.Tables.Counting.{
  Contribution, sample, time, total, samples_of, successes_of, latencies_of, bin_of, state_time_of,
  observed_time_of, Counts, stats_of, accumulated, bucket_stats, filled,
}
use simple_network_monitor.History.Tables.Bins.{
  bin, bin-get_elem?, bin-zeros, bin-add_histogram, bin-single,
}

module _ {F : Type 0} ⦃o : FloatOps F⦄ where
  stats_of-bins : (c : Contribution F) → length (stats_of c).latency_histogram ≡ 17
  stats_of-bins (sample s) = (sample_stats-IsConsistent s).bins
  stats_of-bins (time s ms) = (duration_stats-IsConsistent s ms).bins

  merge-bins :
      (s t : HistoryStats F)
      → length s.latency_histogram ≡ 17
      → length (merge s t).latency_histogram ≡ 17
  unfolding merge
  merge-bins s t h = length-add_histogram s.latency_histogram t.latency_histogram ∙ h

  -- A counter that a merge adds up.
  accumulated-total :
      (g : HistoryStats F → ℕ) (f : Contribution F → ℕ)
      → ((s t : HistoryStats F)
          → length s.latency_histogram ≡ 17
          → length t.latency_histogram ≡ 17
          → g (merge s t) ≡ add_u64 (g s) (g t))
      → ((c : Contribution F) → g (stats_of c) ≡ f c)
      → (s : HistoryStats F) (k : ℕ) (cs : List (Contribution F)) → length s.latency_histogram ≡ 17
      → g s ≡ k % 2 ^ 64
      → g (accumulated s cs) ≡ (k + total f cs) % 2 ^ 64
  accumulated-total g f adds single s k [] bins h = omega (arith, h)
  accumulated-total g f adds single s k (c ∷ cs) bins h =
      accumulated-total g f adds single (merge s (stats_of c)) (k + f c) cs
        (merge-bins s (stats_of c) bins)
        (omega (arith, adds s (stats_of c) bins (stats_of-bins c), single c, h))
      ∙ ap (λ (n : ℕ). n % 2 ^ 64) (omega arith)

  -- One contribution, counter by counter.
  samples-single : (c : Contribution F) → (stats_of c).samples ≡ samples_of c
  unfolding sample_stats duration_stats with_usage
  samples-single (sample s) = ground arith
  samples-single (time s ms) = ground arith

  successes-single : (c : Contribution F) → (stats_of c).successful_samples ≡ successes_of c
  unfolding sample_stats duration_stats with_usage
  successes-single (sample s) = ground arith
  successes-single (time s ms) = ground arith

  latencies-single : (c : Contribution F) → (stats_of c).latency_count ≡ latencies_of c
  unfolding sample_stats duration_stats with_usage
  latencies-single (sample s) = ground arith
  latencies-single (time s ms) = ground arith

  up-single : (c : Contribution F) → (stats_of c).up_ms ≡ state_time_of "up" c
  unfolding sample_stats duration_stats with_usage
  up-single (sample s) = ground arith
  up-single (time s ms) = ground arith

  down-single : (c : Contribution F) → (stats_of c).down_ms ≡ state_time_of "down" c
  unfolding sample_stats duration_stats with_usage
  down-single (sample s) = ground arith
  down-single (time s ms) = ground arith

  observed-single : (c : Contribution F) → (stats_of c).usage_observed_ms ≡ observed_time_of c
  unfolding sample_stats duration_stats with_usage
  observed-single (sample s) = ground arith
  observed-single (time s ms) = ground arith

  accumulated-bins :
      (s : HistoryStats F) (cs : List (Contribution F))
      → length s.latency_histogram ≡ 17
      → length (accumulated s cs).latency_histogram ≡ 17
  accumulated-bins s [] h = h
  accumulated-bins s (c ∷ cs) h =
      accumulated-bins (merge s (stats_of c)) cs (merge-bins s (stats_of c) h)

  -- From the empty statistics on.
  from_default :
      (g : HistoryStats F → ℕ) (f : Contribution F → ℕ)
      → ((s t : HistoryStats F)
          → length s.latency_histogram ≡ 17
          → length t.latency_histogram ≡ 17
          → g (merge s t) ≡ add_u64 (g s) (g t))
      → ((c : Contribution F) → g (stats_of c) ≡ f c)
      → g default_stats ≡ 0
      → (cs : List (Contribution F)) → g (accumulated default_stats cs) ≡ total f cs % 2 ^ 64
  from_default g f adds single empty cs =
      omega
        (arith, accumulated-total g f adds single default_stats 0 cs refl (omega (arith, empty)))

  accumulated-Counts : (cs : List (Contribution F)) → Counts (accumulated default_stats cs) cs
  unfolding merge
  accumulated-Counts cs = record {
    samples = from_default (λ s. s.samples) samples_of (λ s t h k. refl) samples-single refl cs;
    successes =
        from_default (λ s. s.successful_samples) successes_of (λ s t h k. refl) successes-single
          refl cs;
    latencies =
        from_default (λ s. s.latency_count) latencies_of (λ s t h k. refl) latencies-single refl cs;
    bins = λ i h.
        bin-get_elem? i (accumulated default_stats cs).latency_histogram
          (omega (arith, h, accumulated-bins default_stats cs refl))
        ∙ ap some (
            from_default (λ s. bin i s.latency_histogram) (bin_of i)
              (λ s t m n. bin-add_histogram i s.latency_histogram t.latency_histogram (m ∙ sym n))
              (bin-single i h) (bin-zeros 17 i) cs);
    up = from_default (λ s. s.up_ms) (state_time_of "up") (λ s t h k. refl) up-single refl cs;
    down =
        from_default (λ s. s.down_ms) (state_time_of "down") (λ s t h k. refl) down-single refl cs;
    observed =
        from_default (λ s. s.usage_observed_ms) observed_time_of (λ s t h k. refl) observed-single
          refl cs;
  }

  module _ (epoch resolution start : ℕ) where
    bucket_stats-add_stats :
        (t : HistoryStats F) (bs : List (Bucket F))
        → bucket_stats epoch resolution start (add_stats epoch resolution start t bs)
          ≡ some (merge (unwrap_or (bucket_stats epoch resolution start bs) default_stats) t)
    unfolding add_stats
    bucket_stats-add_stats t [] = ground arith
    bucket_stats-add_stats t (b ∷ bs) =
        elim (Bool-cases
          (b.epoch_id == epoch && (b.resolution == resolution && b.start_ms == start))) [
            | inl e ↦ rw (e, e) refl
            | inr e ↦ rw (e, e) (bucket_stats-add_stats t bs)
          ]

    bucket_stats-filled :
        (cs : List (Contribution F)) (s : HistoryStats F) (bs : List (Bucket F))
        → bucket_stats epoch resolution start bs ≡ some s
        → bucket_stats epoch resolution start (filled epoch resolution start cs bs)
          ≡ some (accumulated s cs)
    bucket_stats-filled [] s bs h = h
    bucket_stats-filled (c ∷ cs) s bs h =
        bucket_stats-filled cs (merge s (stats_of c))
          (add_stats epoch resolution start (stats_of c) bs)
          (bucket_stats-add_stats (stats_of c) bs
            ∙ ap (λ o. some (merge (unwrap_or o default_stats) (stats_of c))) h)

    -- When samples and times are added to a bucket that the table does not have yet, in any order and
    -- at least one of them, then the table has the bucket, and modulo 2^64 each counter of it is the
    -- total over what was added: the samples, the successes and the valid latencies, those latencies in
    -- each of the 17 bins, by the limits of the bin, and the milliseconds up, down, and of observed
    -- usage.
    pub filled-Counts :
        (c : Contribution F) (cs : List (Contribution F)) (bs : List (Bucket F))
        → bucket_stats epoch resolution start bs ≡ none
        → (s : HistoryStats F) × (bucket_stats epoch resolution start
              (filled epoch resolution start (c ∷ cs) bs)
            ≡ some s)
          × Counts s (c ∷ cs)
    filled-Counts c cs bs fresh = (
      accumulated default_stats (c ∷ cs),
      bucket_stats-filled cs (merge default_stats (stats_of c))
          (add_stats epoch resolution start (stats_of c) bs)
          (bucket_stats-add_stats (stats_of c) bs
            ∙ ap (λ o. some (merge (unwrap_or o default_stats) (stats_of c))) fresh),
      accumulated-Counts (c ∷ cs),
    )
