-- ===== src/Domain/History/Merging.antt =====
-- domain/history.rs, `merge`: the histogram beside the latency count.
use simple_network_monitor.Prelude.{
  ℕ, zero, suc, ◌+◌, ◌%◌, ◌^◌, ◌<◌, ◌≡◌, refl, sym, ap, ◌∙◌, true, some, List, [], ◌∷◌, arith,
  length, length-set, set, replicate, is_some, Option-cases, inl, inr,
}
use simple_network_monitor.Prelude.Float.{FloatOps}
use simple_network_monitor.Domain.History.Stats.{
  HistoryStats, HistoryObservation, add_histogram, merge, default_stats, sample_stats,
  duration_stats, valid_latency, latency_bin, position, latency_bounds,
}

unfoldable pub sum : List ℕ → ℕ
sum [] = 0
sum (x ∷ xs) = x + sum xs

-- The histogram has its 17 bins, they hold as many latencies as were counted (both sums wrap at
-- 2 ^ 64), and the maximum is known once a latency was counted.
pub record IsConsistent {F : Type 0} (s : HistoryStats F) : Type 0 where
  pub bins : length s.latency_histogram ≡ 17
  pub counted : sum s.latency_histogram % 2 ^ 64 ≡ s.latency_count
  pub maximum : 0 < s.latency_count → is_some s.latency_max_ms ≡ true

pub length-add_histogram : (xs ys : List ℕ) → length (add_histogram xs ys) ≡ length xs
length-add_histogram [] ys = refl
length-add_histogram (x ∷ xs) [] = refl
length-add_histogram (x ∷ xs) (y ∷ ys) = ap suc (length-add_histogram xs ys)

sum-add_histogram :
    (xs ys : List ℕ)
    → length xs ≡ length ys
    → sum (add_histogram xs ys) % 2 ^ 64 ≡ (sum xs + sum ys) % 2 ^ 64
unfolding sum
sum-add_histogram [] [] h = refl
sum-add_histogram [] (y ∷ ys) h = absurd (omega arith)
sum-add_histogram (x ∷ xs) [] h = absurd (omega arith)
sum-add_histogram (x ∷ xs) (y ∷ ys) h = omega (arith, sum-add_histogram xs ys (omega arith))

module _ {F : Type 0} ⦃o : FloatOps F⦄ where
  -- Merging two consistent statistics gives consistent statistics.
  pub merge-IsConsistent :
      (s t : HistoryStats F) → IsConsistent s → IsConsistent t → IsConsistent (merge s t)
  unfolding merge
  merge-IsConsistent s t a b = record {
    bins = omega (arith, length-add_histogram s.latency_histogram t.latency_histogram);
    counted =
        omega
          (arith, sum-add_histogram s.latency_histogram t.latency_histogram (a.bins ∙ sym b.bins));
    maximum = λ h. ground (arith, a.maximum, b.maximum);
  }

  pub default-IsConsistent : IsConsistent (default_stats {F = F})
  unfolding sum
  default-IsConsistent = record { bins = refl; counted = refl; maximum = λ h. absurd (omega arith) }

  position-lt :
      (v : F) (i : ℕ) (limits : List F) (j : ℕ)
      → position v i limits ≡ some j
      → j < i + length limits
  unfolding position
  position-lt v i [] j e = cc
  position-lt v i (limit ∷ limits) j e = ground (arith, position-lt v (suc i) limits j)

  -- The bin of a latency is one of the 17.
  latency_bin-lt : (v : F) → latency_bin v < 17
  unfolding latency_bin
  latency_bin-lt v = elim (Option-cases (position v 0 latency_bounds)) [
    | inl e ↦ rw (e, latency_bin) (omega arith)
    | inr (j, e) ↦ let h = position-lt v 0 latency_bounds j e in rw (e, latency_bin) (omega arith)
  ]

sum-replicate_zero : (n : ℕ) → sum (replicate n 0) ≡ 0
unfolding sum
sum-replicate_zero zero = refl
sum-replicate_zero (suc n) = omega (arith, sum-replicate_zero n)

sum-set_zeros : (n i : ℕ) → i < n → sum (set (replicate n 0) i 1) ≡ 1
unfolding sum
sum-set_zeros zero i h = absurd (omega arith)
sum-set_zeros (suc n) zero h = omega (arith, sum-replicate_zero n)
sum-set_zeros (suc n) (suc i) h = omega (arith, sum-set_zeros n i (omega arith))

module _ {F : Type 0} ⦃o : FloatOps F⦄ where
  no_latency-IsConsistent :
      (s : HistoryStats F)
      → s.latency_histogram ≡ replicate 17 0
      → s.latency_count ≡ 0
      → IsConsistent s
  unfolding sum
  no_latency-IsConsistent s h c = record {
    bins = ap length h;
    counted = ap (λ (xs : List ℕ). sum xs % 2 ^ 64) h ∙ sym c;
    maximum = λ p. absurd (omega arith);
  }

  -- One sample is consistent, whether or not its latency is counted.
  pub sample_stats-IsConsistent : (s : HistoryObservation F) → IsConsistent (sample_stats s)
  unfolding sample_stats
  sample_stats-IsConsistent s = elim (Option-cases (valid_latency s)) [
    | inl e ↦ rw (e, sample_stats) (no_latency-IsConsistent _ refl refl)
    | inr (v, e) ↦
        rw (e, sample_stats)
          (record {
            bins = length-set (replicate 17 0) (latency_bin v) 1;
            counted =
                ap (λ (t : ℕ). t % 2 ^ 64) (sum-set_zeros 17 (latency_bin v) (latency_bin-lt v));
            maximum = λ h. refl;
          })
  ]

  pub duration_stats-IsConsistent :
      (s : HistoryObservation F) (d : ℕ) → IsConsistent (duration_stats s d)
  unfolding duration_stats
  duration_stats-IsConsistent s d =
      no_latency-IsConsistent (duration_stats s d) (ground arith) (ground arith)
