-- ===== src/Domain/History/Percentile.antt =====
-- The estimated 95th percentile is the bound of the bin that holds the wanted rank.
use simple_network_monitor.Prelude.{
  ℕ, zero, suc, ◌+◌, ◌^◌, ◌≤◌, ◌<◌, ◌≡◌, refl, ap, ◌∙◌, true, false, Option, none, some, List, [],
  ◌∷◌, arith, length, is_some, Bool-cases, Option-cases, inl, inr, get_elem?, leb,
}
use simple_network_monitor.Prelude.Float.{FloatOps}
use simple_network_monitor.Domain.Clock.{add_u64}
use simple_network_monitor.Domain.History.Stats.{
  HistoryStats, find_bin, bin_bound, p95_target, latency_p95, latency_bounds,
}
use simple_network_monitor.Domain.History.Merging.{sum, IsConsistent}

-- How many latencies the first bins hold.
pub sum_first : ℕ → List ℕ → ℕ
sum_first zero ns = 0
sum_first (suc i) [] = 0
sum_first (suc i) (n ∷ ns) = n + sum_first i ns

-- Bin `i + j`, counted from `i`, is the first at which `count` and the bins reach the target.
record Reaches (target count i j : ℕ) (ns : List ℕ) : Type 0 where
  found : find_bin target count i ns ≡ some (i + j)
  inside : j < length ns
  below : count + sum_first j ns < target
  above : target ≤ count + sum_first (suc j) ns

module _ (target count i n : ℕ) (ns : List ℕ) (fits : count + (n + sum ns) < 2 ^ 64) where
  same_sum : add_u64 count n ≡ count + n
  same_sum = omega arith

  Reaches-here : count < target → leb target (count + n) ≡ true → Reaches target count i 0 (n ∷ ns)
  unfolding find_bin sum_first
  Reaches-here low hit = record {
    found = rw (same_sum, hit) (ap some (omega arith));
    inside = omega arith;
    below = omega arith;
    above = ground arith;
  }

  Reaches-later :
      (j : ℕ)
      → leb target (count + n) ≡ false
      → Reaches target (count + n) (suc i) j ns
      → Reaches target count i (suc j) (n ∷ ns)
  unfolding find_bin sum_first
  Reaches-later j miss r = record {
    found = rw (same_sum, miss) (r.found ∙ ap some (omega arith));
    inside = omega (arith, r.inside);
    below = omega (arith, r.below);
    above = omega (arith, r.above);
  }

find_bin-Reaches :
    (target count i : ℕ) (ns : List ℕ)
    → count < target
    → target ≤ count + sum ns
    → count + sum ns < 2 ^ 64
    → (j : ℕ) × Reaches target count i j ns
unfolding sum
find_bin-Reaches target count i [] low high fits = absurd (omega arith)
find_bin-Reaches target count i (n ∷ ns) low high fits =
    elim (Bool-cases (leb target (count + n))) [
      | inl hit ↦ (0, Reaches-here target count i n ns fits low hit)
      | inr miss ↦
          let (j, r) =
            find_bin-Reaches target (count + n) (suc i) ns (ground arith) (omega arith)
              (omega arith) in
          (suc j, Reaches-later target count i n ns fits j miss r)
    ]

-- What the estimate `b` says of the histogram: it is the upper bound of bin `i`, or the largest
-- latency for the overflow bin, the bins before `i` hold fewer latencies than the target, and with
-- bin `i` they hold enough.
pub record IsRank {F : Type 0} ⦃o : FloatOps F⦄ (s : HistoryStats F) (i : ℕ) (b : F) : Type 0 where
  pub inside : i < 17
  pub bound : bin_bound s.latency_max_ms i ≡ some b
  pub below : sum_first i s.latency_histogram < p95_target F s.latency_count
  pub above : p95_target F s.latency_count ≤ sum_first (suc i) s.latency_histogram

module _ {F : Type 0} ⦃o : FloatOps F⦄ where
  bin_bound_total :
      (m : Option F) (i : ℕ) → is_some m ≡ true → i < 17 → (b : F) × (bin_bound m i ≡ some b)
  unfolding bin_bound
  bin_bound_total none i known inside = cc
  bin_bound_total (some v) i known inside =
      elim (Option-cases (get_elem? (latency_bounds {F = F}) i)) [
        | inl e ↦ (v, rw (e, bin_bound) refl)
        | inr (b, e) ↦ (b, rw (e, bin_bound) refl)
      ]

  latency_p95-eq :
      (s : HistoryStats F) (i : ℕ)
      → 0 < s.latency_count
      → find_bin (p95_target F s.latency_count) 0 0 s.latency_histogram ≡ some i
      → latency_p95 s ≡ bin_bound s.latency_max_ms i
  unfolding latency_p95
  latency_p95-eq s i h e = ground arith

  total_count :
      (s : HistoryStats F)
      → IsConsistent s
      → sum s.latency_histogram < 2 ^ 64
      → sum s.latency_histogram ≡ s.latency_count
  total_count s c fits = omega (arith, c.counted)

  -- Of consistent statistics with a latency count that did not wrap, where the wanted rank (the
  -- float computation `ceil(count * 0.95)`) is between 1 and the count, `latency_p95` returns the
  -- bound of the first bin that reaches the rank.
  pub latency_p95-IsRank :
      (s : HistoryStats F)
      → IsConsistent s
      → sum s.latency_histogram < 2 ^ 64
      → 0 < s.latency_count
      → 0 < p95_target F s.latency_count
      → p95_target F s.latency_count ≤ s.latency_count
      → (i : ℕ) × (b : F) × (latency_p95 s ≡ some b) × IsRank s i b
  latency_p95-IsRank s c fits some_latency low high =
      let total = total_count s c fits in
      let (i, r) =
        find_bin-Reaches (p95_target F s.latency_count) 0 0 s.latency_histogram low
          (omega (arith, total)) (omega arith) in
      let inside : i < 17 = omega (arith, r.inside, c.bins) in
      let (b, e) = bin_bound_total s.latency_max_ms i (c.maximum some_latency) inside in
      (
        i,
        b,
        latency_p95-eq s i some_latency (r.found ∙ ap some (omega arith)) ∙ e,
        record {
          inside = inside;
          bound = e;
          below = omega (arith, r.below);
          above = omega (arith, r.above);
        },
      )
