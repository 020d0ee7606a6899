-- ===== src/History/Rollup/Conservation.antt =====
-- Rollup neither loses nor repeats time: what the buckets of a tier hold of an epoch, and what its
-- spans still owe to the tier, have the same sum before and after.
use simple_network_monitor.Prelude.{
  ℕ, ◌+◌, ◌%◌, ◌^◌, ◌≡◌, refl, List, [], ◌∷◌, arith, leb, ◌==◌, ◌&&◌, if◌then◌else◌,
}
use simple_network_monitor.Prelude.Float.{FloatOps}
use simple_network_monitor.Domain.Clock.{add_u64}
use simple_network_monitor.Domain.Maintenance.{HistoryConfig}
use simple_network_monitor.Domain.History.Stats.{
  HistoryStats, HistoryObservation, merge, default_stats, duration_stats,
}
use simple_network_monitor.History.Tables.{floor, Bucket, add_stats}
use simple_network_monitor.History.Rollup.{boundary, add_to_tiers}

-- A counter of time: one that merging adds up and that a longer span fills in proportion.
pub record TimeCounter {F : Type 0} ⦃o : FloatOps F⦄ (field : HistoryStats F → ℕ) : Type 0 where
  pub of_default : field default_stats ≡ 0
  pub of_merge : (s t : HistoryStats F) → field (merge s t) ≡ add_u64 (field s) (field t)
  pub of_nothing : (x : HistoryObservation F) → field (duration_stats x 0) ≡ 0
  pub of_sum :
      (x : HistoryObservation F) (a b : ℕ)
      → field (duration_stats x (a + b)) ≡ field (duration_stats x a) + field (duration_stats x b)

module _ {F : Type 0} ⦃o : FloatOps F⦄ where
  pub up_ms-TimeCounter : TimeCounter {F = F} (λ s. s.up_ms)
  unfolding merge duration_stats
  up_ms-TimeCounter = record {
    of_default = refl;
    of_merge = λ s t. refl;
    of_nothing = λ x. ground arith;
    of_sum = λ x a b. ground arith;
  }

  pub down_ms-TimeCounter : TimeCounter {F = F} (λ s. s.down_ms)
  unfolding merge duration_stats
  down_ms-TimeCounter = record {
    of_default = refl;
    of_merge = λ s t. refl;
    of_nothing = λ x. ground arith;
    of_sum = λ x a b. ground arith;
  }

  pub usage_observed_ms-TimeCounter : TimeCounter {F = F} (λ s. s.usage_observed_ms)
  unfolding merge duration_stats
  usage_observed_ms-TimeCounter = record {
    of_default = refl;
    of_merge = λ s t. refl;
    of_nothing = λ x. ground arith;
    of_sum = λ x a b. ground arith;
  }

module _ {F : Type 0} ⦃o : FloatOps F⦄ (field : HistoryStats F → ℕ) (counter : TimeCounter field)
    (epoch resolution : ℕ) where
  -- What the buckets of a tier hold of an epoch.
  unfoldable pub held : List (Bucket F) → ℕ
  held [] = 0
  held (b ∷ bs) =
      (if b.epoch_id == epoch && b.resolution == resolution then field b.stats else 0) + held bs

  held-add_stats :
      (e r start : ℕ) (stats : HistoryStats F) (bs : List (Bucket F))
      → held (add_stats e r start stats bs) % 2 ^ 64
        ≡ (held bs + (if e == epoch && r == resolution then field stats else 0)) % 2 ^ 64
  unfolding held add_stats
  held-add_stats e r start stats [] =
      ground (arith, counter.of_merge default_stats stats, counter.of_default)
  held-add_stats e r start stats (b ∷ bs) =
      ground (arith, counter.of_merge b.stats stats, held-add_stats e r start stats bs)

  module _ (now : ℕ) (config : HistoryConfig) (e start : ℕ) (stats : HistoryStats F) where
    abbrev pub added : ℕ → ℕ
    added r =
        if leb (boundary now config r) start
        then (if e == epoch && r == resolution then field stats else 0)
        else 0

    held_step :
        (r : ℕ) (bs : List (Bucket F))
        → held (
              if leb (boundary now config r) start
              then add_stats e r (floor start r) stats bs
              else bs)
            % 2 ^ 64
          ≡ (held bs + added r) % 2 ^ 64
    held_step r bs = ground (arith, held-add_stats e r (floor start r) stats bs)

    -- All the tiers together.
    abbrev pub added_all : List ℕ → ℕ
    added_all [] = 0
    added_all (r ∷ rs) = added r + added_all rs

    pub held-add_to_tiers :
        (rs : List ℕ) (bs : List (Bucket F))
        → held (add_to_tiers now config e start stats rs bs) % 2 ^ 64
          ≡ (held bs + added_all rs) % 2 ^ 64
    unfolding add_to_tiers
    held-add_to_tiers [] bs = omega arith
    held-add_to_tiers (r ∷ rs) bs = omega (
      arith,
      held_step r bs,
      held-add_to_tiers rs (
          if leb (boundary now config r) start then add_stats e r (floor start r) stats bs else bs),
    )
