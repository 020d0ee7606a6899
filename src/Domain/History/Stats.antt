-- ===== src/Domain/History/Stats.antt =====
-- `HistoryStats`, `HistoryObservation` and their methods.
use simple_network_monitor.Prelude.{
  ℕ, suc, String, Bool, not, ◌&&◌, ◌||◌, Option, none, some, List, [], ◌∷◌, map, leb, ◌==◌, str_eq,
  get_elem?, set, replicate, if◌then◌else◌,
}
use simple_network_monitor.Prelude.Float.{FloatOps}
use simple_network_monitor.Domain.Clock.{add_u64}
use simple_network_monitor.Domain.Usage.{count_ne, text_ne}

pub record HistoryStats (F : Type 0) : Type 0 where
  pub samples : ℕ
  pub successful_samples : ℕ
  pub latency_count : ℕ
  pub latency_sum_ms : F
  pub latency_min_ms : Option F
  pub latency_max_ms : Option F
  pub latency_histogram : List ℕ  -- of 17 entries
  pub up_ms : ℕ
  pub down_ms : ℕ
  pub usage_observed_ms : ℕ
  pub console_user_ms : F
  pub remote_user_ms : F

pub record HistoryObservation (F : Type 0) : Type 0 where
  pub state : String
  pub success : Bool
  pub latency_ms : Option F
  pub console_users : Option ℕ
  pub remote_users : Option ℕ
  pub error : Option String

-- The loop over the two histograms, which `zip` ends with the shorter.
abbrev pub add_histogram : List ℕ → List ℕ → List ℕ
add_histogram [] ys = []
add_histogram (x ∷ xs) [] = x ∷ xs
add_histogram (x ∷ xs) (y ∷ ys) = add_u64 x y ∷ add_histogram xs ys

-- `self.map_or(v, |n| n.min(v))` where the other side has a value, and likewise for the maximum.
abbrev pub merge_with {ℓ} : {A : Type ℓ} → (A → A → A) → Option A → Option A → Option A
merge_with f mine none = mine
merge_with f none (some v) = some v
merge_with f (some n) (some v) = some (f n v)

-- The loop over the bins: the index of the first whose running count reaches the target.
unfoldable pub find_bin : ℕ → ℕ → ℕ → List ℕ → Option ℕ
find_bin target count i [] = none
find_bin target count i (n ∷ ns) =
    let rest = find_bin target (add_u64 count n) (suc i) ns in
    if leb target (add_u64 count n) then some i else rest

-- `(count as f64 * 0.95).ceil() as u64`.
unfoldable pub p95_target : (F : Type 0) ⦃o : FloatOps F⦄ → ℕ → ℕ
p95_target F ⦃o⦄ count = o.to_nat (o.ceil (o.mul (o.of_nat count) (o.literal 95 100)))

module _ {F : Type 0} ⦃o : FloatOps F⦄ where
  -- The inclusive upper bounds of the bins, whose last is the overflow bin.
  abbrev pub latency_bounds : List F
  latency_bounds =
      o.literal 1 2
      ∷ map (λ n. o.literal n 1)
          (1 ∷ 2 ∷ 4 ∷ 8 ∷ 16 ∷ 32 ∷ 64 ∷ 128 ∷ 256 ∷ 512 ∷ 1024 ∷ 2048 ∷ 4096 ∷ 8192 ∷ 16384 ∷ [])

  abbrev pub default_stats : HistoryStats F
  default_stats = record {
    samples = 0;
    successful_samples = 0;
    latency_count = 0;
    latency_sum_ms = o.zero_float;
    latency_min_ms = none;
    latency_max_ms = none;
    latency_histogram = replicate 17 0;
    up_ms = 0;
    down_ms = 0;
    usage_observed_ms = 0;
    console_user_ms = o.zero_float;
    remote_user_ms = o.zero_float;
  }

  unfoldable pub merge : HistoryStats F → HistoryStats F → HistoryStats F
  merge s other = record {
    samples = add_u64 s.samples other.samples;
    successful_samples = add_u64 s.successful_samples other.successful_samples;
    latency_count = add_u64 s.latency_count other.latency_count;
    latency_sum_ms = o.add s.latency_sum_ms other.latency_sum_ms;
    latency_min_ms = merge_with o.min_float s.latency_min_ms other.latency_min_ms;
    latency_max_ms = merge_with o.max_float s.latency_max_ms other.latency_max_ms;
    latency_histogram = add_histogram s.latency_histogram other.latency_histogram;
    up_ms = add_u64 s.up_ms other.up_ms;
    down_ms = add_u64 s.down_ms other.down_ms;
    usage_observed_ms = add_u64 s.usage_observed_ms other.usage_observed_ms;
    console_user_ms = o.add s.console_user_ms other.console_user_ms;
    remote_user_ms = o.add s.remote_user_ms other.remote_user_ms;
  }

  -- `LATENCY_BOUNDS.get(i).copied().or(self.latency_max_ms)`.
  unfoldable pub bin_bound : Option F → ℕ → Option F
  bin_bound maximum i = elim (get_elem? latency_bounds i) [ some b ↦ some b | none ↦ maximum ]

  unfoldable pub latency_p95 : HistoryStats F → Option F
  unfolding p95_target find_bin bin_bound
  latency_p95 s =
      if s.latency_count == 0
      then none
      else elim (find_bin (p95_target F s.latency_count) 0 0 s.latency_histogram) [
        | none ↦ none
        | some i ↦ bin_bound s.latency_max_ms i
      ]

  -- `position(|limit| v <= *limit)`, from index `i`; the default is the overflow bin.
  unfoldable pub position : F → ℕ → List F → Option ℕ
  position v i [] = none
  position v i (limit ∷ limits) =
      let rest = position v (suc i) limits in if o.le v limit then some i else rest

  unfoldable pub latency_bin : F → ℕ
  unfolding position
  latency_bin v = elim (position v 0 latency_bounds) [ some i ↦ i | none ↦ 16 ]

  -- `filter(|v| self.success && v.is_finite() && *v >= 0.)`.
  abbrev pub valid_latency : HistoryObservation F → Option F
  valid_latency s = elim s.latency_ms [
    | none ↦ none
    | some v ↦ if s.success && o.is_finite v && o.le o.zero_float v then some v else none
  ]

  unfoldable pub sample_stats : HistoryObservation F → HistoryStats F
  unfolding latency_bin
  sample_stats s =
      let base : HistoryStats F = record default_stats {
        samples = 1;
        successful_samples = if s.success then 1 else 0;
      } in
      elim (valid_latency s) [
        | none ↦ base
        | some v ↦ record base {
          latency_count = 1;
          latency_sum_ms = v;
          latency_min_ms = some v;
          latency_max_ms = some v;
          latency_histogram = set base.latency_histogram (latency_bin v) 1;
        }
      ]

  -- The time of observed users, where both counts are known.
  unfoldable pub with_usage : HistoryObservation F → ℕ → HistoryStats F → HistoryStats F
  with_usage s duration_ms base = elim s.console_users [
    | none ↦ base
    | some console ↦ elim s.remote_users [
      | none ↦ base
      | some remote ↦ record base {
        usage_observed_ms = duration_ms;
        console_user_ms = o.mul (o.of_nat console) (o.of_nat duration_ms);
        remote_user_ms = o.mul (o.of_nat remote) (o.of_nat duration_ms);
      }
    ]
  ]

  unfoldable pub duration_stats : HistoryObservation F → ℕ → HistoryStats F
  unfolding with_usage
  duration_stats s duration_ms =
      let base : HistoryStats F = record default_stats {
        up_ms = if str_eq s.state "up" then duration_ms else 0;
        down_ms = if str_eq s.state "down" then duration_ms else 0;
      } in
      if s.success then with_usage s duration_ms base else base

unfoldable pub changed_from : {F : Type 0} → HistoryObservation F → HistoryObservation F → Bool
changed_from s previous =
    not (str_eq s.state previous.state)
    || count_ne s.console_users previous.console_users
    || count_ne s.remote_users previous.remote_users
    || text_ne s.error previous.error
