-- ===== src/History/Series/Crediting.antt =====
-- history/query.rs, `apply_span`: what a span adds to each bucket of a series.
use native.Mathlib.Nat.{lt-div-mul-add, div-mul-le_self, mul-le-mul_right}
use simple_network_monitor.Prelude.{
  ℕ, zero, suc, ◌≡◌, ◌∙◌, ◌≤◌, ◌<◌, ◌+◌, ◌-◌, ◌*◌, ◌/◌, refl, sym, ap, arith, inl, inr, String,
  Bool, true, false, Option, none, some, List, [], ◌∷◌, min, max, ltb, ◌==◌, str_eq, get_elem?, any,
  if◌then◌else◌, Bool-cases,
}
use simple_network_monitor.Storage.Tables.Lookups.{str_eq→≡}
use simple_network_monitor.Prelude.Float.{FloatOps}
use simple_network_monitor.Domain.History.Stats.{
  HistoryStats, HistoryObservation, merge, duration_stats,
}
use simple_network_monitor.History.Series.{
  HistoryBucket, HistorySeries, merge_bucket, merge_series, merge_keys, apply_from, apply_span,
}

-- The overlap of the time from `c` to `e` with the bucket `i`, in milliseconds.
abbrev pub overlap : ℕ → ℕ → ℕ → ℕ → ℕ → ℕ
overlap c e from width i = min e (from + (i + 1) * width) - max c (from + i * width)

product_next : (i w : ℕ) → (i + 1) * w ≡ i * w + w
product_next i w = grind arith

-- A bucket before that of the cursor meets nothing, one behind it is left to the rounds that follow,
-- and that of the cursor is met up to the end of the round.
overlap_before : (c e from w i k : ℕ) → i < k → from + k * w ≤ c → overlap c e from w i ≡ 0
overlap_before c e from w i k lt le =
    let l = mul-le-mul_right {m = i + 1} {n = k} w (omega (arith, lt)) in ground (arith, l, le)

overlap_behind :
    (c e from w i k : ℕ)
    → k < i
    → c < from + (k + 1) * w
    → overlap c e from w i ≡ overlap (min e (from + (k + 1) * w)) e from w i
overlap_behind c e from w i k lt le =
    let l = mul-le-mul_right {m = k + 1} {n = i} w (omega (arith, lt)) in ground (arith, l, le)

overlap_over : (c e from w k : ℕ) → overlap (min e (from + (k + 1) * w)) e from w k ≡ 0
overlap_over c e from w k = ground arith

overlap_here :
    (c e from w k : ℕ) → from + k * w ≤ c → overlap c e from w k ≡ min e (from + (k + 1) * w) - c
overlap_here c e from w k le = ground (arith, le)

overlap_none : (c e from w i : ℕ) → e ≤ c → overlap c e from w i ≡ 0
overlap_none c e from w i le = ground (arith, le)

-- The keys name different series.
abbrev pub Distinct : List (String × String) → Type 0
Distinct [] = Unit
Distinct (l ∷ ls) = (any (λ m. str_eq m.0 l.0) ls ≡ false) × Distinct ls

abbrev pub names : String → List (String × String) → Bool
names key ls = any (λ m. str_eq m.0 key) ls

module _ {F : Type 0} ⦃o : FloatOps F⦄ where
  -- The bucket with a number, where a series with an identifier has one.
  abbrev pub bucket_of : String → ℕ → List (HistorySeries F) → Option (HistoryBucket F)
  bucket_of key i [] = none
  bucket_of key i (s ∷ ss) =
      let rest = bucket_of key i ss in if str_eq s.id key then get_elem? s.buckets i else rest

  abbrev pub merged : Bool → HistoryStats F → Option (HistoryBucket F) → Option (HistoryBucket F)
  merged false stats b = b
  merged true stats none = none
  merged true stats (some b) = some (record b { stats = merge b.stats stats })

  merged-none : (t : Bool) (stats : HistoryStats F) → none ≡ merged t stats none
  merged-none true stats = refl
  merged-none false stats = refl

  merge_bucket-at :
      (k i : ℕ) (stats : HistoryStats F) (bs : List (HistoryBucket F))
      → get_elem? (merge_bucket k stats bs) i ≡ merged (k == i) stats (get_elem? bs i)
  unfolding merge_bucket
  merge_bucket-at zero zero stats [] = refl
  merge_bucket-at zero (suc i) stats [] = merged-none (0 == suc i) stats
  merge_bucket-at (suc k) i stats [] = merged-none (suc k == i) stats
  merge_bucket-at zero zero stats (b ∷ bs) = refl
  merge_bucket-at zero (suc i) stats (b ∷ bs) =
      let no : (0 == suc i) ≡ false = ground arith in rw no refl
  merge_bucket-at (suc k) zero stats (b ∷ bs) =
      let no : (suc k == 0) ≡ false = ground arith in rw no refl
  merge_bucket-at (suc k) (suc i) stats (b ∷ bs) =
      let same : (suc k == suc i) ≡ (k == i) = ground arith in
      merge_bucket-at k i stats bs ∙ ap (λ t. merged t stats (get_elem? bs i)) (sym same)

  merge_series-at :
      (key : String) (k i : ℕ) (stats : HistoryStats F) (ss : List (HistorySeries F))
      → bucket_of key i (merge_series key k stats ss) ≡ merged (k == i) stats (bucket_of key i ss)
  unfolding merge_series
  merge_series-at key k i stats [] = merged-none (k == i) stats
  merge_series-at key k i stats (s ∷ ss) = elim (Bool-cases (str_eq s.id key)) [
    | inl e ↦ rw (e, e) (merge_bucket-at k i stats s.buckets)
    | inr e ↦ rw (e, e) (merge_series-at key k i stats ss)
  ]

  merge_series-other :
      (other key : String) (k i : ℕ) (stats : HistoryStats F) (ss : List (HistorySeries F))
      → str_eq other key ≡ false
      → bucket_of key i (merge_series other k stats ss) ≡ bucket_of key i ss
  unfolding merge_series
  merge_series-other other key k i stats [] apart = refl
  merge_series-other other key k i stats (s ∷ ss) apart = elim (Bool-cases (str_eq s.id other)) [
    | inl e ↦
        let skipped : str_eq s.id key ≡ false =
          ap (λ t. str_eq t key) (str_eq→≡ s.id other e) ∙ apart in
        rw (e, skipped) refl
    | inr e ↦ rw e (
        ap (λ t. if str_eq s.id key then get_elem? s.buckets i else t)
          (merge_series-other other key k i stats ss apart))
  ]

  merge_keys-other :
      (key : String) (k i : ℕ) (stats : HistoryStats F) (keys : List (String × String))
      (ss : List (HistorySeries F))
      → names key keys ≡ false
      → bucket_of key i (merge_keys keys k stats ss) ≡ bucket_of key i ss
  unfolding merge_keys
  merge_keys-other key k i stats [] ss apart = refl
  merge_keys-other key k i stats ((l, label) ∷ ls) ss apart =
      merge_keys-other key k i stats ls (merge_series l k stats ss) (ground (arith, apart))
      ∙ merge_series-other l key k i stats ss (ground (arith, apart))

  merge_keys-at :
      (key : String) (k i : ℕ) (stats : HistoryStats F) (keys : List (String × String))
      (ss : List (HistorySeries F))
      → Distinct keys
      → names key keys ≡ true
      → bucket_of key i (merge_keys keys k stats ss) ≡ merged (k == i) stats (bucket_of key i ss)
  unfolding merge_keys
  merge_keys-at key k i stats [] ss apart named = cc
  merge_keys-at key k i stats ((l, label) ∷ ls) ss apart named = elim (Bool-cases (str_eq l key)) [
    | inl e ↦
        let same = str_eq→≡ l key e in
        let rest : names key ls ≡ false = ap (λ t. names t ls) (sym same) ∙ apart.0 in
        merge_keys-other key k i stats ls (merge_series l k stats ss) rest
        ∙ ap (λ t. bucket_of key i (merge_series t k stats ss)) same
        ∙ merge_series-at key k i stats ss
    | inr e ↦
        merge_keys-at key k i stats ls (merge_series l k stats ss) apart.1
          (ground (arith, e, named))
        ∙ ap (merged (k == i) stats) (merge_series-other l key k i stats ss e)
  ]

  -- What so many milliseconds of an observation add to a bucket, if there are any.
  abbrev pub credited :
      ℕ → HistoryObservation F → Option (HistoryBucket F) → Option (HistoryBucket F)
  credited ms observation b = merged (ltb 0 ms) (duration_stats observation ms) b

  module _ (key : String) (keys : List (String × String)) (apart : Distinct keys)
      (named : names key keys ≡ true) (e from w : ℕ) (wide : 0 < w)
      (observation : HistoryObservation F) (i : ℕ) where
    round :
        (k c : ℕ) (b : Option (HistoryBucket F))
        → from + k * w ≤ c
        → c < from + (k + 1) * w
        → c < e
        → credited
            (overlap (min e (from + (k + 1) * w)) e from w i)
            observation
            (merged (k == i) (duration_stats observation (min e (from + (k + 1) * w) - c)) b)
          ≡ credited (overlap c e from w i) observation b
    round k c b low high under = elim (Bool-cases (k == i)) [
      | inl here ↦
          let same : i ≡ k = ground (arith, here) in
          let some_time : ltb 0 (min e (from + (k + 1) * w) - c) ≡ true =
            ground (arith, high, under) in
          let over = overlap_over c e from w k in
          let met = overlap_here c e from w k low in
          rw (same, over, met, some_time) (let yes : (k == k) ≡ true = ground arith in rw yes refl)
      | inr elsewhere ↦ rw elsewhere (
          ap (λ ms. credited ms observation b)
            (elim (Bool-cases (ltb i k)) [
              | inl before ↦
                  overlap_before (min e (from + (k + 1) * w)) e from w i k (ground arith)
                    (ground (arith, low, high, under))
                  ∙ sym (overlap_before c e from w i k (ground arith) low)
              | inr behind ↦
                  sym (overlap_behind c e from w i k (ground (arith, elsewhere, behind)) high)
            ]))
    ]

    apply_from-at :
        (n c : ℕ) (ss : List (HistorySeries F))
        → from ≤ c
        → e - c ≤ n
        → bucket_of key i (apply_from n keys c e from w observation ss)
          ≡ credited (overlap c e from w i) observation (bucket_of key i ss)
    unfolding apply_from
    apply_from-at zero c ss le enough = rw (overlap_none c e from w i (omega (arith, enough))) refl
    apply_from-at (suc n) c ss le enough = elim (Bool-cases (ltb c e)) [
      | inr over ↦ rw (over, overlap_none c e from w i (ground arith)) refl
      | inl under ↦
          let k = (c - from) / w in
          let until = min e (from + (k + 1) * w) in
          let stats = duration_stats observation (until - c) in
          let floor = div-mul-le_self (c - from) w in
          let ceiling = lt-div-mul-add {a = c - from} wide in
          let next = product_next k w in
          let low : from + k * w ≤ c = omega (arith, floor, le) in
          let high : c < from + (k + 1) * w = omega (arith, ceiling, next) in
          let soon : c < e = ground (arith, under) in
          rw under (
            apply_from-at n until (merge_keys keys k stats ss) (omega (arith, le, soon, high))
              (omega (arith, enough, soon, high))
            ∙ ap (credited (overlap until e from w i) observation)
                (merge_keys-at key k i stats keys ss apart named)
            ∙ round k c (bucket_of key i ss) low high soon)
    ]

-- A span that is applied to the series of distinct keys adds to each bucket of these the time of its
-- observation over the overlap of the span, from the start of the answer on, with that bucket, once,
-- if there is any.
pub apply_span-at :
    {F : Type 0} ⦃o : FloatOps F⦄ (key : String) (keys : List (String × String))
    (start e from step i : ℕ) (observation : HistoryObservation F) (ss : List (HistorySeries F))
    → Distinct keys
    → names key keys ≡ true
    → 0 < step
    → bucket_of key i (apply_span keys start e from step observation ss)
      ≡ credited (overlap (max start from) e from (step * 1000) i) observation (bucket_of key i ss)
unfolding apply_span
apply_span-at key keys start e from step i observation ss apart named positive =
    apply_from-at key keys apart named e from (step * 1000) (omega (arith, positive)) observation i
      (e - max start from) (max start from) ss (omega arith) (omega arith)
