-- ===== src/History/Tables/Bins.antt =====
-- The bins of a histogram, and the one of a latency.
use simple_network_monitor.Prelude.{
  ℕ, unwrap_or, zero, suc, ◌+◌, ◌<◌, ◌≤◌, ◌≡◌, refl, sym, ap, ◌∙◌, Bool, false, Option, none, some,
  List, [], ◌∷◌, arith, ◌==◌, length, set, replicate, get_elem?, Option-cases, inl, inr,
}
use simple_network_monitor.Prelude.Float.{FloatOps}
use simple_network_monitor.Domain.Clock.{add_u64}
use simple_network_monitor.Domain.History.Stats.{
  HistoryObservation, add_histogram, sample_stats, duration_stats, with_usage, valid_latency,
  latency_bin, position, latency_bounds,
}
use simple_network_monitor.History.Tables.Counting.{
  Contribution, sample, time, one, falls_in, is_measured, bin_of, stats_of,
}

-- A bin of a histogram, which is empty where there is none.
abbrev pub bin : ℕ → List ℕ → ℕ
bin i xs = unwrap_or (get_elem? xs i) 0

pub bin-add_histogram :
    (i : ℕ) (xs ys : List ℕ)
    → length xs ≡ length ys
    → bin i (add_histogram xs ys) ≡ add_u64 (bin i xs) (bin i ys)
bin-add_histogram i [] [] h = refl
bin-add_histogram i [] (y ∷ ys) h = absurd (omega (arith, h))
bin-add_histogram i (x ∷ xs) [] h = absurd (omega (arith, h))
bin-add_histogram zero (x ∷ xs) (y ∷ ys) h = refl
bin-add_histogram (suc i) (x ∷ xs) (y ∷ ys) h = bin-add_histogram i xs ys (omega (arith, h))

pub bin-zeros : (n i : ℕ) → bin i (replicate n 0) ≡ 0
bin-zeros zero i = refl
bin-zeros (suc n) zero = refl
bin-zeros (suc n) (suc i) = bin-zeros n i

bin-set_zeros : (n i b : ℕ) → i < n → bin i (set (replicate n 0) b 1) ≡ one (b == i)
bin-set_zeros zero i b h = absurd (omega (arith, h))
bin-set_zeros (suc n) zero zero h = refl
bin-set_zeros (suc n) (suc i) zero h = bin-zeros n i ∙ ground arith
bin-set_zeros (suc n) zero (suc b) h = ground arith
bin-set_zeros (suc n) (suc i) (suc b) h = bin-set_zeros n i b (omega (arith, h)) ∙ ground arith

pub bin-get_elem? : (i : ℕ) (xs : List ℕ) → i < length xs → get_elem? xs i ≡ some (bin i xs)
bin-get_elem? i [] h = absurd (omega (arith, h))
bin-get_elem? zero (x ∷ xs) h = refl
bin-get_elem? (suc i) (x ∷ xs) h = bin-get_elem? i xs (omega (arith, h))

module _ {F : Type 0} ⦃o : FloatOps F⦄ where
  -- The number that `position` gives, or the number of the overflow bin.
  abbrev bin_from : F → ℕ → List F → ℕ
  bin_from v k limits = unwrap_or (position v k limits) (k + length limits)

  bin_from-least : (v : F) (k : ℕ) (limits : List F) → k ≤ bin_from v k limits
  unfolding position
  bin_from-least v k [] = omega arith
  bin_from-least v k (limit ∷ limits) = ground (arith, bin_from-least v (suc k) limits)

  bin_from-falls_in :
      (v : F) (k i : ℕ) (limits : List F)
      → i ≤ length limits
      → (bin_from v k limits == k + i) ≡ falls_in v i limits
  unfolding position
  bin_from-falls_in v k zero [] h = ground arith
  bin_from-falls_in v k (suc i) [] h = absurd (omega (arith, h))
  bin_from-falls_in v k zero (limit ∷ limits) h = ground (arith, bin_from-least v (suc k) limits)
  bin_from-falls_in v k (suc i) (limit ∷ limits) h = ground (
    arith,
    bin_from-falls_in v (suc k) i limits (omega (arith, h)),
    bin_from-least v (suc k) limits,
  )

  latency_bin-from : (v : F) → latency_bin v ≡ bin_from v 0 latency_bounds
  unfolding latency_bin
  latency_bin-from v = picked (position v 0 latency_bounds)
    where
      picked : (p : Option ℕ) → (elim p [ some i ↦ i | none ↦ 16 ]) ≡ unwrap_or p 16
      picked none = refl
      picked (some i) = refl

  latency_bin-falls_in :
      (v : F) (i : ℕ) → i < 17 → (latency_bin v == i) ≡ falls_in v i latency_bounds
  latency_bin-falls_in v i h =
      ap (λ b. b == i) (latency_bin-from v)
      ∙ ap (λ n. bin_from v 0 latency_bounds == n) (the_same i)
      ∙ bin_from-falls_in v 0 i latency_bounds (omega (arith, h))
    where
      the_same : (n : ℕ) → n ≡ 0 + n
      the_same n = omega arith

  abbrev is_in : ℕ → F → Bool
  is_in i v = falls_in v i latency_bounds

  abbrev passes : ℕ → Option F → Bool
  passes i none = false
  passes i (some v) = is_in i v

  measured :
      (i : ℕ) (s : HistoryObservation F) → is_measured (is_in i) s ≡ passes i (valid_latency s)
  measured i s = ground arith

  pub bin-single :
      (i : ℕ) → i < 17 → (c : Contribution F) → bin i (stats_of c).latency_histogram ≡ bin_of i c
  unfolding sample_stats duration_stats with_usage
  bin-single i h (time s ms) =
      let empty : (duration_stats s ms).latency_histogram ≡ replicate 17 0 = ground arith in
      ap (bin i) empty ∙ bin-zeros 17 i
  bin-single i h (sample s) = elim (Option-cases (valid_latency s)) [
    | inl e ↦
        let empty : (sample_stats s).latency_histogram ≡ replicate 17 0 =
          rw (e, sample_stats) refl in
        ap (bin i) empty ∙ bin-zeros 17 i ∙ ap one (sym (measured i s ∙ ap (passes i) e))
    | inr (v, e) ↦
        let counted : (sample_stats s).latency_histogram ≡ set (replicate 17 0) (latency_bin v) 1 =
          rw (e, sample_stats) refl in
        ap (bin i) counted
        ∙ bin-set_zeros 17 i (latency_bin v) h
        ∙ ap one (latency_bin-falls_in v i h ∙ sym (measured i s ∙ ap (passes i) e))
  ]
