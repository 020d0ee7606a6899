-- ===== src/History/Rollup/Time.antt =====
-- The whole rollup: it keeps the recorded time, works within its limit, and finishes.
use simple_network_monitor.Prelude.{
  ℕ, zero, suc, ◌+◌, ◌-◌, ◌%◌, ◌^◌, ◌≤◌, ◌<◌, ◌≡◌, refl, List, [], ◌∷◌, arith, leb, ◌==◌, false,
  Bool-cases, inl, inr, ok,
}
use simple_network_monitor.Prelude.Float.{FloatOps}
use simple_network_monitor.Domain.Maintenance.{HistoryConfig, validate_history}
use simple_network_monitor.Domain.History.Stats.{HistoryStats}
use simple_network_monitor.History.Tables.{Span, Bucket}
use simple_network_monitor.History.Rollup.{
  piece_end, clipped_start, rollup_span, replace_first, rollup_loop, rollup,
}
use simple_network_monitor.History.Rollup.Pieces.{piece_end-FitsTier}
use simple_network_monitor.History.Rollup.Conservation.{
  held, TimeCounter, up_ms-TimeCounter, down_ms-TimeCounter, usage_observed_ms-TimeCounter,
}
use simple_network_monitor.History.Rollup.Balance.{IsTier, owed, rollup_loop-balance}

clipped_start-le :
    (now : ℕ) (config : HistoryConfig) (cursor : ℕ) → cursor ≤ clipped_start now config cursor
unfolding clipped_start
clipped_start-le now config cursor = omega arith

module _ {F : Type 0} ⦃o : FloatOps F⦄ where
  -- One bound for the work that the spans need: a unit for each millisecond, and one for each row.
  unfoldable pub work_bound : List (Span F) → ℕ
  work_bound [] = 0
  work_bound (s ∷ ss) = suc (s.end_ms - s.cursor_ms) + work_bound ss

  module _ (now : ℕ) (config : HistoryConfig) where
    -- What the tier holds and the spans owe, before and after.
    abbrev pub SameTime :
        {field : HistoryStats F → ℕ}
        → TimeCounter field
        → ℕ
        → ℕ
        → ℕ
        → List (Span F)
        → List (Bucket F)
        → Type 0
    SameTime {field = field} counter epoch res limit spans buckets =
        let (work, more, spans', buckets') = rollup now config limit spans buckets in
        (held field counter epoch res buckets' + owed field counter epoch res now config spans')
          % 2 ^ 64
        ≡ (held field counter epoch res buckets + owed field counter epoch res now config spans)
          % 2 ^ 64

    rollup_span-shrinks :
        (s : Span F) (rest : List (Span F)) (buckets : List (Bucket F))
        → work_bound (replace_first (rollup_span now config s buckets).0 rest)
          < work_bound (s ∷ rest)
    unfolding work_bound rollup_span
    rollup_span-shrinks s rest buckets =
        let start = clipped_start now config s.cursor_ms in
        let later = clipped_start-le now config s.cursor_ms in
        elim (Bool-cases (leb s.end_ms start)) [
          | inl gone ↦ rw gone (omega arith)
          | inr more ↦
              let p = piece_end-FitsTier now config start s.end_ms (ground arith) in
              elim (Bool-cases (piece_end now config start s.end_ms == s.end_ms)) [
                | inl done ↦ rw (more, done) (omega arith)
                | inr left ↦ rw (more, left) (ground (arith, p.0, p.1))
              ]
        ]

    pub rollup_loop-finishes :
        (limit : ℕ) (spans : List (Span F)) (buckets : List (Bucket F))
        → ((rollup_loop now config limit spans buckets).0 ≤ limit)
          × (work_bound spans ≤ limit → (rollup_loop now config limit spans buckets).1 ≡ [])
    unfolding rollup_loop work_bound
    rollup_loop-finishes zero [] buckets = (omega arith, λ h. refl)
    rollup_loop-finishes zero (s ∷ ss) buckets = (omega arith, λ h. absurd (omega arith))
    rollup_loop-finishes (suc limit) [] buckets = (omega arith, λ h. refl)
    rollup_loop-finishes (suc limit) (s ∷ rest) buckets =
        let r = rollup_span now config s buckets in
        let h = rollup_loop-finishes limit (replace_first r.0 rest) r.1 in
        let less = rollup_span-shrinks s rest buckets in
        (omega (arith, h.0), λ enough. h.1 (omega (arith, less)))

    -- For a validated configuration and each of the three tiers, a rollup with any limit keeps, for
    -- every epoch and modulo 2 ^ 64, the sum of the up time in the buckets and the up time that the
    -- spans still owe to the tier, and likewise for the down time and the time of observed usage.
    pub rollup_keeps_time :
        (epoch res limit : ℕ) (spans : List (Span F)) (buckets : List (Bucket F))
        → validate_history config ≡ ok tt
        → IsTier res
        → SameTime up_ms-TimeCounter epoch res limit spans buckets
          × SameTime down_ms-TimeCounter epoch res limit spans buckets
          × SameTime usage_observed_ms-TimeCounter epoch res limit spans buckets
    unfolding rollup
    rollup_keeps_time epoch res limit spans buckets valid tier = (
      rollup_loop-balance _ up_ms-TimeCounter epoch res now config limit spans buckets valid tier,
      rollup_loop-balance _ down_ms-TimeCounter epoch res now config limit spans buckets valid tier,
      rollup_loop-balance _ usage_observed_ms-TimeCounter epoch res now config limit spans buckets
          valid tier,
    )

    -- With a limit of one unit of work for each millisecond of the spans and one for each span, a
    -- rollup reports that nothing is left, leaves no span, and does no more work than the limit.
    pub rollup_finishes :
        (limit : ℕ) (spans : List (Span F)) (buckets : List (Bucket F))
        → work_bound spans ≤ limit
        → let (work, more, spans', buckets') = rollup now config limit spans buckets in
          (work ≤ limit) × (more ≡ false) × (spans' ≡ [])
    unfolding rollup
    rollup_finishes limit spans buckets h =
        let f = rollup_loop-finishes limit spans buckets in let e = f.1 h in (f.0, rw e refl, e)
