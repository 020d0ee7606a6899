-- ===== src/History/Rollup/Balance.antt =====
-- The balance of one unit of work, and of the whole loop.
use simple_network_monitor.Prelude.{
  ℕ, zero, suc, ◌+◌, ◌-◌, ◌%◌, ◌^◌, ◌≤◌, ◌<◌, ◌≡◌, refl, sym, ap, ◌∙◌, ◌⊎◌, inl, inr, List, [], ◌∷◌,
  arith, max, leb, ◌==◌, true, Option, none, some, Bool-cases, ok, if◌then◌else◌,
}
use simple_network_monitor.Prelude.Float.{FloatOps}
use simple_network_monitor.Domain.Maintenance.{HistoryConfig, validate_history}
use simple_network_monitor.Domain.History.Stats.{HistoryStats, HistoryObservation, duration_stats}
use simple_network_monitor.History.Tables.{tiers, Span, Bucket}
use simple_network_monitor.History.Rollup.{
  boundary, piece_end, clipped_start, add_to_tiers, rollup_span, replace_first, rollup_loop,
}
use simple_network_monitor.History.Rollup.Pieces.{FitsTier, piece_end-FitsTier}
use simple_network_monitor.History.Rollup.Conservation.{
  TimeCounter, held, added_all, held-add_to_tiers,
}

abbrev pub IsTier : ℕ → Type 0
IsTier r = (r ≡ 300) ⊎ ((r ≡ 3600) ⊎ (r ≡ 86400))

-- A validated configuration keeps the coarser tiers at least as long.
boundary-daily-le :
    (now : ℕ) (config : HistoryConfig) (r : ℕ)
    → validate_history config ≡ ok tt
    → IsTier r
    → boundary now config 86400 ≤ boundary now config r
unfolding boundary validate_history
boundary-daily-le now config r valid tier = ground arith

clipped_start-eq :
    (now : ℕ) (config : HistoryConfig) (cursor : ℕ)
    → clipped_start now config cursor ≡ max cursor (boundary now config 86400)
unfolding clipped_start boundary
clipped_start-eq now config cursor = refl

piece-FitsTier :
    (now : ℕ) (config : HistoryConfig) (start end r : ℕ)
    → start < end
    → IsTier r
    → FitsTier now config start (piece_end now config start end) r
piece-FitsTier now config start end r h tier =
    let fits = (piece_end-FitsTier now config start end h).2 in
    elim tier [ inl e ↦ rw e fits.0 | inr (inl e) ↦ rw e fits.1.0 | inr (inr e) ↦ rw e fits.1.1.0 ]

module _ {F : Type 0} ⦃o : FloatOps F⦄ (field : HistoryStats F → ℕ) (counter : TimeCounter field)
    (epoch resolution now : ℕ) (config : HistoryConfig) where
  -- What a span still owes to the tier: the part of it that the tier keeps.
  pub owed_span : Span F → ℕ
  owed_span s =
      if s.epoch_id == epoch
      then field (
          duration_stats s.observation
            (s.end_ms - max s.cursor_ms (boundary now config resolution)))
      else 0

  pub owed : List (Span F) → ℕ
  owed [] = 0
  owed (s ∷ ss) = owed_span s + owed ss

  -- The time of a span splits into the piece, as far as the tier keeps it, and the rest.
  split_piece :
      (x : HistoryObservation F) (cursor start until end kept_from : ℕ)
      → start < until
      → until ≤ end
      → cursor ≤ start
      → (cursor ≡ start) ⊎ (start ≤ kept_from)
      → (start < kept_from → until ≤ kept_from)
      → (if leb kept_from start then field (duration_stats x (until - start)) else 0)
          + field (duration_stats x (end - max until kept_from))
        ≡ field (duration_stats x (end - max cursor kept_from))
  split_piece x cursor start until end kept_from h k c d f =
      elim (Bool-cases (leb kept_from start)) [
        | inl kept ↦
            let e : end - max cursor kept_from ≡ (until - start) + (end - max until kept_from) =
              ground arith in
            rw (kept, e) (sym (counter.of_sum x (until - start) (end - max until kept_from)))
        | inr outside ↦
            let e : end - max until kept_from ≡ end - max cursor kept_from = ground arith in
            rw (outside, e) (omega arith)
      ]

  added_all-tiers :
      (e start : ℕ) (stats : HistoryStats F)
      → IsTier resolution
      → added_all field counter epoch resolution now config e start stats tiers ≡ (
          if e == epoch
          then (if leb (boundary now config resolution) start then field stats else 0)
          else 0)
  added_all-tiers e start stats tier = ground arith

  abbrev owed_rest : Option (Span F) → ℕ
  owed_rest none = 0
  owed_rest (some s) = owed_span s

  module _ (s : Span F) (bs : List (Bucket F)) (valid : validate_history config ≡ ok tt)
      (tier : IsTier resolution) where
    abbrev start : ℕ
    start = clipped_start now config s.cursor_ms

    abbrev until : ℕ
    until = piece_end now config start s.end_ms

    abbrev kept_from : ℕ
    kept_from = boundary now config resolution

    start_bounds : (s.cursor_ms ≤ start) × ((s.cursor_ms ≡ start) ⊎ (start ≤ kept_from))
    start_bounds =
        let e = clipped_start-eq now config s.cursor_ms in
        let l = boundary-daily-le now config resolution valid tier in (omega arith, ground arith)

    -- A span that ends before it is kept owes nothing.
    owed_span-gone : leb s.end_ms start ≡ true → owed_span s ≡ 0
    unfolding owed_span
    owed_span-gone gone =
        let e : s.end_ms - max s.cursor_ms kept_from ≡ 0 = ground (arith, start_bounds) in
        rw e (ground (arith, counter.of_nothing s.observation))

    owed_span-split :
        start < s.end_ms
        → owed_span s
          ≡ (if s.epoch_id == epoch
              then (if leb kept_from start
                  then field (duration_stats s.observation (until - start))
                  else 0)
              else 0)
            + owed_span (record s { cursor_ms = until })
    unfolding owed_span
    owed_span-split h =
        let p = piece_end-FitsTier now config start s.end_ms h in
        let f = piece-FitsTier now config start s.end_ms resolution h tier in
        let e =
          split_piece s.observation s.cursor_ms start until s.end_ms kept_from p.0 p.1
            start_bounds.0 start_bounds.1 f.dropped in
        ground arith

    owed_span-done : until ≡ s.end_ms → owed_span (record s { cursor_ms = until }) ≡ 0
    unfolding owed_span
    owed_span-done done =
        let e : s.end_ms - max until kept_from ≡ 0 = omega arith in
        rw e (ground (arith, counter.of_nothing s.observation))

    filled_held :
        let stats = duration_stats s.observation (until - start) in
        held field counter epoch resolution
            (add_to_tiers now config s.epoch_id start stats tiers bs)
          % 2 ^ 64
        ≡ (held field counter epoch resolution bs
            + (if s.epoch_id == epoch then (if leb kept_from start then field stats else 0) else 0))
          % 2 ^ 64
    filled_held =
        let stats = duration_stats s.observation (until - start) in
        held-add_to_tiers field counter epoch resolution now config s.epoch_id start stats tiers bs
        ∙ ap (λ (t : ℕ). (held field counter epoch resolution bs + t) % 2 ^ 64)
            (added_all-tiers s.epoch_id start stats tier)

    -- One unit of work moves time from the span to the tier and loses none of it.
    rollup_span-balance :
        (held field counter epoch resolution (rollup_span now config s bs).1
            + owed_rest (rollup_span now config s bs).0)
          % 2 ^ 64
        ≡ (held field counter epoch resolution bs + owed_span s) % 2 ^ 64
    unfolding rollup_span
    rollup_span-balance = elim (Bool-cases (leb s.end_ms start)) [
      | inl gone ↦ rw gone (omega (arith, owed_span-gone gone))
      | inr more ↦
          let split = owed_span-split (ground arith) in
          elim (Bool-cases (until == s.end_ms)) [
            | inl done ↦
                rw (more, done) (omega (arith, filled_held, split, owed_span-done (ground arith)))
            | inr rest ↦ rw (more, rest) (omega (arith, filled_held, split))
          ]
    ]

  owed-replace_first :
      (r : Option (Span F)) (rest : List (Span F))
      → owed (replace_first r rest) ≡ owed_rest r + owed rest
  unfolding owed
  owed-replace_first none rest = omega arith
  owed-replace_first (some s) rest = refl

  pub rollup_loop-balance :
      (limit : ℕ) (spans : List (Span F)) (buckets : List (Bucket F))
      → validate_history config ≡ ok tt
      → IsTier resolution
      → (held field counter epoch resolution (rollup_loop now config limit spans buckets).2
            + owed (rollup_loop now config limit spans buckets).1)
          % 2 ^ 64
        ≡ (held field counter epoch resolution buckets + owed spans) % 2 ^ 64
  unfolding rollup_loop owed
  rollup_loop-balance zero spans buckets valid tier = refl
  rollup_loop-balance (suc limit) [] buckets valid tier = refl
  rollup_loop-balance (suc limit) (s ∷ rest) buckets valid tier =
      let r = rollup_span now config s buckets in
      omega (
        arith,
        rollup_loop-balance limit (replace_first r.0 rest) r.1 valid tier,
        rollup_span-balance s buckets valid tier,
        owed-replace_first r.0 rest,
      )
