-- ===== src/History/Ingest/Soundness.antt =====
-- The spans of an epoch never overlap, and end by its last observation.
use simple_network_monitor.Prelude.{
  unwrap_or, sym, ℕ, ◌+◌, ◌≤◌, ◌<◌, ◌≡◌, refl, inl, inr, List, [], ◌∷◌, ◌++◌, arith, All, none,
  some, Bool-cases, Option-cases, ltb, min,
}
use simple_network_monitor.History.Tables.{Epoch, Span}
use simple_network_monitor.History.Ingest.{Tables, flush_tail, saturating_add_i64}

-- Every span of the epoch ends by the given time.
abbrev pub EndsBy : {F : Type 0} → ℕ → ℕ → List (Span F) → Type 0
EndsBy id last ss = All (λ s. s.epoch_id ≡ id → s.end_ms ≤ last) ss

-- No span is empty, and of two spans of one epoch the earlier row ends before the later begins.
abbrev pub Disjoint : {F : Type 0} → List (Span F) → Type 0
Disjoint [] = Unit
Disjoint (s ∷ ss) =
    (s.cursor_ms < s.end_ms)
    × All (λ later. later.epoch_id ≡ s.epoch_id → s.end_ms ≤ later.cursor_ms) ss
    × Disjoint ss

-- The spans of an active epoch end by its last observation, and it has none before the first.
abbrev pub Tail : {F : Type 0} → List (Span F) → Epoch F → Type 0
Tail spans e = e.ended_ms ≡ none → EndsBy e.id (unwrap_or e.last_ms 0) spans

pub record IsSound {F : Type 0} (t : Tables F) : Type 0 where
  pub disjoint : Disjoint t.spans
  pub tails : All (Tail t.spans) t.epochs

module _ {F : Type 0} where
  pub EndsBy-mono : (id l m : ℕ) (ss : List (Span F)) → l ≤ m → EndsBy id l ss → EndsBy id m ss
  EndsBy-mono id l m [] h a = tt
  EndsBy-mono id l m (s ∷ ss) h a = (λ e. omega (arith, a.0 e), EndsBy-mono id l m ss h a.1)

  pub EndsBy-snoc :
      (id l : ℕ) (ss : List (Span F)) (new : Span F)
      → EndsBy id l ss
      → (new.epoch_id ≡ id → new.end_ms ≤ l)
      → EndsBy id l (ss ++ new ∷ [])
  EndsBy-snoc id l [] new a h = (h, tt)
  EndsBy-snoc id l (s ∷ ss) new a h = (a.0, EndsBy-snoc id l ss new a.1 h)

  later-snoc :
      (id end : ℕ) (ss : List (Span F)) (new : Span F)
      → All (λ later. later.epoch_id ≡ id → end ≤ later.cursor_ms) ss
      → (new.epoch_id ≡ id → end ≤ new.cursor_ms)
      → All (λ later. later.epoch_id ≡ id → end ≤ later.cursor_ms) (ss ++ new ∷ [])
  later-snoc id end [] new a h = (h, tt)
  later-snoc id end (s ∷ ss) new a h = (a.0, later-snoc id end ss new a.1 h)

  pub Disjoint-snoc :
      (ss : List (Span F)) (new : Span F)
      → Disjoint ss
      → new.cursor_ms < new.end_ms
      → EndsBy new.epoch_id new.cursor_ms ss
      → Disjoint (ss ++ new ∷ [])
  Disjoint-snoc [] new d h a = (h, tt, tt)
  Disjoint-snoc (s ∷ ss) new d h a = (
    d.0,
    later-snoc s.epoch_id s.end_ms ss new d.1 (λ e. a.0 (sym e)),
    Disjoint-snoc ss new d.2 h a.1,
  )

  -- One span from the last observation on is appended, or none.
  pub data Flushes (e : Epoch F) (end : ℕ) (ss : List (Span F)) : List (Span F) → Type 0 where
    unchanged : {ss' : List (Span F)} → ss' ≡ ss → Flushes e end ss ss'
    appended :
        {ss' : List (Span F)} (new : Span F)
        → ss' ≡ ss ++ new ∷ []
        → new.epoch_id ≡ e.id
        → e.last_ms ≡ some new.cursor_ms
        → new.cursor_ms < new.end_ms
        → new.end_ms ≤ end
        → new.end_ms ≤ new.cursor_ms + e.freshness_ms
        → Flushes e end ss ss'

  -- Flushing the tail of an epoch changes nothing, or it appends one span of the epoch that starts at
  -- the last observation, is not empty, ends by `end`, and ends before the observation is stale.
  pub flush_tail-Flushes :
      (e : Epoch F) (end : ℕ) (ss : List (Span F)) → Flushes e end ss (flush_tail e end ss)
  unfolding flush_tail
  flush_tail-Flushes e end ss = elim (Option-cases e.last_ms) [
    | inl n ↦ unchanged (rw (n, flush_tail) refl)
    | inr (start, l) ↦ elim (Option-cases e.last_observation) [
      | inl n ↦ unchanged (rw (l, flush_tail) (rw (n, flush_tail) refl))
      | inr (body, b) ↦
          let end' = min end (saturating_add_i64 start e.freshness_ms) in
          elim (Bool-cases (ltb start end')) [
            | inl long ↦
                appended
                  (record { epoch_id = e.id; cursor_ms = start; end_ms = end'; observation = body })
                  (ground arith) refl l (ground arith) (omega arith) (omega arith)
            | inr short ↦ unchanged (ground arith)
          ]
    ]
  ]
