-- ===== src/History/Ingest/Recording.antt =====
-- Recording an observation and closing an epoch keep the history sound.
use mathlib.Core.Path.{subst}
use simple_network_monitor.Prelude.{
  ℕ, ◌≤◌, ◌≡◌, sym, ◌∙◌, ap, inl, inr, List, [], ◌∷◌, arith, All, Option, none, some, ◌||◌,
  if◌then◌else◌, Bool-cases, Option-cases, false, ◌==◌, ==_iff, ltb, unwrap_or, String, is_none,
  ◌&&◌, str_eq,
}
use simple_network_monitor.Prelude.Float.{FloatOps}
use simple_network_monitor.Domain.History.Stats.{HistoryObservation}
use simple_network_monitor.History.Tables.{Epoch, Span}
use simple_network_monitor.History.Ingest.{
  Tables, flush_tail, set_last, set_ended, close_epoch, active_epoch, accept, record_observation,
  not_after, has_raw,
}
use simple_network_monitor.History.Ingest.Soundness.{
  EndsBy, Disjoint, Tail, IsSound, EndsBy-mono, EndsBy-snoc, Disjoint-snoc, Flushes, unchanged,
  appended, flush_tail-Flushes,
}

module _ {F : Type 0} (e : Epoch F) (end : ℕ) (ss : List (Span F)) where
  Flushes-Disjoint :
      (ss' : List (Span F))
      → Disjoint ss
      → EndsBy e.id (unwrap_or e.last_ms 0) ss
      → Flushes e end ss ss'
      → Disjoint ss'
  Flushes-Disjoint ss' d a (unchanged q) = rw q d
  Flushes-Disjoint ss' d a (appended new q same last long by fresh) =
      rw q (Disjoint-snoc ss new d long (rw (same, ← ap (λ (l : Option ℕ). unwrap_or l 0) last) a))

  Flushes-EndsBy :
      (id l : ℕ) (ss' : List (Span F))
      → EndsBy id l ss
      → (e.id ≡ id → end ≤ l)
      → Flushes e end ss ss'
      → EndsBy id l ss'
  Flushes-EndsBy id l ss' a h (unchanged q) = rw q a
  Flushes-EndsBy id l ss' a h (appended new q same last long by fresh) =
      rw q (EndsBy-snoc id l ss new a (λ i. omega (arith, h (sym same ∙ i))))

  -- A row of another epoch keeps its tail, whatever is flushed.
  other-Tail : (x : Epoch F) → (x.id == e.id) ≡ false → Tail ss x → Tail (flush_tail e end ss) x
  other-Tail x ne a active =
      Flushes-EndsBy x.id (unwrap_or x.last_ms 0) (flush_tail e end ss) (a active)
        (λ i. absurd (ground arith)) (flush_tail-Flushes e end ss)

  flushed_rows :
      (rows : List (Epoch F)) (observation : HistoryObservation F)
      → All (Tail ss) rows
      → EndsBy e.id end ss
      → All (Tail (flush_tail e end ss)) (set_last e.id end observation rows)
  unfolding set_last
  flushed_rows [] observation a b = tt
  flushed_rows (x ∷ rows) observation a b = elim (Bool-cases (x.id == e.id)) [
    | inl same ↦
        let i = (==_iff x.id e.id).0 same in
        rw same (
          λ active. rw i (
              Flushes-EndsBy e.id end (flush_tail e end ss) b (λ _. omega arith)
                (flush_tail-Flushes e end ss)),
          flushed_rows rows observation a.1 b,
        )
    | inr ne ↦ rw ne (other-Tail x ne a.0, flushed_rows rows observation a.1 b)
  ]

  closed_rows :
      (now : ℕ) (rows : List (Epoch F))
      → All (Tail ss) rows
      → All (Tail (flush_tail e end ss)) (set_ended e.id now rows)
  unfolding set_ended
  closed_rows now [] a = tt
  closed_rows now (x ∷ rows) a = elim (Bool-cases (x.id == e.id)) [
    | inl same ↦ rw same (λ active. cc, closed_rows now rows a.1)
    | inr ne ↦ rw ne (other-Tail x ne a.0, closed_rows now rows a.1)
  ]

module _ {F : Type 0} where
  -- The row that the `SELECT` finds is active, and has whatever all rows have.
  active_epoch-found :
      (P : Epoch F → Type 0) (host module_id check : String) (rows : List (Epoch F)) (e : Epoch F)
      → All P rows
      → active_epoch host module_id check rows ≡ some e
      → (e.ended_ms ≡ none) × P e
  unfolding active_epoch
  active_epoch-found P host module_id check [] e a q = cc
  active_epoch-found P host module_id check (x ∷ rows) e a q =
      elim (Bool-cases (
        str_eq x.host_id host
        && str_eq x.module_id module_id
        && str_eq x.check_id check
        && is_none x.ended_ms)) [
          | inl hit ↦
              let found : some x ≡ some e = rw hit at q in
              let same : x ≡ e = cc found in
              let active : x.ended_ms ≡ none = ground (arith, hit) in
              (subst (λ (r : Epoch F). r.ended_ms ≡ none) same active, subst P same a.0)
          | inr miss ↦ active_epoch-found P host module_id check rows e a.1 (rw miss at q)
        ]

  -- Closing an active epoch of a sound history, whose spans end by its last observation, keeps the
  -- spans of each epoch disjoint and those of an active epoch before its last observation.
  close_epoch-IsSound :
      (e : Epoch F) (now : ℕ) (t : Tables F)
      → e.ended_ms ≡ none
      → Tail t.spans e
      → IsSound t
      → IsSound (close_epoch e now t)
  unfolding close_epoch
  close_epoch-IsSound e now t active a s = record {
    disjoint =
        Flushes-Disjoint e now t.spans (flush_tail e now t.spans) s.disjoint (a active)
          (flush_tail-Flushes e now t.spans);
    tails = closed_rows e now t.spans now t.epochs s.tails;
  }

module _ {F : Type 0} ⦃o : FloatOps F⦄ where
  accept-IsSound :
      (e : Epoch F) (at : ℕ) (observation : HistoryObservation F) (t : Tables F)
      → e.ended_ms ≡ none
      → Tail t.spans e
      → unwrap_or e.last_ms 0 ≤ at
      → IsSound t
      → IsSound (accept e at observation t)
  unfolding accept
  accept-IsSound e at observation t active a later s = record {
    disjoint =
        Flushes-Disjoint e at t.spans (flush_tail e at t.spans) s.disjoint (a active)
          (flush_tail-Flushes e at t.spans);
    tails =
        flushed_rows e at t.spans t.epochs observation s.tails
          (EndsBy-mono e.id (unwrap_or e.last_ms 0) at t.spans later (a active));
  }

  offer-IsSound :
      (e : Epoch F) (at : ℕ) (observation : HistoryObservation F) (t : Tables F)
      → e.ended_ms ≡ none
      → Tail t.spans e
      → IsSound t
      → IsSound (
          if ltb at e.started_ms || not_after at e.last_ms
          then t
          else if has_raw e.id at t.raw
          then t
          else accept e at observation t)
  offer-IsSound e at observation t active a s =
      elim (Bool-cases (ltb at e.started_ms || not_after at e.last_ms)) [
        | inl early ↦ rw early s
        | inr late ↦ rw late (elim (Bool-cases (has_raw e.id at t.raw)) [
          | inl known ↦ rw known s
          | inr new ↦ rw new (accept-IsSound e at observation t active a (ground arith) s)
        ])
      ]

  -- Whatever observation is offered to a sound history, at whatever time, the spans of an epoch stay disjoint and
  -- those of an active epoch end by its last observation.
  pub record_observation-IsSound :
      (host module_id check : String) (at : ℕ) (observation : HistoryObservation F) (now : ℕ)
      (t : Tables F)
      → IsSound t
      → IsSound (record_observation host module_id check at observation now t)
  unfolding record_observation
  record_observation-IsSound host module_id check at observation now t s =
      elim (Bool-cases (ltb now at)) [
        | inl future ↦ rw future s
        | inr present ↦
            rw present (elim (Option-cases (active_epoch host module_id check t.epochs)) [
              | inl missing ↦ rw (missing, record_observation) s
              | inr (e, q) ↦
                  let (active, tail) =
                    active_epoch-found (Tail t.spans) host module_id check t.epochs e s.tails q in
                  rw (q, record_observation) (offer-IsSound e at observation t active tail s)
            ])
      ]
