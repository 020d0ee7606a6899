-- ===== src/History/Ingest/Repeated.antt =====
-- history/ingest.rs, `record`: an observation that is recorded a second time.
use simple_network_monitor.Prelude.{
  ℕ, ◌≡◌, ◌∙◌, ◌⊎◌, ap, sym, refl, inl, inr, String, Bool, true, false, ◌&&◌, ◌||◌, some, List, [],
  ◌∷◌, arith, ◌==◌, leb, ltb, str_eq, is_none, Bool-cases, Option-cases, if◌then◌else◌,
}
use simple_network_monitor.Prelude.Float.{FloatOps}
use simple_network_monitor.Domain.History.Stats.{HistoryObservation}
use simple_network_monitor.History.Tables.{Epoch}
use simple_network_monitor.History.Ingest.{
  Tables, active_epoch, set_last, accept, not_after, has_raw, record_observation,
}

module _ {F : Type 0} where
  -- The active epoch after its last observation is set.
  abbrev seen : ℕ → ℕ → HistoryObservation F → Epoch F → Epoch F
  seen id at o e =
      if e.id == id then record e { last_ms = some at; last_observation = some o } else e

  seen_keeps :
      (id at : ℕ) (o : HistoryObservation F) (e : Epoch F) (host module_id check : String)
      → (str_eq (seen id at o e).host_id host
          && str_eq (seen id at o e).module_id module_id
          && str_eq (seen id at o e).check_id check
          && is_none (seen id at o e).ended_ms)
        ≡ (str_eq e.host_id host
            && str_eq e.module_id module_id
            && str_eq e.check_id check
            && is_none e.ended_ms)
  seen_keeps id at o e host module_id check = elim (Bool-cases (e.id == id)) [
    | inl m ↦ rw m refl
    | inr m ↦ rw m refl
  ]

  active_epoch-set_last :
      (host module_id check : String) (id at : ℕ) (o : HistoryObservation F) (es : List (Epoch F))
      (e : Epoch F)
      → active_epoch host module_id check es ≡ some e
      → active_epoch host module_id check (set_last id at o es) ≡ some (seen id at o e)
  unfolding active_epoch set_last
  active_epoch-set_last host module_id check id at o [] e h = cc
  active_epoch-set_last host module_id check id at o (x ∷ xs) e h =
      let same_test = seen_keeps id at o x host module_id check in
      elim (Bool-cases (
        str_eq x.host_id host
        && str_eq x.module_id module_id
        && str_eq x.check_id check
        && is_none x.ended_ms)) [
          | inl hit ↦
              let same : x ≡ e = ground arith in
              rw (same_test, hit) (ap (λ y. some (seen id at o y)) same)
          | inr miss ↦
              rw (same_test, miss)
                (active_epoch-set_last host module_id check id at o xs e (ground arith))
        ]

or_true : {A : Type 0} (b : Bool) (x y : A) → (if b || true then x else y) ≡ x
or_true true x y = refl
or_true false x y = refl

module _ {F : Type 0} ⦃o : FloatOps F⦄ where
  accept-Again :
      (host module_id check : String) (at now : ℕ) (b : HistoryObservation F) (t : Tables F)
      (e : Epoch F)
      → active_epoch host module_id check t.epochs ≡ some e
      → record_observation host module_id check at b now (accept e at b t) ≡ accept e at b t
  unfolding record_observation accept
  accept-Again host module_id check at now b t e h = elim (Bool-cases (ltb now at)) [
    | inl late ↦ rw late refl
    | inr early ↦
        let own : (e.id == e.id) ≡ true = ground arith in
        let by_now : leb at at ≡ true = ground arith in
        rw (early, active_epoch-set_last host module_id check e.id at b t.epochs e h, own, by_now)
          (or_true (ltb at e.started_ms) _ _)
  ]

  -- An observation is accepted under the active epoch, or it changes nothing.
  record_observation-Either :
      (host module_id check : String) (at now : ℕ) (b : HistoryObservation F) (t : Tables F)
      → (record_observation host module_id check at b now t ≡ t)
        ⊎ ((e : Epoch F) × (active_epoch host module_id check t.epochs ≡ some e)
            × (record_observation host module_id check at b now t ≡ accept e at b t))
  unfolding record_observation
  record_observation-Either host module_id check at now b t = elim (Bool-cases (ltb now at)) [
    | inl late ↦ inl (rw late refl)
    | inr early ↦ elim (Option-cases (active_epoch host module_id check t.epochs)) [
      | inl missing ↦ inl (rw (early, missing) refl)
      | inr (e, found) ↦ elim (Bool-cases (ltb at e.started_ms || not_after at e.last_ms)) [
        | inl old ↦ inl (rw (early, found, old) refl)
        | inr new ↦ elim (Bool-cases (has_raw e.id at t.raw)) [
          | inl twice ↦ inl (rw (early, found, new, twice) refl)
          | inr once ↦ inr (e, found, rw (early, found, new, once) refl)
        ]
      ]
    ]
  ]

  pub record_observation-Again :
      (host module_id check : String) (at now : ℕ) (b : HistoryObservation F) (t : Tables F)
      → record_observation host module_id check at b now
          (record_observation host module_id check at b now t)
        ≡ record_observation host module_id check at b now t
  record_observation-Again host module_id check at now b t =
      elim (record_observation-Either host module_id check at now b t) [
        | inl e ↦ ap (record_observation host module_id check at b now) e
        | inr (e, found, f) ↦
            ap (record_observation host module_id check at b now) f
            ∙ accept-Again host module_id check at now b t e found
            ∙ sym f
      ]
