-- ===== src/History/Ingest.antt =====
-- history/ingest.rs: observations are recorded under the active epoch of their check, and epochs
-- follow the configuration.
pub mod Soundness
pub mod Recording
pub mod Repeated
use simple_network_monitor.Prelude.{
  ℕ, zero, suc, ◌+◌, ◌-◌, ◌^◌, String, Bool, true, false, not, ◌&&◌, ◌||◌, Option, none, some, List,
  [], ◌∷◌, ◌++◌, map, min, max, ltb, leb, ◌==◌, str_eq, any, is_none, if◌then◌else◌,
}
use simple_network_monitor.Prelude.Float.{FloatOps}
use simple_network_monitor.Domain.Clock.{Duration, as_millis, saturating_mul, saturating_add}
use simple_network_monitor.Domain.Host.{Host}
use simple_network_monitor.Domain.Tcp.{TcpCheckConfig}
use simple_network_monitor.Domain.History.Stats.{
  HistoryObservation, HistoryStats, changed_from, sample_stats,
}
use simple_network_monitor.History.Tables.{tiers, floor, Epoch, Raw, Bucket, Span, Event, add_stats}

pub record Tables (F : Type 0) : Type 0 where
  pub epochs : List (Epoch F)
  pub raw : List (Raw F)
  pub buckets : List (Bucket F)
  pub spans : List (Span F)
  pub events : List (Event F)

abbrev pub i64_max : ℕ
i64_max = 2 ^ 63 - 1

abbrev pub saturating_add_i64 : ℕ → ℕ → ℕ
saturating_add_i64 a b = min (a + b) i64_max

-- `last.is_some_and(|last| at <= last)`.
abbrev pub not_after : ℕ → Option ℕ → Bool
not_after at none = false
not_after at (some last) = leb at last

module _ {F : Type 0} where
  -- `flush_tail` on the row that it reads: the time since the last observation becomes a span, up to
  -- `end` and for as long as the observation stays fresh.
  unfoldable pub flush_tail : Epoch F → ℕ → List (Span F) → List (Span F)
  flush_tail e end spans = elim e.last_ms [
    | none ↦ spans
    | some start ↦ elim e.last_observation [
      | none ↦ spans
      | some body ↦
          let end' = min end (saturating_add_i64 start e.freshness_ms) in
          if ltb start end'
          then spans
            ++ record { epoch_id = e.id; cursor_ms = start; end_ms = end'; observation = body } ∷ []
          else spans
    ]
  ]

  -- `UPDATE history_epochs SET last_ms=?2,last_json=?3 WHERE id=?1`.
  unfoldable pub set_last : ℕ → ℕ → HistoryObservation F → List (Epoch F) → List (Epoch F)
  set_last id at observation [] = []
  set_last id at observation (e ∷ es) =
      (if e.id == id
        then record e { last_ms = some at; last_observation = some observation }
        else e)
      ∷ set_last id at observation es

  -- `UPDATE history_epochs SET ended_ms=MAX(started_ms,?2),last_ms=NULL,last_json=NULL WHERE id=?1`.
  unfoldable pub set_ended : ℕ → ℕ → List (Epoch F) → List (Epoch F)
  set_ended id now [] = []
  set_ended id now (e ∷ es) =
      (if e.id == id
        then record e {
          ended_ms = some (max e.started_ms now);
          last_ms = none;
          last_observation = none;
        }
        else e)
      ∷ set_ended id now es

  unfoldable pub close_epoch : Epoch F → ℕ → Tables F → Tables F
  unfolding flush_tail set_ended
  close_epoch e now t = record t {
    spans = flush_tail e now t.spans;
    epochs = set_ended e.id now t.epochs;
  }

  -- The `SELECT` of the active epoch of a check.
  unfoldable pub active_epoch : String → String → String → List (Epoch F) → Option (Epoch F)
  active_epoch host module_id check [] = none
  active_epoch host module_id check (e ∷ es) =
      if str_eq e.host_id host
        && str_eq e.module_id module_id
        && str_eq e.check_id check
        && is_none e.ended_ms
      then some e
      else active_epoch host module_id check es

  unfoldable pub has_raw : ℕ → ℕ → List (Raw F) → Bool
  has_raw id at rows = any (λ r. r.epoch_id == id && r.at_ms == at) rows

  -- `INSERT OR IGNORE` of the event, where the observation is the first or differs from the prior.
  unfoldable pub add_event :
      ℕ → ℕ → Option (HistoryObservation F) → HistoryObservation F → List (Event F) → List (Event F)
  add_event id at prior observation events =
      let changed : Bool = elim prior [ none ↦ true | some p ↦ changed_from observation p ] in
      let previous : Option String = elim prior [ none ↦ none | some p ↦ some p.state ] in
      if changed && not (any (λ v. v.epoch_id == id && v.at_ms == at) events)
      then events
        ++ record {
          epoch_id = id;
          at_ms = at;
          previous_state = previous;
          observation = observation;
        }
          ∷ []
      else events

module _ {F : Type 0} ⦃o : FloatOps F⦄ where
  -- The loop that adds the sample to every tier.
  unfoldable pub add_sample : ℕ → ℕ → HistoryStats F → List ℕ → List (Bucket F) → List (Bucket F)
  add_sample id at stats [] buckets = buckets
  add_sample id at stats (res ∷ rest) buckets =
      add_sample id at stats rest (add_stats id res (floor at res) stats buckets)

  -- The writes for an observation that the epoch `e` accepts.
  unfoldable pub accept : Epoch F → ℕ → HistoryObservation F → Tables F → Tables F
  accept e at observation t = record {
    epochs = set_last e.id at observation t.epochs;
    raw = t.raw ++ record { epoch_id = e.id; at_ms = at; observation = observation } ∷ [];
    buckets = add_sample e.id at (sample_stats observation) tiers t.buckets;
    spans = flush_tail e at t.spans;
    events = add_event e.id at e.last_observation observation t.events;
  }

  unfoldable pub record_observation :
      String → String → String → ℕ → HistoryObservation F → ℕ → Tables F → Tables F
  record_observation host module_id check at observation now t =
      if ltb now at then t else elim (active_epoch host module_id check t.epochs) [
        | none ↦ t
        | some e ↦
            if ltb at e.started_ms || not_after at e.last_ms
            then t
            else if has_raw e.id at t.raw
            then t
            else accept e at observation t
      ]
