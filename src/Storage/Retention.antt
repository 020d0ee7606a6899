-- ===== src/Storage/Retention.antt =====
-- storage/sqlite/mod.rs, `prune_history`: a bounded batch of old rows is deleted. Which rows `LIMIT
-- 5000` selects is SQLite's choice, and is an argument on the selected row numbers.
pub mod Latest
pub mod Anchors
pub mod Answers
use simple_network_monitor.Prelude.{
  ℕ, ◌+◌, ◌-◌, String, Bool, not, ◌&&◌, ◌||◌, Option, none, some, List, [], ◌∷◌, ltb, leb, ◌==◌,
  str_eq, any, max, length, map, retain, Result, ok, err, ◌>>=◌, is_some, if◌then◌else◌,
}
use simple_network_monitor.Domain.Clock.{DateTime, Duration}
use simple_network_monitor.Domain.Usage.{UsageSnapshot}
use simple_network_monitor.Domain.Icmp.{IcmpTransition}
use simple_network_monitor.Domain.Inactivity.{UsageRow, replaces}
use simple_network_monitor.Storage.Errors.{StorageError}
use simple_network_monitor.Storage.Tables.{
  Keyed, lookup, Numbered, Database, Inner, Storage, Chrono,
}
use simple_network_monitor.Storage.Updates.{checked_cutoff}
use simple_network_monitor.Storage.Reconfigure.{with_inner}

abbrev pub is_in : ℕ → List ℕ → Bool
is_in id ids = any (λ i. i == id) ids

module _ {R : Type 0} where
  -- `SELECT id FROM … WHERE p`.
  abbrev pub select_ids : (R → ℕ) → (R → Bool) → List R → List ℕ
  select_ids id p [] = []
  select_ids id p (r ∷ rs) = let rest = select_ids id p rs in if p r then id r ∷ rest else rest

  -- `DELETE FROM … WHERE id IN (SELECT id FROM … WHERE p LIMIT 5000)`, with the rows deleted.
  unfoldable pub delete_limited :
      (List ℕ → List ℕ) → (R → ℕ) → (R → Bool) → Numbered R → ℕ × Numbered R
  delete_limited limit id p table =
      let chosen = limit (select_ids id p table.rows) in
      let kept = retain (λ r. not (is_in (id r) chosen)) table.rows in
      (length table.rows - length kept, record table { rows = kept })

-- `SELECT a.id … WHERE a.host_id = h.host_id AND a.collected_at < ?1 ORDER BY a.collected_at DESC,
-- a.id DESC LIMIT 1`, on rows in the order of their ids.
abbrev pub better_anchor : String → DateTime → Option UsageRow → UsageRow → Option UsageRow
better_anchor host cutoff best r =
    if str_eq r.host_id host && ltb r.collected_at cutoff && replaces r best then some r else best

unfoldable pub anchor : String → DateTime → Option UsageRow → List UsageRow → Option UsageRow
anchor host cutoff best [] = best
anchor host cutoff best (r ∷ rs) = anchor host cutoff (better_anchor host cutoff best r) rs

-- `h.id != (SELECT …)`: a comparison with no row is not true.
abbrev pub differs_from : UsageRow → Option UsageRow → Bool
differs_from r none = Bool.false
differs_from r (some a) = not (r.id == a.id)

unfoldable pub is_expired : Keyed UsageSnapshot → List UsageRow → DateTime → UsageRow → Bool
unfolding anchor
is_expired latest rows cutoff r =
    ltb r.collected_at cutoff
    && (not (is_some (lookup r.host_id latest))
        || differs_from r (anchor r.host_id cutoff none rows))

-- `MAX(retention_floor.cutoff, excluded.cutoff)`.
abbrev pub raise_floor : DateTime → Option DateTime → Option DateTime
raise_floor cutoff none = some cutoff
raise_floor cutoff (some floor) = some (max floor cutoff)

module _ {F : Type 0} where
  abbrev pub event_id : IcmpTransition F → ℕ
  event_id t = elim t.id [ none ↦ 0 | some id ↦ id ]

  abbrev pub expire_samples :
      Chrono
      → (List ℕ → List ℕ)
      → DateTime
      → Option Duration
      → Database F
      → Result StorageError (ℕ × Database F)
  expire_samples chrono limit now none db = ok (0, db)
  expire_samples chrono limit now (some retention) db = do
    cutoff ← checked_cutoff chrono now retention
    let (removed, samples) =
        delete_limited limit (λ r. r.id) (λ r. ltb r.collected_at cutoff) db.usage_samples
    ok (removed, record db { usage_samples = samples })

  unfoldable pub expire_histories : (List ℕ → List ℕ) → DateTime → Database F → ℕ × Database F
  unfolding delete_limited is_expired
  expire_histories limit cutoff db =
      let (events, transitions) =
        delete_limited limit event_id (λ t. ltb t.changed_at cutoff) db.transitions in
      let (rows, usage_history) =
        delete_limited limit (λ r. r.id) (is_expired db.latest_usage db.usage_history.rows cutoff)
          db.usage_history in
      (
        events + rows,
        record db {
          transitions = transitions;
          usage_history = usage_history;
          retention_floor = raise_floor cutoff db.retention_floor;
        },
      )

  unfoldable pub prune_history :
      Chrono
      → (List ℕ → List ℕ)
      → Option ℕ
      → DateTime
      → Storage F
      → Result StorageError (ℕ × Storage F)
  unfolding with_inner checked_cutoff expire_histories
  prune_history chrono limit handle now s =
      with_inner handle
        (λ inner. do
          cutoff ← checked_cutoff chrono now inner.history_retention
          (removed, db) ← expire_samples chrono limit now inner.usage_sample_retention inner.conn
          let (more, db') = expire_histories limit cutoff db
          ok (removed + more, record inner { conn = db' }))
        s
