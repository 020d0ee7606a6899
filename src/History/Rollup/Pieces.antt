-- ===== src/History/Rollup/Pieces.antt =====
-- Each piece lies in one bucket of every tier that keeps it, and the pieces make progress.
use simple_network_monitor.Prelude.{
  ℕ, List, [], ◌∷◌, ◌≡◌, min, ◌+◌, ◌*◌, ◌≤◌, ◌<◌, arith, All, leb, if◌then◌else◌, refl, Bool-cases,
  inl, inr, ◌∙◌, ap,
}
use simple_network_monitor.Domain.Maintenance.{HistoryConfig}
use simple_network_monitor.History.Tables.{tiers, floor, retention}
use simple_network_monitor.History.Rollup.{
  boundary, clipped_start, piece_end, smallest, cut_at_boundaries,
}

-- What a piece [start, until) owes to a tier: if the tier keeps its start, the piece ends with the
-- bucket of its start at the latest, and otherwise it ends where the tier begins to keep data.
pub record FitsTier (now : ℕ) (config : HistoryConfig) (start until res : ℕ) : Type 0 where
  pub kept : boundary now config res ≤ start → until ≤ floor start res + res * 1000
  pub dropped : start < boundary now config res → until ≤ boundary now config res

pub piece_end-FitsTier :
    (now : ℕ) (config : HistoryConfig) (start end : ℕ)
    → start < end
    → (start < piece_end now config start end)
      × (piece_end now config start end ≤ end)
      × All (FitsTier now config start (piece_end now config start end)) tiers
unfolding piece_end boundary floor
piece_end-FitsTier now config start end h = ground arith

-- The latest end of a piece for one tier: the end of the bucket of its start where the tier keeps
-- it, and otherwise the time from which the tier keeps data.
abbrev pub tier_limit : ℕ → HistoryConfig → ℕ → ℕ → ℕ
tier_limit now config start res =
    if leb (boundary now config res) start
    then floor start res + res * 1000
    else boundary now config res

-- The least of the limits of the tiers, and of the end of the span.
abbrev pub least_limit : ℕ → HistoryConfig → ℕ → ℕ → List ℕ → ℕ
least_limit now config start end [] = end
least_limit now config start end (res ∷ rest) =
    min (tier_limit now config start res) (least_limit now config start end rest)

smallest_kept :
    (now : ℕ) (config : HistoryConfig) (start : ℕ)
    → smallest now config start ≡ (
        if leb (boundary now config 300) start
        then 300
        else if leb (boundary now config 3600) start
        then 3600
        else 86400)
unfolding smallest boundary retention
smallest_kept now config start = refl

-- The bucket of a finer tier ends with that of a coarser one at the latest.
floor-nested :
    (start : ℕ)
    → (floor start 300 + 300 * 1000 ≤ floor start 3600 + 3600 * 1000)
      × (floor start 3600 + 3600 * 1000 ≤ floor start 86400 + 86400 * 1000)
unfolding floor
floor-nested start = omega arith

-- From a start that the daily tier keeps.
kept_end-least_limit :
    (now : ℕ) (config : HistoryConfig) (start end : ℕ)
    → start < end
    → boundary now config 86400 ≤ start
    → (start < piece_end now config start end)
      × (piece_end now config start end ≡ least_limit now config start end tiers)
unfolding piece_end
kept_end-least_limit now config start end h daily =
    let (hourly, day) = floor-nested start in
    let width = smallest_kept now config start in
    (
      (piece_end-FitsTier now config start end h).0,
      elim (Bool-cases (leb (boundary now config 300) start)) [
        | inl five ↦ at 300 (rw (width, five) refl) ∙ ground arith
        | inr coarse ↦ elim (Bool-cases (leb (boundary now config 3600) start)) [
          | inl hour ↦ at 3600 (rw (width, coarse, hour) refl) ∙ ground arith
          | inr late ↦ at 86400 (rw (width, coarse, late) refl) ∙ ground arith
        ]
      ],
    )
  where
    at :
        (w : ℕ)
        → smallest now config start ≡ w
        → piece_end now config start end
          ≡ cut_at_boundaries now config start tiers (min end (floor start w + w * 1000))
    at w e =
        ap (λ w. cut_at_boundaries now config start tiers (min end (floor start w + w * 1000))) e

clipped_start-kept :
    (now : ℕ) (config : HistoryConfig) (cursor : ℕ)
    → boundary now config 86400 ≤ clipped_start now config cursor
unfolding boundary retention clipped_start
clipped_start-kept now config cursor = omega arith

-- From the clipped start of a span, where that is before the end, the piece is not empty, and it ends
-- exactly at the first of these: the end of the span, and for each of the three tiers the end of the
-- bucket of its start, where the tier keeps the start, or the time from which the tier keeps data,
-- where it does not.
pub piece_end-least_limit :
    (now : ℕ) (config : HistoryConfig) (cursor end : ℕ)
    → clipped_start now config cursor < end
    → (clipped_start now config cursor < piece_end now config (clipped_start now config cursor) end)
      × (piece_end now config (clipped_start now config cursor) end
          ≡ least_limit now config (clipped_start now config cursor) end tiers)
piece_end-least_limit now config cursor end h =
    kept_end-least_limit now config (clipped_start now config cursor) end h
      (clipped_start-kept now config cursor)
