-- ===== src/Storage/Retention/Anchors.antt =====
-- What a bounded delete of expired rows leaves for questions from the cutoff on.
use simple_network_monitor.Prelude.{
  ℕ, ◌-◌, ◌≡◌, ◌≤◌, ap, ◌∙◌, sym, refl, inl, inr, String, Bool, true, false, not, Option, none,
  some, List, [], ◌∷◌, arith, ◌==◌, ltb, any, map, retain, All, All-map, All-zip, Bool-cases, ok,
  is_some,
}
use simple_network_monitor.Domain.Clock.{DateTime, Duration}
use simple_network_monitor.Domain.Usage.{UsageSnapshot}
use simple_network_monitor.Domain.Inactivity.{
  ActivityPredicate, UsageRow, latest_row, row_breaks, sql_breaks, sql_state, evaluate_inactivity,
  sqlite_history, InactivityHistory, StateAtCutoff, row_state,
}
use simple_network_monitor.History.Epochs.Currency.{Distinct}
use simple_network_monitor.Storage.Tables.{Keyed, lookup}
use simple_network_monitor.Storage.Tables.Lookups.{str_eq→≡}
use simple_network_monitor.Storage.Retention.{is_in, select_ids, is_expired}
use simple_network_monitor.Storage.Retention.Latest.{
  latest_row-All, latest_row-retain, anchor-IsLatest, latest_row-Host,
}

-- `LIMIT` keeps some of the row numbers that it is given.
abbrev pub Limits : (List ℕ → List ℕ) → Type 0
Limits limit = (ids : List ℕ) (i : ℕ) → is_in i (limit ids) ≡ true → is_in i ids ≡ true

abbrev pub numbers : List UsageRow → List ℕ
numbers rows = map (λ r. r.id) rows

select-absent :
    (p : UsageRow → Bool) (rows : List UsageRow) (i : ℕ)
    → All (λ j. (i == j) ≡ false) (numbers rows)
    → is_in i (select_ids (λ r. r.id) p rows) ≡ false
select-absent p [] i a = refl
select-absent p (r ∷ rs) i a =
    let apart : (i == r.id) ≡ false = a.0 in let rest = select-absent p rs i a.1 in ground arith

present : (P : ℕ → Type 0) (rows : List UsageRow) → All P (numbers rows) → All (λ r. P r.id) rows
present P [] a = tt
present P (r ∷ rs) a = (a.0, present P rs a.1)

-- Where the row numbers are distinct, a row is selected by its number exactly when it passes.
select-Exact :
    (p : UsageRow → Bool) (rows : List UsageRow)
    → Distinct (numbers rows)
    → All (λ r. is_in r.id (select_ids (λ r. r.id) p rows) ≡ p r) rows
select-Exact p [] d = tt
select-Exact p (r ∷ rs) d = (
  let missing = select-absent p rs r.id d.0 in
      let itself : (r.id == r.id) ≡ true = ground arith in ground arith,
  All-zip _ _ _ rs
      (λ x apart exact. let f : (r.id == x.id) ≡ false = apart in let g = exact in ground arith)
      (present _ rs d.0) (select-Exact p rs d.1),
)

-- The rows that a bounded delete of those that pass `p` keeps.
abbrev pub is_kept : (List ℕ → List ℕ) → (UsageRow → Bool) → List UsageRow → UsageRow → Bool
is_kept limit p rows r = not (is_in r.id (limit (select_ids (λ x. x.id) p rows)))

kept-Unexpired :
    (limit : List ℕ → List ℕ) (p : UsageRow → Bool) (rows : List UsageRow)
    → Limits limit
    → Distinct (numbers rows)
    → All (λ r. p r ≡ false → is_kept limit p rows r ≡ true) rows
kept-Unexpired limit p rows limits d =
    All-map _ _ rows (λ r exact unexpired. one r exact unexpired) (select-Exact p rows d)
  where
    one :
        (r : UsageRow)
        → is_in r.id (select_ids (λ x. x.id) p rows) ≡ p r
        → p r ≡ false
        → is_kept limit p rows r ≡ true
    one r exact unexpired = elim (Bool-cases (is_in r.id (limit (select_ids (λ x. x.id) p rows)))) [
      | inl chosen ↦
          let selected = limits (select_ids (λ x. x.id) p rows) r.id chosen in absurd (ground arith)
      | inr spared ↦ rw spared refl
    ]

module _ (latest : Keyed UsageSnapshot) (rows : List UsageRow) (host : String)
    (cutoff : DateTime) where
  latest_row-Unexpired :
      (t : DateTime) (w : UsageRow)
      → is_some (lookup host latest) ≡ true
      → cutoff ≤ t
      → latest_row host t none rows ≡ some w
      → is_expired latest rows cutoff w ≡ false
  unfolding is_expired
  latest_row-Unexpired t w known le e =
      let own =
        str_eq→≡ w.host_id host
          (latest_row-Host host t rows none w (λ b f. absurd (ground arith)) e) in
      elim (Bool-cases (ltb w.collected_at cutoff)) [
        | inr late ↦ rw late refl
        | inl early ↦
            let found = anchor-IsLatest host cutoff t rows w le e (ground arith) in
            let itself : (w.id == w.id) ≡ true = ground arith in
            rw (own, known, found, itself) (ground arith)
      ]

  row_breaks-Unexpired :
      (c : DateTime) (p : ActivityPredicate) (r : UsageRow)
      → cutoff ≤ c
      → row_breaks host c p r ≡ true
      → is_expired latest rows cutoff r ≡ false
  unfolding is_expired row_breaks
  row_breaks-Unexpired c p r le b =
      let late : ltb r.collected_at cutoff ≡ false = ground arith in rw late refl

any-retain :
    (p keep : UsageRow → Bool) (rows : List UsageRow)
    → All (λ r. p r ≡ true → keep r ≡ true) rows
    → any p (retain keep rows) ≡ any p rows
any-retain p keep [] a = refl
any-retain p keep (r ∷ rs) a =
    let rest = any-retain p keep rs a.1 in
    elim (Bool-cases (keep r)) [
      | inl k ↦ rw (k, rest) refl
      | inr lost ↦ elim (Bool-cases (p r)) [
        | inl e ↦ absurd (let k = a.0 e in ground arith)
        | inr e ↦ rw (lost, e) rest
      ]
    ]

-- A history that gives the same answers to all questions.
abbrev fixed : {E : Type 0} → Option StateAtCutoff → Bool → InactivityHistory E
fixed state breaks = record {
  state_at_or_before = λ c p. ok state;
  window_breaks_inactivity = λ c p. ok breaks;
}

evaluate_inactivity-fixed :
    {E : Type 0} (rows : List UsageRow) (host : String) (snapshot : UsageSnapshot) (d : Duration)
    (now : DateTime) (p : ActivityPredicate)
    → evaluate_inactivity {E = E} snapshot d now p (sqlite_history rows host)
      ≡ evaluate_inactivity snapshot d now p
          (fixed (sql_state rows host (now - d) p) (sql_breaks rows host (now - d) p))
unfolding evaluate_inactivity sqlite_history
evaluate_inactivity-fixed rows host snapshot d now p = refl

-- The answers about a host from the cutoff on.
module _ (limit : List ℕ → List ℕ) (limits : Limits limit) (latest : Keyed UsageSnapshot)
    (rows : List UsageRow) (distinct : Distinct (numbers rows)) (host : String)
    (known : is_some (lookup host latest) ≡ true) (cutoff : DateTime) where
  abbrev left : List UsageRow
  left = retain (is_kept limit (is_expired latest rows cutoff) rows) rows

  latest_row-left :
      (t : DateTime) → cutoff ≤ t → latest_row host t none left ≡ latest_row host t none rows
  latest_row-left t le =
      latest_row-retain (is_kept limit (is_expired latest rows cutoff) rows) host t rows (λ w e.
        latest_row-All
          (λ r.
            is_expired latest rows cutoff r ≡ false
            → is_kept limit (is_expired latest rows cutoff) rows r ≡ true)
          host t rows none w (λ b f. absurd (ground arith))
          (kept-Unexpired limit (is_expired latest rows cutoff) rows limits distinct) e
          (latest_row-Unexpired latest rows host cutoff t w known le e))

  sql_breaks-left :
      (c : DateTime) (p : ActivityPredicate)
      → cutoff ≤ c
      → sql_breaks left host c p ≡ sql_breaks rows host c p
  unfolding sql_breaks
  sql_breaks-left c p le =
      any-retain (row_breaks host c p) (is_kept limit (is_expired latest rows cutoff) rows) rows (
        All-map _ _ rows
          (λ r kept b. kept (row_breaks-Unexpired latest rows host cutoff c p r le b))
          (kept-Unexpired limit (is_expired latest rows cutoff) rows limits distinct))

  sql_state-left :
      (c : DateTime) (p : ActivityPredicate)
      → cutoff ≤ c
      → sql_state left host c p ≡ sql_state rows host c p
  unfolding sql_state
  sql_state-left c p le =
      ap (λ o. elim o [ none ↦ none | some r ↦ some (row_state p r) ]) (latest_row-left c le)

  pub evaluate_inactivity-left :
      {E : Type 0} (snapshot : UsageSnapshot) (d : Duration) (now : DateTime)
      (p : ActivityPredicate)
      → cutoff ≤ now - d
      → evaluate_inactivity {E = E} snapshot d now p (sqlite_history left host)
        ≡ evaluate_inactivity snapshot d now p (sqlite_history rows host)
  evaluate_inactivity-left {E} snapshot d now p le =
      evaluate_inactivity-fixed left host snapshot d now p
      ∙ rw (sql_state-left (now - d) p le, sql_breaks-left (now - d) p le) refl
      ∙ sym (evaluate_inactivity-fixed rows host snapshot d now p)
