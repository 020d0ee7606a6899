-- ===== src/Domain/Inactivity/Soundness.antt =====
-- A host that is reported inactive was inactive at every instant since the cutoff.
use simple_network_monitor.Prelude.{
  ◌-◌, ◌≤◌, ◌<◌, ◌≡◌, refl, inl, inr, String, true, false, ◌&&◌, Option, none, some, List, [], ◌∷◌,
  arith, leb, str_eq, ok, Bool-cases,
}
use simple_network_monitor.Domain.Clock.{Duration, DateTime}
use simple_network_monitor.Domain.Usage.{UsageSnapshot}
use simple_network_monitor.Domain.Inactivity.{
  ActivityPredicate, known, UsageRow, latest_row, replaces, row_state, sql_state, better,
  row_breaks, sql_breaks, sqlite_history, evaluate_inactivity, current_state_is_inactive,
}

-- The row records a collection that succeeded and met no activity.
abbrev pub Quiet : ActivityPredicate → UsageRow → Type 0
Quiet p r = row_state p r ≡ known false

-- The best row at a later instant, against the best one at the cutoff: the same, or a quiet row
-- from after the cutoff.
data Later (p : ActivityPredicate) (cutoff : DateTime) (at_cutoff at_later : Option UsageRow)
    : Type 0 where
  same : at_later ≡ at_cutoff → Later p cutoff at_cutoff at_later
  fresh :
      (w : UsageRow)
      → at_later ≡ some w
      → cutoff < w.collected_at
      → Quiet p w
      → Later p cutoff at_cutoff at_later

quiet_row :
    (host : String) (cutoff : DateTime) (p : ActivityPredicate) (r : UsageRow)
    → str_eq r.host_id host ≡ true
    → cutoff < r.collected_at
    → row_breaks host cutoff p r ≡ false
    → Quiet p r
unfolding row_breaks row_state
quiet_row host cutoff p r e lt b = ground arith

better-Later :
    (host : String) (p : ActivityPredicate) {cutoff t : DateTime} (r : UsageRow)
    {bc bt : Option UsageRow}
    → cutoff ≤ t
    → row_breaks host cutoff p r ≡ false
    → Later p cutoff bc bt
    → Later p cutoff (better host cutoff bc r) (better host t bt r)
unfolding better
better-Later host p {cutoff} {t} r {bc} {bt} le b l = elim (Bool-cases (str_eq r.host_id host)) [
  | inr e ↦ rw e l
  | inl e ↦ elim (Bool-cases (leb r.collected_at cutoff)) [
    | inl early ↦
        let soon : leb r.collected_at t ≡ true = ground arith in
        elim l [
          | same x ↦ same (rw (e, early, soon, x) refl)
          | fresh w x lt q ↦
              let kept : leb w.collected_at r.collected_at ≡ false = ground arith in
              fresh w (rw (e, soon, x, kept) refl) lt q
        ]
    | inr late ↦ elim (Bool-cases (leb r.collected_at t && replaces r bt)) [
      | inl taken ↦
          fresh r (rw (e, taken) refl) (ground arith) (quiet_row host cutoff p r e (ground arith) b)
      | inr kept ↦ rw (e, late, kept) l
    ]
  ]
]

latest_row-Later :
    (host : String) (p : ActivityPredicate) {cutoff t : DateTime} (rows : List UsageRow)
    {bc bt : Option UsageRow}
    → cutoff ≤ t
    → sql_breaks rows host cutoff p ≡ false
    → Later p cutoff bc bt
    → Later p cutoff (latest_row host cutoff bc rows) (latest_row host t bt rows)
unfolding latest_row sql_breaks
latest_row-Later host p [] le b l = l
latest_row-Later host p (r ∷ rs) le b l =
    latest_row-Later host p rs le (ground arith) (better-Later host p r le (ground arith) l)

sql_state-Later :
    (rows : List UsageRow) (host : String) (p : ActivityPredicate) {cutoff t : DateTime}
    → cutoff ≤ t
    → sql_state rows host cutoff p ≡ some (known false)
    → sql_breaks rows host cutoff p ≡ false
    → sql_state rows host t p ≡ some (known false)
unfolding sql_state
sql_state-Later rows host p le anchor b =
    elim (latest_row-Later host p rows {bc = none} {bt = none} le b (same refl)) [
      | same e ↦ rw (sql_state, e) anchor
      | fresh w e lt q ↦ rw (sql_state, e, q) refl
    ]

-- A yes says that the host is inactive now, and that its window in the history is quiet.
evaluate_inactivity-Yes :
    {E : Type 0} (rows : List UsageRow) (host : String) (p : ActivityPredicate)
    (snapshot : UsageSnapshot) (duration : Duration) (now : DateTime)
    → evaluate_inactivity {E = E} snapshot duration now p (sqlite_history rows host) ≡ ok true
    → (current_state_is_inactive p snapshot ≡ true)
      × ((sql_state rows host (now - duration) p ≡ some (known false))
          × (sql_breaks rows host (now - duration) p ≡ false))
unfolding evaluate_inactivity sqlite_history
evaluate_inactivity-Yes rows host p snapshot duration now h = ground arith

-- When the evaluation answers yes on the SQLite history, then the current snapshot is inactive and,
-- at every instant from the start of the duration on, the latest collection of the host in the
-- history succeeded and met no activity.
pub evaluate_inactivity-IsSound :
    {E : Type 0} (rows : List UsageRow) (host : String) (p : ActivityPredicate)
    (snapshot : UsageSnapshot) (duration : Duration) (now t : DateTime)
    → evaluate_inactivity {E = E} snapshot duration now p (sqlite_history rows host) ≡ ok true
    → now - duration ≤ t
    → (current_state_is_inactive p snapshot ≡ true) × (sql_state rows host t p ≡ some (known false))
evaluate_inactivity-IsSound rows host p snapshot duration now t h le =
    let (current, (anchor, quiet)) = evaluate_inactivity-Yes rows host p snapshot duration now h in
    (current, sql_state-Later rows host p le anchor quiet)
