-- ===== src/Domain/Inactivity.antt =====
-- domain/filters.rs: "is this host inactive for at least this long?", and the two questions to the
-- usage history that storage/sqlite/queries.rs answers with SQL. Instants are later than 1980, so
-- that taking off at most ten years stays after the epoch, where chrono's range tests cannot fail.
pub mod Soundness
use simple_network_monitor.Prelude.{
  ℕ, ◌-◌, String, Bool, true, false, not, ◌&&◌, ◌||◌, Option, none, some, List, [], ◌∷◌, ltb, leb,
  ◌==◌, str_eq, any, Result, ok, err, ◌>>=◌, ◌>>◌, map_err, if◌then◌else◌,
}
use simple_network_monitor.Domain.Clock.{Duration, DateTime}
use simple_network_monitor.Domain.Validation.{validate_duration}
use simple_network_monitor.Domain.Usage.{UsageSnapshot, UsageCollectionStatus, collected, status_eq}

pub data StateAtCutoff : Type 0 where
  unknown : StateAtCutoff
  known : Bool → StateAtCutoff  -- whether the activity matched

pub data ActivityPredicate : Type 0 where
  console_only any_user : ActivityPredicate

unfoldable pub current_state_is_inactive : ActivityPredicate → UsageSnapshot → Bool
current_state_is_inactive p snapshot =
    status_eq snapshot.status collected && elim snapshot.console_users [
      | none ↦ false
      | some console ↦ elim snapshot.remote_users [
        | none ↦ false
        | some remote ↦ elim p [
          | console_only ↦ console == 0
          | any_user ↦ console == 0 && remote == 0
        ]
      ]
    ]

pub record InactivityHistory (E : Type 0) : Type 0 where
  pub state_at_or_before : DateTime → ActivityPredicate → Result E (Option StateAtCutoff)
  pub window_breaks_inactivity : DateTime → ActivityPredicate → Result E Bool

pub data InactivityError (E : Type 0) : Type 0 where
  invalid_duration : String → InactivityError E
  storage : E → InactivityError E

-- The two `match`es on the state at the cutoff.
abbrev pub inactive_at_cutoff : Option StateAtCutoff → Bool
inactive_at_cutoff (some (known false)) = true
inactive_at_cutoff _ = false

unfoldable pub evaluate_inactivity :
    {E : Type 0}
    → UsageSnapshot
    → Duration
    → DateTime
    → ActivityPredicate
    → InactivityHistory E
    → Result (InactivityError E) Bool
unfolding current_state_is_inactive
evaluate_inactivity snapshot duration now p history =
    if not (current_state_is_inactive p snapshot) then ok false else do
      map_err invalid_duration (validate_duration duration)
      let cutoff = now - duration
      state ← map_err storage (history.state_at_or_before cutoff p)
      if not (inactive_at_cutoff state) then ok false else do
        breaks ← map_err storage (history.window_breaks_inactivity cutoff p)
        ok (not breaks)

-- A row of `usage_history`. The table is the list of its rows in the order of their ids.
pub record UsageRow : Type 0 where
  pub id : ℕ
  pub host_id : String
  pub collected_at : DateTime
  pub console_users : Option ℕ
  pub remote_users : Option ℕ
  pub status : UsageCollectionStatus
  pub error : Option String

-- `n > 0` in SQL: a missing count does not pass.
abbrev pub positive : Option ℕ → Bool
positive none = false
positive (some n) = ltb 0 n

unfoldable pub activity_sql : ActivityPredicate → UsageRow → Bool
activity_sql console_only r = positive r.console_users
activity_sql any_user r = positive r.console_users || positive r.remote_users

-- `r` comes before the best row so far in `ORDER BY collected_at DESC, id DESC`.
abbrev pub replaces : UsageRow → Option UsageRow → Bool
replaces r none = true
replaces r (some best) = leb best.collected_at r.collected_at

unfoldable pub better : String → DateTime → Option UsageRow → UsageRow → Option UsageRow
better host cutoff best r =
    if str_eq r.host_id host && leb r.collected_at cutoff && replaces r best then some r else best

unfoldable pub latest_row : String → DateTime → Option UsageRow → List UsageRow → Option UsageRow
unfolding better
latest_row host cutoff best [] = best
latest_row host cutoff best (r ∷ rs) = latest_row host cutoff (better host cutoff best r) rs

unfoldable pub row_state : ActivityPredicate → UsageRow → StateAtCutoff
unfolding activity_sql
row_state p r = if status_eq r.status collected then known (activity_sql p r) else unknown

unfoldable pub sql_state :
    List UsageRow → String → DateTime → ActivityPredicate → Option StateAtCutoff
unfolding latest_row row_state
sql_state rows host cutoff p = elim (latest_row host cutoff none rows) [
  | none ↦ none
  | some r ↦ some (row_state p r)
]

unfoldable pub row_breaks : String → DateTime → ActivityPredicate → UsageRow → Bool
unfolding activity_sql
row_breaks host cutoff p r =
    str_eq r.host_id host
    && ltb cutoff r.collected_at
    && (not (status_eq r.status collected) || activity_sql p r)

unfoldable pub sql_breaks : List UsageRow → String → DateTime → ActivityPredicate → Bool
unfolding row_breaks
sql_breaks rows host cutoff p = any (row_breaks host cutoff p) rows

-- `SqliteInactivityHistory`, on a database that answers.
unfoldable pub sqlite_history : {E : Type 0} → List UsageRow → String → InactivityHistory E
unfolding sql_state sql_breaks
sqlite_history rows host = record {
  state_at_or_before = λ cutoff p. ok (sql_state rows host cutoff p);
  window_breaks_inactivity = λ cutoff p. ok (sql_breaks rows host cutoff p);
}
