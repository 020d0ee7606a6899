-- ===== src/Examples/Filtered.antt =====
-- The theorems about filters and retention on concrete inputs.
use simple_network_monitor.Prelude.{
  arith, ◌+◌, ℕ, ◌-◌, ◌≡◌, ◌↔◌, refl, ◌||◌, String, true, false, none, some, List, [], ◌∷◌, ok,
}
use simple_network_monitor.Domain.Clock.{DateTime, from_secs}
use simple_network_monitor.Domain.Usage.{UsageSnapshot, collected}
use simple_network_monitor.Domain.Validation.{validate_duration}
use simple_network_monitor.Domain.Filters.{UsageFilter}
use simple_network_monitor.Domain.Inactivity.{
  UsageRow, console_only, any_user, evaluate_inactivity, sqlite_history,
}
use simple_network_monitor.App.Filters.{
  ParseDuration, empty_usage, host_of_usage, split_filter_key, namespaced, is_text_empty,
  contains_dot, parse_host_filter, parse_usage_filter,
}
use simple_network_monitor.App.Filters.Evaluable.{IsEvaluable, parse_host_filter-IsEvaluable}
use simple_network_monitor.App.Filters.Keys.{Glued, split_filter_key-IsGlue}
use simple_network_monitor.App.Filters.Restriction.{parse_usage_filter-Lifts}
use simple_network_monitor.Storage.Errors.{StorageError}
use simple_network_monitor.Storage.Tables.{Database, Storage}
use simple_network_monitor.Storage.Filtering.{above_floor, matches_usage_filter}
use simple_network_monitor.Storage.Filtering.Inactive.{
  FreshFor, CoveredFor, QuietFor, matches_usage_filter-IsQuiet,
}
use simple_network_monitor.Storage.Retention.{prune_history}
use simple_network_monitor.Storage.Retention.Answers.{prune_history-Answers}
use simple_network_monitor.Storage.Startup.{initial}
use simple_network_monitor.Examples.{lab}
use simple_network_monitor.Examples.Stored.{blank, calendar, or_else}

abbrev an_hour : ParseDuration
an_hour text = ok (from_secs 3600)

abbrev asked : UsageFilter
asked = record (empty_usage (from_secs 10_000)) { no_users_for = some (from_secs 3600) }

abbrev query : List (String × String)
query = ("usage.no_users_for", "1h") ∷ []

host_query : parse_host_filter an_hour (from_secs 10_000) query ≡ ok (host_of_usage asked)
unfolding parse_host_filter validate_duration
host_query = refl

usage_query : parse_usage_filter an_hour (from_secs 10_000) query ≡ ok asked
unfolding parse_usage_filter validate_duration
usage_query = refl

parse_host_filter-IsEvaluable_example : IsEvaluable (from_secs 10_000) (host_of_usage asked).usage
parse_host_filter-IsEvaluable_example =
    parse_host_filter-IsEvaluable an_hour (from_secs 10_000) query (host_of_usage asked) host_query

parse_usage_filter-Lifts_example :
    parse_host_filter an_hour (from_secs 10_000) query ≡ ok (host_of_usage asked)
parse_usage_filter-Lifts_example =
    parse_usage_filter-Lifts an_hour (from_secs 10_000) query asked usage_query

split_filter_key-IsGlue_example :
    (split_filter_key "usage.status" ≡ ok (namespaced "usage" "status")) ↔ (
      Glued "usage.status" "usage" "status"
      × ((is_text_empty "usage" || is_text_empty "status" || contains_dot "status") ≡ false))
split_filter_key-IsGlue_example = split_filter_key-IsGlue "usage.status" "usage" "status"

abbrev quiet_row : ℕ → DateTime → UsageRow
quiet_row id at = record {
  id = id;
  host_id = "lab1";
  collected_at = at;
  console_users = some 0;
  remote_users = some 0;
  status = collected;
  error = none;
}

abbrev empty_room : UsageSnapshot
empty_room = record {
  collected_at = from_secs 9_900;
  console_users = some 0;
  remote_users = some 0;
  status = collected;
  error = none;
}

abbrev watched : Database ℕ
watched = record blank {
  latest_usage = ("lab1", empty_room) ∷ [];
  usage_history = record {
    rows = quiet_row 1 (from_secs 1_000) ∷ quiet_row 2 (from_secs 5_000) ∷ [];
    last_id = 2;
  };
  usage_coverage =
      ("lab1", record { started_at = from_secs 1_000; observed_at = from_secs 9_900 }) ∷ [];
}

let_through : matches_usage_filter calendar watched lab empty_room asked ≡ ok true
unfolding matches_usage_filter validate_duration
let_through = refl

calendar-from_std : (d x : ℕ) → calendar.from_std d ≡ some x → x ≡ d
calendar-from_std d x h = ground arith

calendar-sub_signed : (now d t : ℕ) → calendar.checked_sub_signed now d ≡ some t → t + d ≡ now
calendar-sub_signed now d t h = ground arith

matches_usage_filter-IsQuiet_example :
    FreshFor watched lab empty_room asked.now
    × (CoveredFor watched lab asked.now asked.inactive_console_for
        × CoveredFor watched lab asked.now asked.no_users_for)
    × QuietFor watched lab empty_room asked.now console_only asked.inactive_console_for
    × QuietFor watched lab empty_room asked.now any_user asked.no_users_for
matches_usage_filter-IsQuiet_example =
    matches_usage_filter-IsQuiet watched lab calendar calendar-from_std calendar-sub_signed
      empty_room asked refl let_through

-- A retention of a year leaves the second row of the history.
abbrev full : Storage ℕ
full = initial (lab ∷ []) watched

abbrev pruned : Storage ℕ
pruned =
    (or_else (prune_history calendar (λ ids. ids) none (from_secs 31_540_000) full) (0, full)).1

abbrev removed : ℕ
removed =
    (or_else (prune_history calendar (λ ids. ids) none (from_secs 31_540_000) full) (0, full)).0

pruned-ok :
    prune_history calendar (λ ids. ids) none (from_secs 31_540_000) full ≡ ok (removed, pruned)
unfolding prune_history
pruned-ok = refl

above_the_floor :
    above_floor (from_secs 10_000 - from_secs 3600) pruned.inner.conn.retention_floor ≡ true
unfolding prune_history
above_the_floor = refl

prune_history-Answers_example :
    evaluate_inactivity {E = StorageError} empty_room
      (from_secs 3600)
      (from_secs 10_000)
      any_user
      (sqlite_history pruned.inner.conn.usage_history.rows "lab1")
    ≡ evaluate_inactivity empty_room
        (from_secs 3600)
        (from_secs 10_000)
        any_user
        (sqlite_history full.inner.conn.usage_history.rows "lab1")
prune_history-Answers_example =
    prune_history-Answers calendar (λ ids. ids) none (from_secs 31_540_000) full pruned removed
      "lab1" empty_room (from_secs 3600) (from_secs 10_000) any_user (λ ids i h. h)
      ((refl, tt), (tt, tt)) refl pruned-ok above_the_floor
