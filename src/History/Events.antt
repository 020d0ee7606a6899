-- ===== src/History/Events.antt =====
-- history/query.rs: the epochs that a request meets, and the pages of events and samples. A table is
-- the list of its rows with their row numbers, in the order of these.
pub mod Cursor
pub mod Pages
use mathlib.Core.List.{reverse}
use simple_network_monitor.Prelude.{
  ℕ, suc, ◌^◌, ◌-◌, ◌+◌, String, Bool, true, false, not, ◌&&◌, ◌||◌, Option, none, some, List, [],
  ◌∷◌, min, ltb, leb, ◌==◌, str_eq, length, any, retain, take, unwrap_or, Result, ok, err, ◌>>=◌,
  ◌>>◌, reject, map_err, if◌then◌else◌,
}
use simple_network_monitor.Domain.History.Stats.{HistoryObservation}
use simple_network_monitor.History.Tables.{Epoch, Raw, Event}
use simple_network_monitor.History.Query.{HistoryRequest, validate_request}
use simple_network_monitor.Storage.Errors.{StorageError, invalid_query, busy}

-- `Epoch` of query.rs, with the columns that the join adds to it.
pub record SelectedEpoch (F : Type 0) : Type 0 where
  pub id : ℕ
  pub host : String
  pub name : String
  pub groups : List String
  pub module_id : String
  pub check_id : String
  pub start : ℕ
  pub end : ℕ
  pub last : Option ℕ
  pub body : Option (HistoryObservation F)
  pub fresh : ℕ

pub record HistoryEvent (F : Type 0) : Type 0 where
  pub id : ℕ
  pub host_id : String
  pub name : String
  pub groups : List String
  pub module_id : String
  pub check_id : String
  pub at_ms : ℕ
  pub previous_state : Option String
  pub observation : HistoryObservation F

pub record HistoryEventsResponse (F : Type 0) : Type 0 where
  pub events : List (HistoryEvent F)
  pub next_before : Option ℕ

-- `?='[]' OR value IN (…)`.
abbrev pub is_chosen : List String → List String → Bool
is_chosen [] values = true
is_chosen (c ∷ cs) values = any (λ v. any (str_eq v) (c ∷ cs)) values

abbrev pub ends_after : ℕ → Option ℕ → Bool
ends_after from none = true
ends_after from (some ended) = ltb from ended

abbrev pub is_check : Option String → String → Bool
is_check none id = true
is_check (some check) id = str_eq id check

module _ {F : Type 0} where
  unfoldable pub meets : HistoryRequest → Epoch F → Bool
  meets r e =
      str_eq e.module_id r.module_id
      && ltb e.started_ms r.to_ms
      && ends_after r.from_ms e.ended_ms
      && is_chosen r.hosts (e.host_id ∷ [])
      && is_chosen r.groups e.groups
      && is_check r.check e.check_id

  unfoldable pub selected_epoch : ℕ → Epoch F → SelectedEpoch F
  selected_epoch now e = record {
    id = e.id;
    host = e.host_id;
    name = e.name;
    groups = e.groups;
    module_id = e.module_id;
    check_id = e.check_id;
    start = e.started_ms;
    end = min (unwrap_or e.ended_ms now) now;
    last = e.last_ms;
    body = e.last_observation;
    fresh = e.freshness_ms;
  }

  -- The loop over the rows: `scanned` of them have been read.
  unfoldable pub scan_epochs :
      HistoryRequest → ℕ → ℕ → List (Epoch F) → Result StorageError (List (SelectedEpoch F))
  unfolding meets selected_epoch
  scan_epochs r now scanned [] = ok []
  scan_epochs r now scanned (e ∷ es) =
      let skipped = scan_epochs r now scanned es in
      let rest = scan_epochs r now (suc scanned) es in
      if not (meets r e) then skipped else do
        reject (ltb 10_000 (suc scanned)) busy
        found ← rest
        ok (selected_epoch now e ∷ found)

  unfoldable pub epochs :
      HistoryRequest → ℕ → List (Epoch F) → Result StorageError (List (SelectedEpoch F))
  unfolding scan_epochs
  epochs r now table = scan_epochs r now 0 table

  unfoldable pub find_epoch : ℕ → List (SelectedEpoch F) → Option (SelectedEpoch F)
  find_epoch id [] = none
  find_epoch id (e ∷ es) = let rest = find_epoch id es in if e.id == id then some e else rest

  unfoldable pub history_event : ℕ → Event F → SelectedEpoch F → HistoryEvent F
  history_event id r e = record {
    id = id;
    host_id = e.host;
    name = e.name;
    groups = e.groups;
    module_id = e.module_id;
    check_id = e.check_id;
    at_ms = r.at_ms;
    previous_state = r.previous_state;
    observation = r.observation;
  }

  -- A row with its epoch, where that is one of the selected ones, within the time of the request.
  unfoldable pub joined_row :
      HistoryRequest
      → ℕ
      → Event F
      → List (HistoryEvent F)
      → Option (SelectedEpoch F)
      → List (HistoryEvent F)
  unfolding history_event
  joined_row r id row rest none = rest
  joined_row r id row rest (some e) =
      if leb r.from_ms row.at_ms && ltb row.at_ms r.to_ms
      then history_event id row e ∷ rest
      else rest

  unfoldable pub joined :
      List (SelectedEpoch F) → HistoryRequest → List (ℕ × Event F) → List (HistoryEvent F)
  unfolding find_epoch joined_row
  joined es r [] = []
  joined es r ((id, row) ∷ rows) =
      joined_row r id row (joined es r rows) (find_epoch row.epoch_id es)

  -- `events.last().map(|e| e.id)`.
  abbrev pub last_id : List (HistoryEvent F) → Option ℕ
  last_id [] = none
  last_id (e ∷ []) = some e.id
  last_id (e ∷ (f ∷ es)) = last_id (f ∷ es)

  -- One row more than the limit is read, to see whether a page follows.
  unfoldable pub page_of : ℕ → Option ℕ → List (HistoryEvent F) → HistoryEventsResponse F
  page_of limit before newest =
      let rows = take (suc limit) (retain (λ e. ltb e.id (unwrap_or before (2 ^ 63 - 1))) newest) in
      let events = take limit rows in
      record {
        events = events;
        next_before = if ltb limit (length rows) then last_id events else none;
      }

  -- The samples have no previous state: `NULL`.
  unfoldable pub sample_events : List (ℕ × Raw F) → List (ℕ × Event F)
  sample_events [] = []
  sample_events ((id, r) ∷ rs) =
      (
        id,
        record {
          epoch_id = r.epoch_id;
          at_ms = r.at_ms;
          previous_state = none;
          observation = r.observation;
        },
      )
      ∷ sample_events rs

  -- The joined rows from the newest on, a page of which is answered where there are epochs.
  abbrev pub newest :
      List (SelectedEpoch F) → HistoryRequest → List (ℕ × Event F) → List (HistoryEvent F)
  newest es r rows = joined es r (reverse rows)

  abbrev pub page_of_epochs :
      HistoryRequest
      → Option ℕ
      → ℕ
      → List (ℕ × Event F)
      → List (SelectedEpoch F)
      → HistoryEventsResponse F
  page_of_epochs r before limit rows [] = record { events = []; next_before = none }
  page_of_epochs r before limit rows (e ∷ es) = page_of limit before (newest (e ∷ es) r rows)

  unfoldable pub history_events :
      HistoryRequest
      → Option ℕ
      → ℕ
      → Bool
      → ℕ
      → List (Epoch F)
      → List (ℕ × Raw F)
      → List (ℕ × Event F)
      → Result StorageError (HistoryEventsResponse F)
  unfolding epochs joined page_of validate_request sample_events
  history_events r before limit samples now table raw events = do
    map_err invalid_query (validate_request r now)
    reject (not (leb 1 limit && leb limit 1000)) (invalid_query "limit must be 1..1000")
    es ← epochs r now table
    ok (page_of_epochs r before limit (if samples then sample_events raw else events) es)
