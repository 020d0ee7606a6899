-- ===== src/History/Events/Pages.antt =====
-- The pages of a history, followed from cursor to cursor.
use mathlib.Core.List.{reverse}
use simple_network_monitor.Prelude.{
  ℕ, zero, suc, ◌≡◌, ◌≤◌, ◌<◌, ◌-◌, ◌^◌, ◌∙◌, ap, sym, refl, arith, Bool, true, false, ◌&&◌, Option,
  none, some, List, [], ◌∷◌, ltb, leb, length, All, Result, ok, if◌then◌else◌,
}
use simple_network_monitor.Storage.Errors.{StorageError}
use simple_network_monitor.History.Tables.{Epoch, Raw, Event}
use simple_network_monitor.History.Query.{HistoryRequest, validate_request}
use simple_network_monitor.History.Events.Cursor.{follow, Falling, retain_all, follow-All}
use simple_network_monitor.History.Events.{
  HistoryEvent, HistoryEventsResponse, SelectedEpoch, page_of, joined, newest, epochs,
  page_of_epochs, history_events, find_epoch, joined_row, history_event, sample_events,
}

module _ {F : Type 0} where
  joined_none : (r : HistoryRequest) (rows : List (ℕ × Event F)) → joined {F = F} [] r rows ≡ []
  unfolding joined
  joined_none r [] = refl
  joined_none r (row ∷ rows) = joined_none r rows

  page_of-none :
      (limit : ℕ) (from : Option ℕ)
      → page_of {F = F} limit from [] ≡ record { events = []; next_before = none }
  unfolding page_of
  page_of-none zero from = ground arith
  page_of-none (suc limit) from = ground arith

  page_of_epochs-of :
      (r : HistoryRequest) (from : Option ℕ) (limit : ℕ) (rows : List (ℕ × Event F))
      (es : List (SelectedEpoch F))
      → page_of_epochs r from limit rows es ≡ page_of limit from (newest es r rows)
  page_of_epochs-of r from limit rows [] =
      sym (page_of-none limit from) ∙ ap (page_of limit from) (sym (joined_none r (reverse rows)))
  page_of_epochs-of r from limit rows (e ∷ es) = refl

  -- The rows of a table from the newest on, with their numbers falling from below a bound.
  abbrev pub Numbered : ℕ → List (ℕ × Event F) → Type 0
  Numbered b [] = Unit
  Numbered b (row ∷ rows) = (row.0 < b) × Numbered row.0 rows

  Numbered_weaker :
      (b c : ℕ) (rows : List (ℕ × Event F)) → b ≤ c → Numbered b rows → Numbered c rows
  Numbered_weaker b c [] le h = tt
  Numbered_weaker b c (row ∷ rows) le (lt, h) = (omega (arith, lt, le), h)

  kept-IsBelow :
      (b : ℕ) (keep : Bool) (e : HistoryEvent F) (rest : List (HistoryEvent F))
      → e.id < b
      → All (λ f. f.id < b) rest
      → All (λ f. f.id < e.id) rest
      → Falling rest
      → All (λ f. f.id < b) (if keep then e ∷ rest else rest)
        × Falling (if keep then e ∷ rest else rest)
  kept-IsBelow b true e rest lt wider under falls = ((lt, wider), (under, falls))
  kept-IsBelow b false e rest lt wider under falls = (wider, falls)

  joined_row-IsBelow :
      (r : HistoryRequest) (b id : ℕ) (row : Event F) (rest : List (HistoryEvent F))
      (found : Option (SelectedEpoch F))
      → id < b
      → All (λ f. f.id < b) rest
      → All (λ f. f.id < id) rest
      → Falling rest
      → All (λ f. f.id < b) (joined_row r id row rest found)
        × Falling (joined_row r id row rest found)
  unfolding joined_row history_event
  joined_row-IsBelow r b id row rest none lt wider under falls = (wider, falls)
  joined_row-IsBelow r b id row rest (some e) lt wider under falls =
      kept-IsBelow b (leb r.from_ms row.at_ms && ltb row.at_ms r.to_ms) (history_event id row e)
        rest lt wider under falls

  joined-IsBelow :
      (es : List (SelectedEpoch F)) (r : HistoryRequest) (b : ℕ) (rows : List (ℕ × Event F))
      → Numbered b rows
      → All (λ e. e.id < b) (joined es r rows) × Falling (joined es r rows)
  unfolding joined
  joined-IsBelow es r b [] h = (tt, tt)
  joined-IsBelow es r b ((id, row) ∷ rows) (lt, h) =
      let (under, falls) = joined-IsBelow es r id rows h in
      let wider = joined-IsBelow es r b rows (Numbered_weaker id b rows (omega (arith, lt)) h) in
      joined_row-IsBelow r b id row (joined es r rows) (find_epoch row.epoch_id es) lt wider.0 under
        falls

  answered :
      (r : HistoryRequest) (m now : ℕ) (samples : Bool) (table : List (Epoch F))
      (raw : List (ℕ × Raw F)) (events : List (ℕ × Event F)) (es : List (SelectedEpoch F))
      → validate_request r now ≡ ok tt
      → suc m ≤ 1000
      → epochs r now table ≡ ok es
      → (c : Option ℕ)
      → history_events r c (suc m) samples now table raw events
        ≡ ok (page_of (suc m) c (newest es r (if samples then sample_events raw else events)))
  unfolding history_events
  answered r m now samples table raw events es valid le selected c =
      let low : leb 1 (suc m) ≡ true = ground arith in
      let high : leb (suc m) 1000 ≡ true = ground arith in
      rw (valid, low, high, selected)
        (ap ok (page_of_epochs-of r c (suc m) (if samples then sample_events raw else events) es))

  -- For a request that passes validation, with a limit of 1 to 1000 rows and for which the epochs
  -- are selected, where the row numbers of the table are distinct, rising, and below i64::MAX, a
  -- client that follows the cursors from the first page on, with more requests than there are rows
  -- to gather, gathers every row that the request selects, once, from the newest to the oldest.
  pub history_events-Enumerates :
      (r : HistoryRequest) (m n now : ℕ) (samples : Bool) (table : List (Epoch F))
      (raw : List (ℕ × Raw F)) (events : List (ℕ × Event F)) (es : List (SelectedEpoch F))
      → validate_request r now ≡ ok tt
      → suc m ≤ 1000
      → epochs r now table ≡ ok es
      → Numbered (2 ^ 63 - 1) (reverse (if samples then sample_events raw else events))
      → length (newest es r (if samples then sample_events raw else events)) ≤ n
      → follow (suc n) (λ c. history_events r c (suc m) samples now table raw events) none
        ≡ ok (newest es r (if samples then sample_events raw else events))
  history_events-Enumerates r m n now samples table raw events es valid le selected rows enough =
      let all = newest es r (if samples then sample_events raw else events) in
      let (below, falls) =
        joined-IsBelow es r (2 ^ 63 - 1) (reverse (if samples then sample_events raw else events))
          rows in
      let pages : ◌≡◌ {A = Option ℕ → Result StorageError (HistoryEventsResponse F)}
          (λ c. history_events r c (suc m) samples now table raw events)
          (λ c. ok (page_of (suc m) c all)) =
        λ i c. answered r m now samples table raw events es valid le selected c i in
      ap (λ answer. follow (suc n) answer none) pages
      ∙ follow-All n m none all all (retain_all (2 ^ 63 - 1) all below) falls enough
