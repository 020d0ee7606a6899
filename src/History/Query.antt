-- ===== src/History/Query.antt =====
-- domain/history.rs, the request for a history, and history/query.rs, which buckets answer it. Times
-- are milliseconds since the epoch, so that no request starts before it.
pub mod Bounds
use simple_network_monitor.Prelude.{
  ℕ, zero, suc, ◌+◌, ◌-◌, ◌*◌, ◌/◌, String, Bool, true, false, not, ◌&&◌, ◌||◌, Option, none, some,
  List, [], ◌∷◌, ◌++◌, min, max, ltb, leb, ◌==◌, str_eq, length, any, Result, ok, err, ◌>>◌, reject,
  if◌then◌else◌,
}
use Prim.Native.String.{len}
use simple_network_monitor.Domain.Maintenance.{HistoryConfig}
use simple_network_monitor.History.Tables.{floor, cutoff}

pub record HistoryRequest : Type 0 where
  pub from_ms : ℕ
  pub to_ms : ℕ
  pub module_id : String
  pub check : Option String
  pub hosts : List String
  pub groups : List String
  pub breakdown : String
  pub max_points : ℕ

-- `v.is_empty() || v.len() > 128`.
abbrev pub bad_name : String → Bool
bad_name v = str_eq v "" || ltb 128 (len v)

abbrev pub bad_range : HistoryRequest → ℕ → Bool
bad_range r now =
    leb now r.from_ms
    || leb r.to_ms r.from_ms
    || ltb (now + 60_000) r.to_ms
    || ltb (3660 * 86_400_000) (r.to_ms - r.from_ms)

abbrev pub bad_points : HistoryRequest → Bool
bad_points r = not (leb 10 r.max_points && leb r.max_points 1000)

unfoldable pub validate_request : HistoryRequest → ℕ → Result String (Unit {0})
validate_request r now = do
  reject (bad_range r now)
      "history requires a valid UTC range no longer than ten years, ending at or before now"
  reject (bad_points r) "max_points must be between 10 and 1000"
  reject
      (not (any (str_eq r.module_id) ("icmp" ∷ "tcp" ∷ "usage" ∷ []))
        || not (any (str_eq r.breakdown) ("all" ∷ "group" ∷ "host" ∷ [])))
      "invalid history module or breakdown"
  reject (ltb 16 (length r.hosts) || ltb 16 (length r.groups) || any bad_name (r.hosts ++ r.groups))
      "select at most 16 hosts and 16 groups"
  reject (elim r.check [ none ↦ false | some v ↦ bad_name v ]) "invalid check id"

-- The finest source tier that is kept for the start and fine enough.
unfoldable pub finest_source : HistoryConfig → ℕ → ℕ → ℕ → ℕ
finest_source config now from desired =
    if ltb from (cutoff now config.hourly_retention) || leb 86400 desired
    then 86400
    else if ltb from (cutoff now config.five_minute_retention) || leb 3600 desired
    then 3600
    else 300

abbrev pub too_fine : ℕ → ℕ → ℕ → Bool
too_fine selected width source =
    ltb source 86400 && ltb 150_000 (selected * (width / (source * 1000) + 1))

-- The `while` loop: from each tier but the daily one to the next, so that two rounds are all.
unfoldable pub coarsen : ℕ → ℕ → ℕ → ℕ → ℕ
coarsen zero selected width source = source
coarsen (suc rounds) selected width source =
    let next = coarsen rounds selected width (if source == 300 then 3600 else 86400) in
    if too_fine selected width source then next else source

pub record Plan : Type 0 where
  pub source : ℕ
  pub start : ℕ
  pub stop : ℕ
  pub step : ℕ
  pub count : ℕ

-- The range and the buckets of the answer, from the source tier.
unfoldable pub plan_from : HistoryRequest → ℕ → ℕ → Plan
plan_from r now source =
    let to = min r.to_ms now in
    let start = floor r.from_ms source in
    let stop = min (floor (to - 1) source + source * 1000) now in
    let room = r.max_points * source * 1000 in
    let step = max ((stop - start + room - 1) / room) 1 * source in
    record {
      source = source;
      start = start;
      stop = stop;
      step = step;
      count = (stop - start + step * 1000 - 1) / (step * 1000);
    }

-- `selected` is the number of epochs that the request meets.
unfoldable pub plan : HistoryRequest → HistoryConfig → ℕ → ℕ → Plan
unfolding finest_source coarsen plan_from
plan r config now selected =
    let width = min r.to_ms now - r.from_ms in
    let desired = width / (r.max_points * 1000) in
    plan_from r now (coarsen 2 selected width (finest_source config now r.from_ms desired))
