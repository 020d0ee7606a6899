-- ===== src/Examples/Recorded.antt =====
-- The theorems about the durable history on concrete inputs.
use simple_network_monitor.Prelude.{
  ℕ, ◌≤◌, ◌<◌, ◌≡◌, refl, inl, arith, none, some, List, [], ◌∷◌, ok, false,
}
use simple_network_monitor.Domain.Maintenance.{default_history, validate_history}
use simple_network_monitor.Domain.Validation.{validate_duration}
use simple_network_monitor.History.Tables.{Epoch, Span, tiers, floor, cutoff}
use simple_network_monitor.History.Rollup.{clipped_start, piece_end, rollup}
use simple_network_monitor.History.Rollup.Pieces.{least_limit, piece_end-least_limit}
use simple_network_monitor.History.Rollup.Conservation.{
  up_ms-TimeCounter, down_ms-TimeCounter, usage_observed_ms-TimeCounter,
}
use simple_network_monitor.History.Rollup.Time.{
  work_bound, SameTime, rollup_keeps_time, rollup_finishes,
}
use simple_network_monitor.History.Rollup.Balance.{IsTier}
use simple_network_monitor.History.Query.{HistoryRequest, validate_request, too_fine, plan}
use simple_network_monitor.History.Query.Bounds.{IsWithin, plan-IsWithin}
use simple_network_monitor.History.Ingest.{Tables, record_observation}
use simple_network_monitor.History.Ingest.Soundness.{IsSound}
use simple_network_monitor.History.Ingest.Recording.{record_observation-IsSound}
use simple_network_monitor.Examples.{thousandths, fast, slow}

clipped-early : clipped_start 900_000 default_history 100_000 < 700_000
unfolding clipped_start floor cutoff
clipped-early = omega arith

piece_end-least_limit_example :
    (clipped_start 900_000 default_history 100_000
      < piece_end 900_000 default_history (clipped_start 900_000 default_history 100_000) 700_000)
    × (piece_end 900_000 default_history (clipped_start 900_000 default_history 100_000) 700_000
        ≡ least_limit 900_000 default_history
            (clipped_start 900_000 default_history 100_000)
            700_000
            tiers)
piece_end-least_limit_example =
    piece_end-least_limit 900_000 default_history 100_000 700_000 clipped-early

abbrev spans : List (Span ℕ)
spans = record { epoch_id = 1; cursor_ms = 100_000; end_ms = 700_000; observation = fast } ∷ []

default_history-valid : validate_history default_history ≡ ok tt
unfolding validate_history validate_duration
default_history-valid = refl

rollup_keeps_time_example :
    SameTime 900_000 default_history up_ms-TimeCounter 1 300 500 spans []
    × SameTime 900_000 default_history down_ms-TimeCounter 1 300 500 spans []
    × SameTime 900_000 default_history usage_observed_ms-TimeCounter 1 300 500 spans []
rollup_keeps_time_example =
    rollup_keeps_time 900_000 default_history 1 300 500 spans [] default_history-valid (inl refl)

enough_work : work_bound spans ≤ 600_001
unfolding work_bound
enough_work = omega arith

rollup_finishes_example :
    let (work, more, spans', buckets') = rollup 900_000 default_history 600_001 spans [] in
    (work ≤ 600_001) × (more ≡ false) × (spans' ≡ [])
rollup_finishes_example = rollup_finishes 900_000 default_history 600_001 spans [] enough_work

abbrev pub epoch : Epoch ℕ
epoch = record {
  id = 1;
  host_id = "r1";
  name = "Router 1";
  groups = [];
  module_id = "icmp";
  check_id = "";
  signature = "";
  started_ms = 0;
  ended_ms = none;
  freshness_ms = 90_000;
  last_ms = some 1_000;
  last_observation = some fast;
}

abbrev pub recorded : Tables ℕ
recorded = record { epochs = epoch ∷ []; raw = []; buckets = []; spans = []; events = [] }

recorded-IsSound : IsSound recorded
recorded-IsSound = record { disjoint = tt; tails = (λ active. tt, tt) }

record_observation-IsSound_example :
    IsSound (record_observation "r1" "icmp" "" 5_000 slow 6_000 recorded)
record_observation-IsSound_example =
    record_observation-IsSound "r1" "icmp" "" 5_000 slow 6_000 recorded recorded-IsSound

abbrev pub last_hours : HistoryRequest
last_hours = record {
  from_ms = 1_000_000_000;
  to_ms = 1_010_000_000;
  module_id = "icmp";
  check = none;
  hosts = "r1" ∷ [];
  groups = [];
  breakdown = "all";
  max_points = 100;
}

pub last_hours-valid : validate_request last_hours 1_012_345_678 ≡ ok tt
unfolding validate_request
last_hours-valid = refl

plan-IsWithin_example :
    IsWithin last_hours 1_012_345_678 (plan last_hours default_history 1_012_345_678 4)
    × IsTier (plan last_hours default_history 1_012_345_678 4).source
    × (too_fine 4 10_000_000 (plan last_hours default_history 1_012_345_678 4).source ≡ false)
plan-IsWithin_example = plan-IsWithin last_hours default_history 1_012_345_678 4 last_hours-valid
