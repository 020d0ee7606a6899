-- ===== src/Examples/Scheduling.antt =====
-- The theorems about maintenance jobs on concrete inputs.
use simple_network_monitor.Prelude.{ℕ, ◌≡◌, String, Bool, true, none, some, [], ◌∷◌, ok, err}
use simple_network_monitor.Domain.Maintenance.{JobKind, rollup, retention, default_maintenance}
use simple_network_monitor.Storage.Jobs.{
  Job, Outcome, running, register_jobs, claim, run_due_maintenance,
}
use simple_network_monitor.Storage.Jobs.Schedule.{scheduled, register_jobs-Schedules}
use simple_network_monitor.Storage.Jobs.Claims.{
  settled, exclusive, run_due_maintenance-Settles, claim-Exclusive,
}

-- A row that a stopped process left running.
abbrev left_running : Job
left_running = record {
  id = "history_rollup";
  status = running;
  last_started_ms = some 10;
  last_success_ms = none;
  next_run_ms = 10;
  duration_ms = none;
  work_done = 0;
  failures = 2;
  message = none;
}

abbrev due : Job
due = record left_running { id = "retention" }

-- Two texts that tie are taken in the order of their rows.
abbrev as_stored : String → String → Bool
as_stored a b = true

abbrev outcome : JobKind → Outcome ℕ
outcome rollup = ok (5, (true, none))
outcome _ = err 1

register_jobs-Schedules_example :
    scheduled default_maintenance 100 retention
      (register_jobs default_maintenance 100 (left_running ∷ []))
    ≡ true
register_jobs-Schedules_example =
    register_jobs-Schedules default_maintenance 100 retention (left_running ∷ [])

claim-Exclusive_example : exclusive (claim as_stored 100 (left_running ∷ due ∷ [])) ≡ true
claim-Exclusive_example = claim-Exclusive as_stored 100 (left_running ∷ due ∷ [])

run_due_maintenance-Settles_example :
    settled (
      run_due_maintenance as_stored default_maintenance 100 200 90 outcome
        (left_running ∷ due ∷ [])
        [])
    ≡ true
run_due_maintenance-Settles_example =
    run_due_maintenance-Settles as_stored default_maintenance 100 200 90 outcome
      (left_running ∷ due ∷ []) []
