-- ===== src/Examples/Monitoring.antt =====
-- The theorems about checks, identifiers and inactivity on concrete inputs.
use simple_network_monitor.Prelude.{
  ℕ, ◌≡◌, refl, List, [], ◌∷◌, arith, some, none, true, ok, false, err, ◌%◌, ◌+◌, ◌++◌, ◌^◌,
}
use simple_network_monitor.Domain.Clock.{add_u64, DateTime, from_secs}
use simple_network_monitor.Domain.Icmp.{unknown}
use simple_network_monitor.Domain.Validation.{validate_duration}
use simple_network_monitor.Domain.Host.{default_state}
use simple_network_monitor.Domain.Usage.{UsageSnapshot, collected}
use simple_network_monitor.Domain.Inactivity.{
  UsageRow, any_user, known, sql_state, current_state_is_inactive, evaluate_inactivity,
  sqlite_history,
}
use simple_network_monitor.Domain.Inactivity.Soundness.{evaluate_inactivity-IsSound}
use simple_network_monitor.Monitor.Icmp.{FitsU32, Reply, check_once, state_after, transitions_of}
use simple_network_monitor.Monitor.Icmp.Spec.{Tracks, state_after-Tracks}
use simple_network_monitor.Monitor.Icmp.Transitions.{
  Reports, Links, check_once-Reports, transitions_of-Links,
}
use simple_network_monitor.Monitor.Runner.{
  CheckStats, no_checks, stale_generation, stopped, run_round,
}
use simple_network_monitor.Monitor.Runner.Retries.{refusals, run_round-Ends}
use simple_network_monitor.Backends.Identifiers.{next_unique_identifier}
use simple_network_monitor.Backends.Identifiers.Reservation.{
  Reserves, next_unique_identifier-Reserves,
}
use simple_network_monitor.Examples.{thousandths, router, thresholds, reached, lost}

abbrev checks : List (DateTime × Reply)
checks = (50, lost) ∷ (40, lost) ∷ (30, lost) ∷ (20, reached) ∷ (10, reached) ∷ []

thresholds-FitsU32 : FitsU32 thresholds
thresholds-FitsU32 = record { failure = omega arith; success = omega arith }

state_after-Tracks_example :
    Tracks thresholds checks (state_after ℕ router thresholds "raw" default_state checks)
state_after-Tracks_example = state_after-Tracks ℕ router thresholds "raw" thresholds-FitsU32 checks

check_once-Reports_example :
    Reports {F = ℕ} router 10 default_state
      (check_once {F = ℕ} router thresholds "raw" 10 lost default_state).0
      (check_once {F = ℕ} router thresholds "raw" 10 lost default_state).1
check_once-Reports_example = check_once-Reports ℕ router thresholds "raw" 10 lost default_state

transitions_of-Links_example :
    Links unknown
      (state_after ℕ router thresholds "raw" default_state checks).status
      (transitions_of ℕ router thresholds "raw" default_state checks)
transitions_of-Links_example = transitions_of-Links ℕ router thresholds "raw" default_state checks

next_unique_identifier-Reserves_example :
    Reserves (65535 ∷ 0 ∷ []) (next_unique_identifier (some (65535 ∷ 0 ∷ [])) 65535)
next_unique_identifier-Reserves_example =
    next_unique_identifier-Reserves (65535 ∷ 0 ∷ []) 65535 (omega arith)

abbrev quiet_row : UsageRow
quiet_row = record {
  id = 1;
  host_id = "r1";
  collected_at = from_secs 1_000;
  console_users = some 0;
  remote_users = some 0;
  status = collected;
  error = none;
}

abbrev quiet_now : UsageSnapshot
quiet_now = record {
  collected_at = from_secs 9_000;
  console_users = some 0;
  remote_users = some 0;
  status = collected;
  error = none;
}

quiet_answer :
    evaluate_inactivity {E = ℕ} quiet_now
      (from_secs 3_600)
      (from_secs 9_000)
      any_user
      (sqlite_history (quiet_row ∷ []) "r1")
    ≡ ok true
unfolding evaluate_inactivity sqlite_history validate_duration
quiet_answer = refl

evaluate_inactivity-IsSound_example :
    (current_state_is_inactive any_user quiet_now ≡ true)
    × (sql_state (quiet_row ∷ []) "r1" (from_secs 7_000) any_user ≡ some (known false))
evaluate_inactivity-IsSound_example =
    evaluate_inactivity-IsSound (quiet_row ∷ []) "r1" any_user quiet_now (from_secs 3_600)
      (from_secs 9_000) (from_secs 7_000) quiet_answer (omega arith)

abbrev fresh_stats : CheckStats ℕ
fresh_stats = no_checks

run_round-Ends_example :
    let (after, e) =
      run_round true 20_000_000 fresh_stats
        (refusals ("busy" ∷ "busy" ∷ []) ++ err stale_generation ∷ []) in
    (e ≡ some stopped)
    × (after.storage_retries % 2 ^ 64 ≡ (fresh_stats.storage_retries + 2) % 2 ^ 64)
    × (after.successes ≡ add_u64 fresh_stats.successes 1)
    × (after.failures ≡ fresh_stats.failures)
run_round-Ends_example =
    run_round-Ends true 20_000_000 fresh_stats ("busy" ∷ "busy" ∷ []) (err stale_generation) []
      stopped refl
