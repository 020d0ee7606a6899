-- ===== src/Monitor/Icmp.antt =====
-- modules/icmp/monitor.rs: one reachability check of a host, and the state that it updates. The
-- reply of the backend and the time at which the check started are arguments.
pub mod Spec
pub mod Transitions
use simple_network_monitor.Prelude.{
  ℕ, ◌≤◌, ◌<◌, String, Bool, true, false, not, ◌&&◌, Option, none, some, List, [], ◌∷◌, leb, Result,
  ok, err, if◌then◌else◌,
}
use simple_network_monitor.Prelude.Float.{FloatOps}
use simple_network_monitor.Domain.Clock.{DateTime, saturating_add_u32, u32_max}
use simple_network_monitor.Domain.Icmp.{
  HostStatus, unknown, up, down, PingOutcome, CheckFailure, IcmpTransition,
}
use simple_network_monitor.Domain.Host.{Host, HostRuntimeState, default_state, duration_ms}

pub record IcmpMonitorConfig : Type 0 where
  pub concurrency : ℕ
  pub failure_threshold : ℕ
  pub success_threshold : ℕ

-- Both thresholds are `u32`.
pub record FitsU32 (c : IcmpMonitorConfig) : Type 0 where
  pub failure : c.failure_threshold ≤ u32_max
  pub success : c.success_threshold ≤ u32_max

-- `==` on the status.
abbrev pub status_eq : HostStatus → HostStatus → Bool
status_eq unknown unknown = true
status_eq up up = true
status_eq down down = true
status_eq _ _ = false

abbrev pub Reply : Type 0
Reply = Result CheckFailure PingOutcome

-- The state that a success leaves before the threshold is tested.
unfoldable pub count_success : HostRuntimeState → DateTime → PingOutcome → HostRuntimeState
count_success state checked_at outcome = record state {
  last_checked_at = some checked_at;
  latency = some outcome.latency;
  consecutive_successes = saturating_add_u32 state.consecutive_successes 1;
  consecutive_failures = 0;
  last_error = none;
}

unfoldable pub count_failure : HostRuntimeState → DateTime → CheckFailure → HostRuntimeState
count_failure state checked_at failure = record state {
  last_checked_at = some checked_at;
  latency = none;
  consecutive_failures = saturating_add_u32 state.consecutive_failures 1;
  consecutive_successes = 0;
  last_error = some failure.message;
}

module _ {F : Type 0} ⦃o : FloatOps F⦄ where
  unfoldable pub transition_to :
      Host
      → HostRuntimeState
      → HostStatus
      → DateTime
      → Option F
      → Option String
      → String
      → String
      → HostRuntimeState × Option (IcmpTransition F)
  transition_to host state new_status changed_at latency_ms error backend reason = (
    record state { status = new_status; last_change_at = some changed_at },
    some (record {
      id = none;
      host_id = host.id;
      previous_status = state.status;
      new_status = new_status;
      changed_at = changed_at;
      latency_ms = latency_ms;
      error = error;
      backend = backend;
      reason = reason;
    }),
  )

  unfoldable pub check_once :
      Host
      → IcmpMonitorConfig
      → String
      → DateTime
      → Reply
      → HostRuntimeState
      → HostRuntimeState × Option (IcmpTransition F)
  unfolding transition_to count_success count_failure
  check_once host config backend checked_at (ok outcome) state =
      let counted = count_success state checked_at outcome in
      if not (status_eq counted.status up)
        && leb config.success_threshold counted.consecutive_successes
      then transition_to host counted up checked_at (some (duration_ms outcome.latency)) none
          backend "success threshold reached"
      else (counted, none)
  check_once host config backend checked_at (err failure) state =
      let counted = count_failure state checked_at failure in
      if not (status_eq counted.status down)
        && leb config.failure_threshold counted.consecutive_failures
      then transition_to host counted down checked_at none (some failure.message) backend
          "failure threshold reached"
      else (counted, none)

module _ (F : Type 0) ⦃o : FloatOps F⦄ where
  -- The state after a history of checks from a start state, the newest check first.
  unfoldable pub state_after :
      Host
      → IcmpMonitorConfig
      → String
      → HostRuntimeState
      → List (DateTime × Reply)
      → HostRuntimeState
  state_after host config backend start [] = start
  state_after host config backend start ((at, reply) ∷ older) =
      (check_once {F = F} host config backend at reply
        (state_after host config backend start older)).0

  -- The transitions that the history recorded, the newest first.
  unfoldable pub transitions_of :
      Host
      → IcmpMonitorConfig
      → String
      → HostRuntimeState
      → List (DateTime × Reply)
      → List (IcmpTransition F)
  transitions_of host config backend start [] = []
  transitions_of host config backend start ((at, reply) ∷ older) =
      let before = transitions_of host config backend start older in
      elim (check_once {F = F} host config backend at reply
        (state_after host config backend start older)).1 [ none ↦ before | some t ↦ t ∷ before ]

-- `job.observe`: the check counts as successful when it left no error.
unfoldable pub observed_success : HostRuntimeState → Bool
observed_success state = elim state.last_error [ none ↦ true | some e ↦ false ]
