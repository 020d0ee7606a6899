-- ===== src/Monitor/Icmp/Spec.antt =====
-- The status of a host read off its history of replies, with no counters: the newest moment at
-- which a run of equal replies had reached its threshold decides.
use simple_network_monitor.Prelude.{
  ℕ, ◌+◌, ◌≡◌, List, [], ◌∷◌, arith, leb, min, ok, err, if◌then◌else◌, String,
}
use simple_network_monitor.Prelude.Float.{FloatOps}
use simple_network_monitor.Domain.Clock.{DateTime, u32_max}
use simple_network_monitor.Domain.Icmp.{HostStatus, unknown, up, down}
use simple_network_monitor.Domain.Host.{Host, HostRuntimeState, default_state}
use simple_network_monitor.Monitor.Icmp.{IcmpMonitorConfig, FitsU32, Reply, check_once, state_after}

abbrev pub History : Type 0
History = List (DateTime × Reply)

-- How many of the newest replies were successes, without a failure between them.
pub success_run : History → ℕ
success_run [] = 0
success_run ((at, ok outcome) ∷ older) = success_run older + 1
success_run ((at, err failure) ∷ older) = 0

pub failure_run : History → ℕ
failure_run [] = 0
failure_run ((at, ok outcome) ∷ older) = 0
failure_run ((at, err failure) ∷ older) = failure_run older + 1

pub settled : IcmpMonitorConfig → History → HostStatus
settled config [] = unknown
settled config ((at, ok outcome) ∷ older) =
    if leb config.success_threshold (success_run ((at, ok outcome) ∷ older))
    then up
    else settled config older
settled config ((at, err failure) ∷ older) =
    if leb config.failure_threshold (failure_run ((at, err failure) ∷ older))
    then down
    else settled config older

-- The counters hold the current runs, as far as `u32` counts, and the status is the settled one.
pub record Tracks (c : IcmpMonitorConfig) (h : History) (state : HostRuntimeState) : Type 0 where
  pub status : state.status ≡ settled c h
  pub successes : state.consecutive_successes ≡ min (success_run h) u32_max
  pub failures : state.consecutive_failures ≡ min (failure_run h) u32_max

module _ (F : Type 0) ⦃o : FloatOps F⦄ (host : Host) (config : IcmpMonitorConfig) (backend : String)
    (fits : FitsU32 config) where
  check_once-Tracks :
      (at : DateTime) (reply : Reply) (older : List (DateTime × Reply)) (state : HostRuntimeState)
      → Tracks config older state
      → Tracks config
          ((at, reply) ∷ older)
          (check_once {F = F} host config backend at reply state).0
  unfolding check_once settled success_run failure_run
  check_once-Tracks at (ok outcome) older state t = ground arith
  check_once-Tracks at (err failure) older state t = ground arith

  -- From the state of a host never checked, after any history of replies, the status is the one
  -- settled by the history, and each counter is the length of the current run, capped at u32::MAX.
  pub state_after-Tracks :
      (history : List (DateTime × Reply))
      → Tracks config history (state_after F host config backend default_state history)
  unfolding state_after settled success_run failure_run
  state_after-Tracks [] = ground arith
  state_after-Tracks ((at, reply) ∷ older) =
      check_once-Tracks at reply older _ (state_after-Tracks older)
