-- ===== src/Monitor/Icmp/Transitions.antt =====
-- The recorded transitions against the status that they report.
use simple_network_monitor.Prelude.{
  ◌≡◌, ◌≢◌, refl, sym, String, Option, none, some, List, [], ◌∷◌, arith, ok, err, ◌∙◌,
}
use simple_network_monitor.Prelude.Float.{FloatOps}
use simple_network_monitor.Domain.Clock.{DateTime}
use simple_network_monitor.Domain.Icmp.{HostStatus, IcmpTransition}
use simple_network_monitor.Domain.Host.{Host, HostRuntimeState}
use simple_network_monitor.Monitor.Icmp.{
  IcmpMonitorConfig, Reply, check_once, state_after, transitions_of,
}

-- What a check reports: no change of the status, or the transition between the two statuses.
abbrev pub Reports :
    {F : Type 0}
    → Host
    → DateTime
    → HostRuntimeState
    → HostRuntimeState
    → Option (IcmpTransition F)
    → Type 0
Reports host at before after none =
    (after.status ≡ before.status) × (after.last_change_at ≡ before.last_change_at)
Reports host at before after (some t) =
    (after.status ≢ before.status)
    × (after.last_change_at ≡ some at)
    × (t.host_id ≡ host.id)
    × (t.changed_at ≡ at)
    × (t.previous_status ≡ before.status)
    × (t.new_status ≡ after.status)

-- The recorded statuses link up: the newest transition leads to the given status, each one starts
-- where the one before it ended, and the oldest starts at the given first status.
abbrev pub Links : {F : Type 0} → HostStatus → HostStatus → List (IcmpTransition F) → Type 0
Links first now [] = now ≡ first
Links first now (t ∷ older) =
    (t.new_status ≡ now) × (t.previous_status ≢ now) × Links first t.previous_status older

module _ (F : Type 0) ⦃o : FloatOps F⦄ (host : Host) (config : IcmpMonitorConfig)
    (backend : String) where
  -- Whatever the state and the reply, a check that changes the status returns the transition from
  -- the old status to the new one, stamped with the time of the check, and a check that keeps the
  -- status returns none and keeps the time of the last change.
  pub check_once-Reports :
      (at : DateTime) (reply : Reply) (state : HostRuntimeState)
      → Reports {F = F} host at state
          (check_once {F = F} host config backend at reply state).0
          (check_once {F = F} host config backend at reply state).1
  unfolding check_once
  check_once-Reports at (ok outcome) state = ground arith
  check_once-Reports at (err failure) state = ground arith

  Links-step :
      (first : HostStatus) (at : DateTime) (before after : HostRuntimeState)
      (t : Option (IcmpTransition F)) (older : List (IcmpTransition F))
      → Reports host at before after t
      → Links first before.status older
      → Links first after.status (elim t [ none ↦ older | some new ↦ new ∷ older ])
  Links-step first at before after none older r l = rw r.0 l
  Links-step first at before after (some t) older r l =
      (r.5, λ e. r.0 (sym e ∙ r.4), rw (← r.4) at l)

  -- After any history of checks from any state, the recorded transitions link the status of the
  -- start state to the present one, and none of them is from a status to itself.
  pub transitions_of-Links :
      (start : HostRuntimeState) (history : List (DateTime × Reply))
      → Links start.status
          (state_after F host config backend start history).status
          (transitions_of F host config backend start history)
  unfolding state_after transitions_of
  transitions_of-Links start [] = refl
  transitions_of-Links start ((at, reply) ∷ older) =
      let before = state_after F host config backend start older in
      let after = check_once {F = F} host config backend at reply before in
      Links-step start.status at before after.0 after.1
        (transitions_of F host config backend start older) (check_once-Reports at reply before)
        (transitions_of-Links start older)
