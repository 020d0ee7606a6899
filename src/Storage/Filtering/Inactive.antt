-- ===== src/Storage/Filtering/Inactive.antt =====
-- storage/sqlite/queries.rs, `matches_usage_filter`: filters that ask for inactivity.
use simple_network_monitor.Prelude.{
  ◌≡◌, refl, ap, ◌-◌, ◌+◌, ◌*◌, ◌≤◌, ℕ, inl, inr, Option-cases, Bool, true, false, not, ◌||◌,
  Option, none, some, Result, ok, err, ok-injective, map_err, bind-ok, arith, if◌then◌else◌,
  is_some,
}
use simple_network_monitor.Domain.Clock.{DateTime, Duration}
use simple_network_monitor.Domain.Usage.{UsageSnapshot}
use simple_network_monitor.Domain.Host.{Host, is_fresh}
use simple_network_monitor.Domain.Filters.{UsageFilter}
use simple_network_monitor.Domain.Inactivity.{
  ActivityPredicate, console_only, any_user, known, evaluate_inactivity, sqlite_history,
  current_state_is_inactive, sql_state,
}
use simple_network_monitor.Domain.Inactivity.Soundness.{evaluate_inactivity-IsSound}
use simple_network_monitor.Storage.Errors.{StorageError}
use simple_network_monitor.Storage.Tables.{Database, Chrono, Coverage, lookup}
use simple_network_monitor.Storage.Updates.{checked_cutoff}
use simple_network_monitor.Storage.Filtering.{
  map_inactivity_error, longest, is_covered, window_covered, inactive_for, and_then,
  usage_status_matches, matches_usage_filter,
}

and_then-true :
    (m k : Result StorageError Bool) → and_then m k ≡ ok true → (m ≡ ok true) × (k ≡ ok true)
and_then-true (ok true) k h = (refl, h)
and_then-true (ok false) k h = absurd (ground arith)
and_then-true (err e) k h = cc

asked_rest :
    (b : Bool) (k : Result StorageError Bool)
    → b ≡ true
    → (if not b then ok true else k) ≡ ok true
    → k ≡ ok true
asked_rest b k asked h = ground arith

passed_rest :
    (b : Bool) (k : Result StorageError Bool)
    → (if b then ok false else k) ≡ ok true
    → (b ≡ false) × (k ≡ ok true)
passed_rest true k h = absurd (ground arith)
passed_rest false k h = (refl, h)

both_on : (a b : Bool) → (not a || not b) ≡ false → (a ≡ true) × (b ≡ true)
both_on a b h = ground arith

unmapped : {E E' : Type 0} (f : E → E') (r : Result E Bool) → map_err f r ≡ ok true → r ≡ ok true
unmapped f (ok b) h = ap ok (ok-injective h)
unmapped f (err e) h = cc

module _ {F : Type 0} (db : Database F) (host : Host) where
  -- The host was seen to be quiet at every instant from the start of the duration on.
  abbrev pub QuietFor : UsageSnapshot → DateTime → ActivityPredicate → Option Duration → Type 0
  QuietFor snapshot now p none = Unit
  QuietFor snapshot now p (some d) =
      (current_state_is_inactive p snapshot ≡ true)
      × ((t : DateTime)
          → now - d ≤ t
          → sql_state db.usage_history.rows host.id t p ≡ some (known false))

  inactive_for-Quiet :
      (snapshot : UsageSnapshot) (now : DateTime) (p : ActivityPredicate) (d : Option Duration)
      → inactive_for db host snapshot now p d ≡ ok true
      → QuietFor snapshot now p d
  unfolding inactive_for
  inactive_for-Quiet snapshot now p none h = tt
  inactive_for-Quiet snapshot now p (some d) h =
      let yes =
        unmapped map_inactivity_error
          (evaluate_inactivity snapshot d now p (sqlite_history db.usage_history.rows host.id)) h in
      (
        (evaluate_inactivity-IsSound db.usage_history.rows host.id p snapshot d now now yes
            (omega arith)).0,
        λ t le.
            (evaluate_inactivity-IsSound db.usage_history.rows host.id p snapshot d now t yes le).1,
      )

  -- The collection of a host whose usage is collected, within two intervals and a timeout.
  abbrev pub FreshFor : UsageSnapshot → DateTime → Type 0
  FreshFor snapshot now =
      (host.modules.usage.enabled ≡ true)
      × (snapshot.collected_at ≤ now)
      × (now - snapshot.collected_at ≤ host.modules.usage.interval * 2 + host.modules.usage.timeout)

  -- The host has been collected without a break, and nothing of it has been pruned, since a duration
  -- ago or longer.
  abbrev pub CoveredFor : DateTime → Option Duration → Type 0
  CoveredFor now none = Unit
  CoveredFor now (some d) =
      ((c : Coverage) × (lookup host.id db.usage_coverage ≡ some c) × (c.started_at + d ≤ now))
      × ((floor : DateTime) → db.retention_floor ≡ some floor → floor + d ≤ now)

  fresh-bounds :
      (snapshot : UsageSnapshot) (now interval timeout : ℕ)
      → is_fresh (some snapshot.collected_at) interval timeout now ≡ true
      → (snapshot.collected_at ≤ now) × (now - snapshot.collected_at ≤ interval * 2 + timeout)
  unfolding is_fresh
  fresh-bounds snapshot now interval timeout h = ground arith

  covered-since :
      (cutoff d now : ℕ)
      → cutoff + d ≤ now
      → is_covered db host.id cutoff ≡ true
      → CoveredFor now (some d)
  unfolding is_covered
  covered-since cutoff d now le h = elim (Option-cases (lookup host.id db.usage_coverage)) [
    | inl e ↦ absurd (ground arith)
    | inr (c, e) ↦ ((c, e, ground arith), λ floor f. ground arith)
  ]

  covered-longest :
      (cutoff now : ℕ) (console users : Option Duration)
      → cutoff + longest console users ≡ now
      → is_covered db host.id cutoff ≡ true
      → CoveredFor now console × CoveredFor now users
  covered-longest cutoff now none none e h = (tt, tt)
  covered-longest cutoff now (some d) none e h =
      (covered-since cutoff d now (omega (arith, e)) h, tt)
  covered-longest cutoff now none (some u) e h =
      (tt, covered-since cutoff u now (omega (arith, e)) h)
  covered-longest cutoff now (some d) (some u) e h = (
    covered-since cutoff d now (omega (arith, e)) h,
    covered-since cutoff u now (omega (arith, e)) h,
  )

  module _ (chrono : Chrono) (from_std : (d x : Duration) → chrono.from_std d ≡ some x → x ≡ d)
      (sub_signed : (now d t : ℕ) → chrono.checked_sub_signed now d ≡ some t → t + d ≡ now) where
    checked_cutoff-sum :
        (now d cutoff : ℕ) → checked_cutoff chrono now d ≡ ok cutoff → cutoff + d ≡ now
    unfolding checked_cutoff
    checked_cutoff-sum now d cutoff h = elim (Option-cases (chrono.from_std d)) [
      | inl e ↦ absurd (ground arith)
      | inr (delta, e) ↦ elim (Option-cases (chrono.checked_sub_signed now delta)) [
        | inl f ↦ absurd (ground arith)
        | inr (t, f) ↦
            let at : t ≡ cutoff = ground arith in
            omega (arith, at, from_std d delta e, sub_signed now delta t f)
      ]
    ]

    window_covered-Covered :
        (snapshot : UsageSnapshot) (f : UsageFilter)
        → (is_some f.inactive_console_for || is_some f.no_users_for) ≡ true
        → window_covered chrono db host snapshot f ≡ ok true
        → FreshFor snapshot f.now
          × CoveredFor f.now f.inactive_console_for
          × CoveredFor f.now f.no_users_for
    unfolding window_covered
    window_covered-Covered snapshot f asked h =
        let interval = host.modules.usage.interval in
        let timeout = host.modules.usage.timeout in
        let enabled = host.modules.usage.enabled in
        let fresh : Bool = is_fresh (some snapshot.collected_at) interval timeout f.now in
        let d = longest f.inactive_console_for f.no_users_for in
        let h1 = asked_rest (is_some f.inactive_console_for || is_some f.no_users_for) _ asked h in
        let (on, h2) = passed_rest (not enabled || not fresh) _ h1 in
        let (enabled_on, fresh_on) = both_on enabled fresh on in
        let within = fresh-bounds snapshot f.now interval timeout fresh_on in
        let (cutoff, e, h3) = bind-ok (checked_cutoff chrono f.now d) _ h2 in
        let (console, users) =
          covered-longest cutoff f.now f.inactive_console_for f.no_users_for
            (checked_cutoff-sum f.now d cutoff e) (ok-injective h3) in
        ((enabled_on, within.0, within.1), console, users)

    -- Where the arithmetic of chrono is exact when it succeeds, a filter that asks for inactivity lets
    -- a host through only when its usage is enabled and was collected within two intervals and a
    -- timeout, and when for each duration that is asked for, the coverage of the host started that
    -- long ago or earlier, no retention floor is later than that, and the host was seen to be quiet
    -- at every instant since.
    pub matches_usage_filter-IsQuiet :
        (snapshot : UsageSnapshot) (f : UsageFilter)
        → (is_some f.inactive_console_for || is_some f.no_users_for) ≡ true
        → matches_usage_filter chrono db host snapshot f ≡ ok true
        → FreshFor snapshot f.now
          × (CoveredFor f.now f.inactive_console_for × CoveredFor f.now f.no_users_for)
          × QuietFor snapshot f.now console_only f.inactive_console_for
          × QuietFor snapshot f.now any_user f.no_users_for
    unfolding matches_usage_filter
    matches_usage_filter-IsQuiet snapshot f asked h =
        let (status, h1) = and_then-true (ok (usage_status_matches f snapshot)) _ h in
        let (window, h2) = and_then-true (window_covered chrono db host snapshot f) _ h1 in
        let (console, users) =
          and_then-true (inactive_for db host snapshot f.now console_only f.inactive_console_for) _
            h2 in
        let (fresh, console_covered, users_covered) =
          window_covered-Covered snapshot f asked window in
        (
          fresh,
          (console_covered, users_covered),
          inactive_for-Quiet snapshot f.now console_only f.inactive_console_for console,
          inactive_for-Quiet snapshot f.now any_user f.no_users_for users,
        )
