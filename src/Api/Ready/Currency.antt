-- ===== src/Api/Ready/Currency.antt =====
-- api/routes/mod.rs, `readyz`: the checks that are counted, and those that are current.
use simple_network_monitor.Prelude.{
  ℕ, ◌+◌, ◌≤◌, ◌≡◌, ◌↔◌, refl, arith, Bool, true, false, ◌&&◌, not, List, [], ◌∷◌, length, retain,
  All, ◌||◌, ◌==◌, ==_iff, Bool-cases, inl, inr,
}
use simple_network_monitor.Prelude.Float.{FloatOps}
use simple_network_monitor.Domain.Clock.{DateTime}
use simple_network_monitor.Domain.Tcp.{TcpCheckConfig, ResolvedTcpHostConfig, TcpSnapshot}
use simple_network_monitor.Domain.Host.{is_fresh}
use simple_network_monitor.Storage.Tables.{Keyed, lookup}
use simple_network_monitor.Storage.Records.{HostRecord}
use simple_network_monitor.Api.Dto.{
  TcpCheckResponse, host_response, tcp_responses, tcp_check_response, usage_at, tcp_at,
}
use simple_network_monitor.Api.Ready.{of_bool, enabled_of, current_of, count_checks, readyz}

-- A check that is enabled is fresh.
abbrev pub IsMet : Bool → Bool → Type 0
IsMet enabled fresh = enabled ≡ true → fresh ≡ true

abbrev pub tcp_fresh : DateTime → ResolvedTcpHostConfig → Keyed TcpSnapshot → TcpCheckConfig → Bool
tcp_fresh now config tcp c =
    is_fresh (tcp_at (lookup c.id.as_str tcp)) config.interval config.timeout now

-- Every check of the host that is enabled has an observation that is current.
abbrev pub IsCurrent : DateTime × HostRecord → Type 0
IsCurrent (now, r) =
    IsMet r.host.modules.icmp.enabled (
      is_fresh r.state.last_checked_at r.host.modules.icmp.interval r.host.modules.icmp.timeout now)
    × IsMet r.host.modules.usage.enabled
        (is_fresh (usage_at r.usage) r.host.modules.usage.interval r.host.modules.usage.timeout now)
    × All (λ c. IsMet r.host.modules.tcp.enabled (tcp_fresh now r.host.modules.tcp r.tcp c))
        r.host.modules.tcp.checks

-- The number of checks that are left, and whether that leaves out none.
abbrev Counts : ℕ → ℕ → Type 0 → Type 0
Counts enabled current P = (current ≤ enabled) × ((enabled ≡ current) ↔ P)

flags-Counts : (e f : Bool) → Counts (of_bool e) (of_bool (e && not (not e || not f))) (IsMet e f)
flags-Counts true true = (omega arith, (λ h g. refl, λ h. refl))
flags-Counts true false =
    (omega arith, (λ h g. absurd (omega (arith, h)), λ h. let wrong = h refl in cc))
flags-Counts false f = (omega arith, (λ h g. cc, λ h. refl))

add-Counts :
    (m n k l : ℕ) {P Q : Type 0} → Counts m n P → Counts k l Q → Counts (m + k) (n + l) (P × Q)
add-Counts m n k l (le, iff) (le', iff') = (
  omega arith,
  (
    λ h. (iff.0 (omega (arith, h)), iff'.0 (omega (arith, h))),
    λ h. omega (arith, iff.1 h.0, iff'.1 h.1),
  ),
)

-- The checks of a host that are counted, by whether TCP is on and each of them is fresh.
step-Counts :
    (F : Type 0) (e f : Bool) (c : TcpCheckResponse F) (cs : List (TcpCheckResponse F)) {P : Type 0}
    → c.enabled ≡ e
    → c.stale ≡ (not e || not f)
    → Counts
        (length (retain (λ c. c.enabled) cs))
        (length (retain (λ c. c.enabled && not c.stale) cs))
        P
    → Counts
        (length (retain (λ c. c.enabled) (c ∷ cs)))
        (length (retain (λ c. c.enabled && not c.stale) (c ∷ cs)))
        (IsMet e f × P)
step-Counts F true true c cs on stale (le, iff) =
    rw (on, stale)
      (
        omega (arith, le),
        (λ g. (λ x. refl, iff.0 (omega (arith, g))), λ g. omega (arith, iff.1 g.1)),
      )
step-Counts F true false c cs on stale (le, iff) =
    rw (on, stale)
      (omega (arith, le), (λ g. absurd (omega (arith, le, g)), λ g. let wrong = g.0 refl in cc))
step-Counts F false f c cs on stale (le, iff) =
    rw on (le, (λ g. (λ x. cc, iff.0 g), λ g. iff.1 g.1))

module _ (F : Type 0) ⦃o : FloatOps F⦄ (now : DateTime) (config : ResolvedTcpHostConfig)
    (tcp : Keyed TcpSnapshot) where
  tcp_responses-Counts :
      (cs : List TcpCheckConfig)
      → Counts
          (length (retain (λ c. c.enabled) (tcp_responses {F = F} now config tcp cs)))
          (length
            (retain (λ c. c.enabled && not c.stale) (tcp_responses {F = F} now config tcp cs)))
          (All (λ c. IsMet config.enabled (tcp_fresh now config tcp c)) cs)
  unfolding tcp_responses tcp_check_response
  tcp_responses-Counts [] = (omega arith, (λ h. tt, λ h. refl))
  tcp_responses-Counts (c ∷ cs) =
      step-Counts F config.enabled (tcp_fresh now config tcp c)
        (tcp_check_response now config tcp c) (tcp_responses now config tcp cs) refl refl
        (tcp_responses-Counts cs)

-- Three products in a row, as sums are written and as currency is.
host-Counts :
    (F : Type 0) ⦃o : FloatOps F⦄ (now : DateTime) (r : HostRecord)
    → Counts
        (enabled_of (host_response {F = F} now r))
        (current_of (host_response {F = F} now r))
        (IsCurrent (now, r))
unfolding enabled_of current_of host_response
host-Counts F now r =
    let (le, iff) =
      add-Counts _ _ _ _ (add-Counts _ _ _ _ (flags-Counts _ _) (flags-Counts _ _))
        (tcp_responses-Counts F now r.host.modules.tcp r.tcp r.host.modules.tcp.checks) in
    (le, (λ h. let ((a, b), c) = iff.0 h in (a, b, c), λ h. iff.1 ((h.0, h.1), h.2)))

count_checks-Counts :
    (F : Type 0) ⦃o : FloatOps F⦄ (rs : List (DateTime × HostRecord))
    → Counts (count_checks F rs).0 (count_checks F rs).1 (All IsCurrent rs)
unfolding count_checks
count_checks-Counts F [] = (omega arith, (λ h. tt, λ h. refl))
count_checks-Counts F ((now, r) ∷ rs) =
    add-Counts _ _ _ _ (host-Counts F now r) (count_checks-Counts F rs)

-- The answer is 200 exactly when every check that is enabled, of every host, has an observation
-- that is current when it is read, and otherwise 503.
pub readyz-IsCurrent :
    (F : Type 0) ⦃o : FloatOps F⦄ (records : List (DateTime × HostRecord))
    → (((readyz F records).code ≡ 200) ↔ All IsCurrent records)
      × (((readyz F records).code ≡ 503) ↔ ¬ (All IsCurrent records))
unfolding readyz
readyz-IsCurrent F records =
    let (le, iff) = count_checks-Counts F records in
    let e = (count_checks F records).0 in
    let c = (count_checks F records).1 in
    let same = ==_iff e c in
    elim (Bool-cases (e == c)) [
      | inl ready ↦ rw ready (
        (λ h. iff.0 (same.0 ready), λ h. refl),
        (λ h. absurd (omega (arith, h)), λ h. absurd (h (iff.0 (same.0 ready)))),
      )
      | inr waits ↦ rw waits (
        (λ h. absurd (omega (arith, h)), λ h. absurd (ground (arith, iff.1 h))),
        (λ h all. ground (arith, iff.1 all), λ h. refl),
      )
    ]
