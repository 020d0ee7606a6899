-- ===== src/App/Filters/Restriction.antt =====
-- app/filters.rs: the parser of usage filters beside the parser of host filters.
use simple_network_monitor.Prelude.{
  ◌≡◌, ◌∙◌, ap, inl, inr, String, none, some, List, [], ◌∷◌, arith, ok, ok-injective, bind-ok,
  Option-cases,
}
use simple_network_monitor.Domain.Clock.{DateTime}
use simple_network_monitor.Domain.Filters.{UsageFilter}
use simple_network_monitor.App.Filters.{
  ApplyKind, host_group, host_icmp_status, metadata_wildcard, usage_status,
  usage_inactive_console_for, usage_no_users_for, FilterKey, bare, namespaced, key_parts,
  ParseDuration, split_filter_key, entry_or_unknown, apply_usage, apply_host, with_usage_filter,
  host_parameter, host_parameters, host_of_usage, empty_usage, key_or_unknown, usage_parameter,
  usage_parameters, parse_host_filter, parse_usage_filter,
}

module _ (parse : ParseDuration) where
  applied :
      (kind : ApplyKind) (key value : String) (b b' : UsageFilter)
      → apply_usage parse kind value b ≡ some (ok b')
      → apply_host parse kind key value (host_of_usage b) ≡ ok (host_of_usage b')
  unfolding apply_host apply_usage
  applied host_group key value b b' e = cc
  applied host_icmp_status key value b b' e = cc
  applied metadata_wildcard key value b b' e = cc
  applied usage_status key value b b' e =
      ap
        (λ o. elim o [
          | none ↦ ok (host_of_usage b)
          | some r ↦ with_usage_filter (host_of_usage b) r
        ])
        e
  applied usage_inactive_console_for key value b b' e =
      ap
        (λ o. elim o [
          | none ↦ ok (host_of_usage b)
          | some r ↦ with_usage_filter (host_of_usage b) r
        ])
        e
  applied usage_no_users_for key value b b' e =
      ap
        (λ o. elim o [
          | none ↦ ok (host_of_usage b)
          | some r ↦ with_usage_filter (host_of_usage b) r
        ])
        e

  usage_parameter-Lifts :
      (raw value : String) (b b' : UsageFilter)
      → usage_parameter parse raw value b ≡ ok b'
      → host_parameter parse raw value (host_of_usage b) ≡ ok (host_of_usage b')
  unfolding usage_parameter host_parameter
  usage_parameter-Lifts raw value b b' h =
      let (k, e1, h1) = bind-ok (split_filter_key raw) _ h in
      let (p, e2, h2) = bind-ok (key_or_unknown k) _ h1 in
      let (e, e3, h3) = bind-ok (entry_or_unknown (some p.0) p.1) _ h2 in
      elim (Option-cases (apply_usage parse e.apply value b)) [
        | inl f ↦ absurd (ground arith)
        | inr (r, f) ↦
            let done : r ≡ ok b' = ground arith in
            rw (host_parameter, e1, parts k p e2, e3)
              (applied e.apply p.1 value b b' (f ∙ ap some done))
      ]
    where
      parts :
          (k : FilterKey) (p : String × String)
          → key_or_unknown k ≡ ok p
          → key_parts k ≡ (some p.0, p.1)
      parts (bare s) p e = cc
      parts (namespaced ns s) p e = ap (λ q. (some q.0, q.1)) (ok-injective e)

  usage_parameters-Lift :
      (params : List (String × String)) (b b' : UsageFilter)
      → usage_parameters parse params b ≡ ok b'
      → host_parameters parse params (host_of_usage b) ≡ ok (host_of_usage b')
  unfolding usage_parameters host_parameters
  usage_parameters-Lift [] b b' h = ap (λ u. ok (host_of_usage u)) (ok-injective h)
  usage_parameters-Lift ((raw, value) ∷ params) b b' h =
      let (b1, e, h1) = bind-ok (usage_parameter parse raw value b) _ h in
      rw (usage_parameter-Lifts raw value b b1 e) (usage_parameters-Lift params b1 b' h1)

  -- Parameters that the usage parser accepts are accepted by the host parser, which then asks for
  -- the same usage and for nothing else.
  pub parse_usage_filter-Lifts :
      (now : DateTime) (params : List (String × String)) (u : UsageFilter)
      → parse_usage_filter parse now params ≡ ok u
      → parse_host_filter parse now params ≡ ok (host_of_usage u)
  unfolding parse_usage_filter parse_host_filter
  parse_usage_filter-Lifts now params u = usage_parameters-Lift params (empty_usage now) u
