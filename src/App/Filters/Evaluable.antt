-- ===== src/App/Filters/Evaluable.antt =====
-- app/filters.rs: the durations and the time of a filter that is parsed.
use simple_network_monitor.Prelude.{
  ◌≡◌, ◌∙◌, refl, ap, String, Option, none, some, List, [], ◌∷◌, Result, ok, err, ok-injective,
  bind-ok, then-ok, map_err,
}
use simple_network_monitor.Domain.Clock.{DateTime, Duration}
use simple_network_monitor.Domain.Validation.{validate_duration}
use simple_network_monitor.Domain.Filters.{UsageFilter, HostFilter}
use simple_network_monitor.App.Filters.{
  FilterParseError, ApplyKind, host_group, host_icmp_status, metadata_wildcard, usage_status,
  usage_inactive_console_for, usage_no_users_for, key_parts, ParseDuration, invalid_value,
  parse_duration_query, parse_usage_status, parse_icmp_status, split_filter_key, entry_or_unknown,
  apply_usage, apply_host, with_usage_filter, host_parameter, host_parameters, host_of_usage,
  empty_usage, parse_host_filter,
}

-- A duration that is asked for has been validated.
abbrev pub IsValidOption : Option Duration → Type 0
IsValidOption none = Unit
IsValidOption (some d) = validate_duration d ≡ ok tt

abbrev pub IsEvaluable : DateTime → UsageFilter → Type 0
IsEvaluable now u =
    IsValidOption u.inactive_console_for × (IsValidOption u.no_users_for × (u.now ≡ now))

some-injective : {A : Type 0} {a b : A} → ◌≡◌ {A = Option A} (some a) (some b) → a ≡ b
some-injective h = cc

module _ (parse : ParseDuration) where
  parse_duration_query-IsValid :
      (name value : String) (d : Duration)
      → parse_duration_query parse name value ≡ ok d
      → validate_duration d ≡ ok tt
  unfolding parse_duration_query
  parse_duration_query-IsValid name value d h =
      let (x, e, h1) = bind-ok (map_err (invalid_value name value) (parse value)) _ h in
      let (valid, h2) = then-ok (map_err (invalid_value name value) (validate_duration x)) _ h1 in
      let same = ok-injective h2 in rw (← same) (unmapped (validate_duration x) valid)
    where
      unmapped :
          (r : Result String (Unit {0})) → map_err (invalid_value name value) r ≡ ok tt → r ≡ ok tt
      unmapped (ok t) e = refl
      unmapped (err m) e = cc

  apply_usage-Evaluable :
      (now : DateTime) (kind : ApplyKind) (value : String) (b b' : UsageFilter)
      → apply_usage parse kind value b ≡ some (ok b')
      → IsEvaluable now b
      → IsEvaluable now b'
  unfolding apply_usage
  apply_usage-Evaluable now host_group value b b' e v = cc
  apply_usage-Evaluable now host_icmp_status value b b' e v = cc
  apply_usage-Evaluable now metadata_wildcard value b b' e v = cc
  apply_usage-Evaluable now usage_status value b b' e v =
      let (status, e1, e2) =
        bind-ok (parse_usage_status "usage.status" value) _ (some-injective e) in
      rw (← ok-injective e2) v
  apply_usage-Evaluable now usage_inactive_console_for value b b' e v =
      let (d, e1, e2) =
        bind-ok (parse_duration_query parse "usage.inactive_console_for" value) _
          (some-injective e) in
      rw (← ok-injective e2)
        (parse_duration_query-IsValid "usage.inactive_console_for" value d e1, v.1)
  apply_usage-Evaluable now usage_no_users_for value b b' e v =
      let (d, e1, e2) =
        bind-ok (parse_duration_query parse "usage.no_users_for" value) _ (some-injective e) in
      rw (← ok-injective e2)
        (v.0, (parse_duration_query-IsValid "usage.no_users_for" value d e1, v.1.1))

  lifted :
      (now : DateTime) (kind : ApplyKind) (value : String) (b b' : HostFilter)
      (r : Result FilterParseError UsageFilter)
      → apply_usage parse kind value b.usage ≡ some r
      → with_usage_filter b r ≡ ok b'
      → IsEvaluable now b.usage
      → IsEvaluable now b'.usage
  lifted now kind value b b' r e f v =
      let (u, e1, e2) = bind-ok r _ f in
      rw (← ok-injective e2) (apply_usage-Evaluable now kind value b.usage u (e ∙ ap some e1) v)

  apply_host-Evaluable :
      (now : DateTime) (kind : ApplyKind) (key value : String) (b b' : HostFilter)
      → apply_host parse kind key value b ≡ ok b'
      → IsEvaluable now b.usage
      → IsEvaluable now b'.usage
  unfolding apply_host apply_usage
  apply_host-Evaluable now host_group key value b b' e v = rw (← ok-injective e) v
  apply_host-Evaluable now host_icmp_status key value b b' e v =
      let (status, e1, e2) = bind-ok (parse_icmp_status "icmp.status" value) _ e in
      rw (← ok-injective e2) v
  apply_host-Evaluable now metadata_wildcard key value b b' e v = rw (← ok-injective e) v
  apply_host-Evaluable now usage_status key value b b' e v =
      lifted now usage_status value b b' _ refl e v
  apply_host-Evaluable now usage_inactive_console_for key value b b' e v =
      lifted now usage_inactive_console_for value b b' _ refl e v
  apply_host-Evaluable now usage_no_users_for key value b b' e v =
      lifted now usage_no_users_for value b b' _ refl e v

  host_parameters-Evaluable :
      (now : DateTime) (params : List (String × String)) (b b' : HostFilter)
      → host_parameters parse params b ≡ ok b'
      → IsEvaluable now b.usage
      → IsEvaluable now b'.usage
  unfolding host_parameters host_parameter
  host_parameters-Evaluable now [] b b' h v = rw (← ok-injective h) v
  host_parameters-Evaluable now ((raw, value) ∷ params) b b' h v =
      let (b1, h1, h2) = bind-ok (host_parameter parse raw value b) _ h in
      let (k, e1, h3) = bind-ok (split_filter_key raw) _ h1 in
      let (e, e2, h4) = bind-ok (entry_or_unknown (key_parts k).0 (key_parts k).1) _ h3 in
      host_parameters-Evaluable now params b1 b' h2
        (apply_host-Evaluable now e.apply (key_parts k).1 value b b1 h4 v)

  -- The usage part of a filter that is parsed has the time of the call, and its durations are those
  -- that an evaluation of inactivity accepts.
  pub parse_host_filter-IsEvaluable :
      (now : DateTime) (params : List (String × String)) (f : HostFilter)
      → parse_host_filter parse now params ≡ ok f
      → IsEvaluable now f.usage
  unfolding parse_host_filter
  parse_host_filter-IsEvaluable now params f h =
      host_parameters-Evaluable now params (host_of_usage (empty_usage now)) f h (tt, (tt, refl))
