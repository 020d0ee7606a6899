-- ===== src/App/Filters.antt =====
-- app/filters.rs: the query parameters of the API become a filter. The parameters are a list in the
-- order in which the map is iterated. An error leaves out the lists of valid keys in its message.
-- `humantime::parse_duration` is an argument.
pub mod Keys
pub mod Restriction
pub mod Evaluable
use Prim.Native.Char.{code}
use simple_network_monitor.Prelude.{
  ℕ, String, Bool, true, false, ◌&&◌, ◌||◌, not, Option, none, some, List, [], ◌∷◌, ◌==◌, str_eq,
  any, is_some, Result, ok, err, ◌>>=◌, ◌>>◌, map_err, if◌then◌else◌,
}
use simple_network_monitor.Domain.Clock.{Duration, DateTime}
use simple_network_monitor.Domain.Validation.{validate_duration, codes}
use simple_network_monitor.Domain.Icmp.{HostStatus, status_try_from}
use simple_network_monitor.Domain.Usage.{UsageCollectionStatus, usage_status_try_from}
use simple_network_monitor.Domain.Filters.{UsageFilter, HostFilter}
use simple_network_monitor.Storage.Tables.{upsert}

pub data FilterParseError : Type 0 where
  invalid_key : String → FilterParseError
  unknown_bare_key : String → FilterParseError
  unknown_namespace : String → FilterParseError
  unknown_namespace_key : String → String → FilterParseError
  invalid_value : String → String → String → FilterParseError

-- The closures of the table, by what they write.
pub data ApplyKind : Type 0 where
  host_group host_icmp_status metadata_wildcard : ApplyKind
  usage_status usage_inactive_console_for usage_no_users_for : ApplyKind

pub record FilterEntry : Type 0 where
  pub namespace : Option String
  pub key : String
  pub apply : ApplyKind

abbrev pub entry : Option String → String → ApplyKind → FilterEntry
entry namespace key apply = record { namespace = namespace; key = key; apply = apply }

abbrev pub registry : List FilterEntry
registry =
    entry none "group" host_group
    ∷ entry (some "icmp") "status" host_icmp_status
    ∷ entry (some "metadata") "*" metadata_wildcard
    ∷ entry (some "usage") "status" usage_status
    ∷ entry (some "usage") "inactive_console_for" usage_inactive_console_for
    ∷ entry (some "usage") "no_users_for" usage_no_users_for
    ∷ []

abbrev pub same_namespace : Option String → Option String → Bool
same_namespace none none = true
same_namespace (some a) (some b) = str_eq a b
same_namespace _ _ = false

unfoldable pub find_entry : Option String → String → List FilterEntry → Option FilterEntry
find_entry namespace key [] = none
find_entry namespace key (e ∷ es) =
    if same_namespace e.namespace namespace && str_eq e.key key
    then some e
    else find_entry namespace key es

unfoldable pub lookup_entry : Option String → String → Option FilterEntry
unfolding find_entry
lookup_entry namespace key = elim (find_entry namespace key registry) [
  | none ↦ find_entry namespace "*" registry
  | some e ↦ some e
]

-- The ids of the modules, and the keys of their `filter_specs`.
abbrev pub module_specs : List (String × List String)
module_specs =
    ("icmp", "status" ∷ [])
    ∷ ("usage", "status" ∷ "inactive_console_for" ∷ "no_users_for" ∷ [])
    ∷ ("tcp", [])
    ∷ []

-- `supported_module_filter_specs`: a module enters the catalog with its first supported key.
unfoldable pub has_supported : String → List String → Bool
unfolding lookup_entry
has_supported id keys = any (λ k. is_some (lookup_entry (some id) k)) keys

-- `catalog().namespaces.contains_key(ns)`.
unfoldable pub is_namespace : String → Bool
unfolding has_supported
is_namespace ns =
    str_eq "metadata" ns || any (λ m. str_eq m.0 ns && has_supported m.0 m.1) module_specs

pub data FilterKey : Type 0 where
  bare : String → FilterKey
  namespaced : String → String → FilterKey

abbrev pub is_dot : ℕ → Bool
is_dot c = c == b'.'

abbrev pub contains_dot : String → Bool
contains_dot s = any is_dot (codes s)

-- `key.split_once('.')`.
unfoldable pub split_once : String → Option (String × String)
split_once String.[] = none
split_once (String.◌∷◌ c s) =
    let rest = split_once s in
    if is_dot (code c)
    then some ("", s)
    else elim rest [ none ↦ none | some p ↦ some (String.◌∷◌ c p.0, p.1) ]

abbrev pub is_text_empty : String → Bool
is_text_empty s = str_eq s ""

unfoldable pub split_filter_key : String → Result FilterParseError FilterKey
unfolding split_once
split_filter_key key = elim (split_once key) [
  | none ↦ ok (bare key)
  | some p ↦
      if is_text_empty p.0 || is_text_empty p.1 || contains_dot p.1
      then err (invalid_key key)
      else ok (namespaced p.0 p.1)
]

-- `humantime::parse_duration`, with its message on an error.
abbrev pub ParseDuration : Type 0
ParseDuration = String → Result String Duration

unfoldable pub parse_duration_query :
    ParseDuration → String → String → Result FilterParseError Duration
parse_duration_query parse name value = do
  duration ← map_err (invalid_value name value) (parse value)
  map_err (invalid_value name value) (validate_duration duration)
  ok duration

unfoldable pub parse_icmp_status : String → String → Result FilterParseError HostStatus
parse_icmp_status name value = map_err (invalid_value name value) (status_try_from value)

unfoldable pub parse_usage_status : String → String → Result FilterParseError UsageCollectionStatus
parse_usage_status name value = map_err (invalid_value name value) (usage_status_try_from value)

-- `lookup(…).ok_or_else(…)`.
unfoldable pub entry_or_unknown : Option String → String → Result FilterParseError FilterEntry
unfolding lookup_entry is_namespace
entry_or_unknown namespace key = elim (lookup_entry namespace key) [
  | some e ↦ ok e
  | none ↦ elim namespace [
    | none ↦ err (unknown_bare_key key)
    | some ns ↦
        if not (is_namespace ns)
        then err (unknown_namespace ns)
        else err (unknown_namespace_key ns key)
  ]
]

-- The builders are the filters that they end in.
unfoldable pub apply_usage :
    ParseDuration → ApplyKind → String → UsageFilter → Option (Result FilterParseError UsageFilter)
unfolding parse_usage_status parse_duration_query
apply_usage parse usage_status value b =
    some
      (do status ← parse_usage_status "usage.status" value; ok (record b { status = some status }))
apply_usage parse usage_inactive_console_for value b = some (do
  d ← parse_duration_query parse "usage.inactive_console_for" value
  ok (record b { inactive_console_for = some d }))
apply_usage parse usage_no_users_for value b = some (do
  d ← parse_duration_query parse "usage.no_users_for" value
  ok (record b { no_users_for = some d }))
apply_usage parse _ value b = none

abbrev pub with_usage_filter :
    HostFilter → Result FilterParseError UsageFilter → Result FilterParseError HostFilter
with_usage_filter b r = r >>= λ u. ok (record b { usage = u })

unfoldable pub apply_host :
    ParseDuration → ApplyKind → String → String → HostFilter → Result FilterParseError HostFilter
unfolding parse_icmp_status apply_usage
apply_host parse host_group key value b = ok (record b { group = some value })
apply_host parse host_icmp_status key value b = do
  status ← parse_icmp_status "icmp.status" value
  ok (record b { icmp_status = some status })
apply_host parse metadata_wildcard key value b =
    ok (record b { metadata = upsert key value b.metadata })
apply_host parse kind key value b = elim (apply_usage parse kind value b.usage) [
  | none ↦ ok b
  | some r ↦ with_usage_filter b r
]

abbrev pub key_parts : FilterKey → Option String × String
key_parts (bare k) = (none, k)
key_parts (namespaced ns k) = (some ns, k)

unfoldable pub host_parameter :
    ParseDuration → String → String → HostFilter → Result FilterParseError HostFilter
unfolding split_filter_key entry_or_unknown apply_host
host_parameter parse raw value b = do
  k ← split_filter_key raw
  e ← entry_or_unknown (key_parts k).0 (key_parts k).1
  apply_host parse e.apply (key_parts k).1 value b

unfoldable pub host_parameters :
    ParseDuration → List (String × String) → HostFilter → Result FilterParseError HostFilter
unfolding host_parameter
host_parameters parse [] b = ok b
host_parameters parse ((raw, value) ∷ params) b = do
  b' ← host_parameter parse raw value b
  host_parameters parse params b'

abbrev pub empty_usage : DateTime → UsageFilter
empty_usage now = record {
  status = none;
  inactive_console_for = none;
  no_users_for = none;
  now = now;
}

abbrev pub host_of_usage : UsageFilter → HostFilter
host_of_usage u = record { icmp_status = none; group = none; metadata = []; usage = u }

unfoldable pub parse_host_filter :
    ParseDuration → DateTime → List (String × String) → Result FilterParseError HostFilter
unfolding host_parameters
parse_host_filter parse now params = host_parameters parse params (host_of_usage (empty_usage now))

abbrev pub key_or_unknown : FilterKey → Result FilterParseError (String × String)
key_or_unknown (bare k) = err (unknown_bare_key k)
key_or_unknown (namespaced ns k) = ok (ns, k)

unfoldable pub usage_parameter :
    ParseDuration → String → String → UsageFilter → Result FilterParseError UsageFilter
unfolding split_filter_key entry_or_unknown apply_usage
usage_parameter parse raw value b = do
  k ← split_filter_key raw
  p ← key_or_unknown k
  e ← entry_or_unknown (some p.0) p.1
  elim (apply_usage parse e.apply value b) [
    | none ↦ err (unknown_namespace_key p.0 p.1)
    | some r ↦ r
  ]

unfoldable pub usage_parameters :
    ParseDuration → List (String × String) → UsageFilter → Result FilterParseError UsageFilter
unfolding usage_parameter
usage_parameters parse [] b = ok b
usage_parameters parse ((raw, value) ∷ params) b = do
  b' ← usage_parameter parse raw value b
  usage_parameters parse params b'

unfoldable pub parse_usage_filter :
    ParseDuration → DateTime → List (String × String) → Result FilterParseError UsageFilter
unfolding usage_parameters
parse_usage_filter parse now params = usage_parameters parse params (empty_usage now)
