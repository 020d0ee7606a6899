-- ===== src/Domain/Tcp.antt =====
-- domain/tcp.rs: check identifiers, the checks of a host, and the result of an attempt.
use Prim.Native.String.{len}
use simple_network_monitor.Prelude.{
  ℕ, String, Bool, true, false, ◌||◌, not, Option, none, some, List, [], ◌∷◌, str_eq, ltb, length,
  any, Result, ok, err, ◌>>◌, reject, if◌then◌else◌,
}
use simple_network_monitor.Domain.Clock.{Duration, DateTime, from_secs}
use simple_network_monitor.Domain.Validation.{validate_duration, is_identifier}

-- A `CheckId` is the text that `new` let through.
pub record CheckId : Type 0 where
  pub as_str : String

unfoldable pub new_check_id : String → Result String CheckId
unfolding is_identifier
new_check_id value =
    if ltb 128 (len value) || not (is_identifier value)
    then err "check ID must contain 1..128 ASCII letters, digits, dash, underscore, or dot"
    else ok (record { as_str = value })

pub record TcpCheckConfig : Type 0 where
  pub id : CheckId
  pub port : ℕ

pub record ResolvedTcpHostConfig : Type 0 where
  pub enabled : Bool
  pub interval : Duration
  pub timeout : Duration
  pub checks : List TcpCheckConfig

abbrev pub default_tcp : ResolvedTcpHostConfig
default_tcp = record {
  enabled = false;
  interval = from_secs 30;
  timeout = from_secs 3;
  checks = [];
}

-- The loop over the checks: `ids` holds the identifiers met so far.
unfoldable pub insert_ids : List String → List TcpCheckConfig → Result String (Unit {0})
insert_ids ids [] = ok tt
insert_ids ids (check ∷ checks) =
    let rest = insert_ids (check.id.as_str ∷ ids) checks in
    if any (str_eq check.id.as_str) ids then err "duplicate TCP check ID" else rest

unfoldable pub validate_tcp : ResolvedTcpHostConfig → Result String (Unit {0})
unfolding insert_ids validate_duration
validate_tcp c = do
  validate_duration c.interval
  validate_duration c.timeout
  reject (ltb 64 (length c.checks)) "at most 64 TCP checks are allowed per host"
  insert_ids [] c.checks

-- A completed attempt: the result is either the time that it took or the diagnostic.
pub record TcpSnapshot : Type 0 where
  pub observed_at : DateTime
  pub result : Result String Duration

unfoldable pub success : TcpSnapshot → Bool
success s = elim s.result [ ok d ↦ true | err e ↦ false ]

unfoldable pub duration : TcpSnapshot → Option Duration
duration s = elim s.result [ ok d ↦ some d | err e ↦ none ]

unfoldable pub error : TcpSnapshot → Option String
error s = elim s.result [ ok d ↦ none | err e ↦ some e ]
