-- ===== src/Domain/Validation.antt =====
-- domain/validation.rs: durations and addresses, with the identifier tests of domain/host.rs,
-- domain/tcp.rs and config.rs. `IpAddr::from_str` belongs to the standard library, and is an argument.
use Prim.Native.Char.{code}
use Prim.Native.String.{len}
use simple_network_monitor.Prelude.{
  ℕ, ◌*◌, String, Bool, false, not, ◌&&◌, ◌||◌, List, [], ◌∷◌, ltb, leb, ◌==◌, str_eq, all, Result,
  ok, err, if◌then◌else◌,
}
use simple_network_monitor.Domain.Clock.{Duration, from_secs, from_millis}

abbrev pub max_duration : Duration
max_duration = from_secs (10 * 366 * 24 * 60 * 60)

unfoldable pub validate_duration : Duration → Result String (Unit {0})
validate_duration value =
    if ltb value (from_millis 1) || ltb max_duration value
    then err "duration must be between 1ms and 10 years (3660 days)"
    else ok tt

-- The code points of a text. Those of a text that passes the tests below are its bytes.
abbrev pub codes : String → List ℕ
codes String.[] = []
codes (String.◌∷◌ c s) = code c ∷ codes s

unfoldable pub is_ascii_alphanumeric : ℕ → Bool
is_ascii_alphanumeric b =
    (leb b'0' b && leb b b'9') || (leb b'A' b && leb b b'Z') || (leb b'a' b && leb b b'z')

-- `matches!(b, b'-' | b'.' | b'_')` beside the letters and digits.
unfoldable pub is_identifier_byte : ℕ → Bool
unfolding is_ascii_alphanumeric
is_identifier_byte b = is_ascii_alphanumeric b || b == b'-' || b == b'.' || b == b'_'

-- `as_bytes()[0]` stands behind the test for the empty text.
unfoldable pub starts_alphanumeric : List ℕ → Bool
unfolding is_ascii_alphanumeric
starts_alphanumeric [] = false
starts_alphanumeric (b ∷ bs) = is_ascii_alphanumeric b

unfoldable pub validate_address : (String → Bool) → String → Result String (Unit {0})
unfolding is_identifier_byte starts_alphanumeric
validate_address is_ip_literal value =
    if is_ip_literal value
    then ok tt
    else if str_eq value ""
        || ltb 253 (len value)
        || not (starts_alphanumeric (codes value))
        || not (all is_identifier_byte (codes value))
    then err "address must be an IP literal or DNS/SSH host alias"
    else ok tt

-- The test on host and group identifiers: not empty, not "." or "..", and identifier bytes only.
unfoldable pub is_identifier : String → Bool
unfolding is_identifier_byte
is_identifier value = not (
    str_eq value ""
    || str_eq value "."
    || str_eq value ".."
    || not (all is_identifier_byte (codes value)))
