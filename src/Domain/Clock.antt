-- ===== src/Domain/Clock.antt =====
-- `std::time::Duration` and `chrono::DateTime<Utc>` as numbers of nanoseconds, with the conversions
-- and the saturating operations of the standard library that the source calls. Instants are counted
-- from the Unix epoch; no observation is older than that.
use simple_network_monitor.Prelude.{ℕ, ◌+◌, ◌-◌, ◌*◌, ◌/◌, ◌%◌, ◌^◌, min}

abbrev pub Duration : Type 0
Duration = ℕ

abbrev pub DateTime : Type 0
DateTime = ℕ

abbrev pub from_secs : ℕ → Duration
from_secs n = n * 1_000_000_000

abbrev pub from_millis : ℕ → Duration
from_millis n = n * 1_000_000

abbrev pub as_millis : Duration → ℕ
as_millis d = d / 1_000_000

abbrev pub as_secs : Duration → ℕ
as_secs d = d / 1_000_000_000

abbrev pub timestamp_millis : DateTime → ℕ
timestamp_millis t = t / 1_000_000

-- `Duration::MAX`: `u64::MAX` seconds and 999_999_999 nanoseconds.
abbrev pub duration_max : Duration
duration_max = 2 ^ 64 * 1_000_000_000 - 1

abbrev pub saturating_mul : Duration → ℕ → Duration
saturating_mul d n = min (d * n) duration_max

abbrev pub saturating_add : Duration → Duration → Duration
saturating_add d e = min (d + e) duration_max

abbrev pub u32_max : ℕ
u32_max = 2 ^ 32 - 1

-- `u32::saturating_add`.
abbrev pub saturating_add_u32 : ℕ → ℕ → ℕ
saturating_add_u32 a b = min (a + b) u32_max

-- `u64` addition, which wraps in a release build.
abbrev pub add_u64 : ℕ → ℕ → ℕ
add_u64 a b = (a + b) % 2 ^ 64
