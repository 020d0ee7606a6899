-- ===== src/Api/Ready.antt =====
-- api/routes/mod.rs, `readyz`, once the request is authorized and the records are read: whether every
-- check that is enabled has a current observation. The hosts stand in memory, so that their checks
-- are fewer than the numbers of a `usize`.
pub mod Currency
use simple_network_monitor.Prelude.{
  ℕ, ◌+◌, String, Bool, true, false, ◌&&◌, not, List, [], ◌∷◌, ◌==◌, length, retain, if◌then◌else◌,
}
use simple_network_monitor.Prelude.Float.{FloatOps}
use simple_network_monitor.Domain.Clock.{DateTime}
use simple_network_monitor.Storage.Records.{HostRecord}
use simple_network_monitor.Api.Dto.{TcpCheckResponse, HostResponse, host_response}

-- `usize::from` of a test.
abbrev pub of_bool : Bool → ℕ
of_bool true = 1
of_bool false = 0

pub record ReadinessResponse : Type 0 where
  pub status : String
  pub enabled_checks : ℕ
  pub current_checks : ℕ

-- A status of HTTP with the body that is sent under it.
pub record Answer : Type 0 where
  pub code : ℕ
  pub body : ReadinessResponse

module _ {F : Type 0} ⦃o : FloatOps F⦄ where
  unfoldable pub enabled_of : HostResponse F → ℕ
  enabled_of dto =
      of_bool dto.icmp_enabled
      + of_bool dto.usage_enabled
      + length (retain (λ c. c.enabled) dto.tcp)

  unfoldable pub current_of : HostResponse F → ℕ
  current_of dto =
      of_bool (dto.icmp_enabled && not dto.icmp_stale)
      + of_bool (dto.usage_enabled && not dto.usage_stale)
      + length (retain (λ c. c.enabled && not c.stale) dto.tcp)

-- The loop over the records, whose clock is read once for each of them.
unfoldable pub count_checks : (F : Type 0) ⦃o : FloatOps F⦄ → List (DateTime × HostRecord) → ℕ × ℕ
unfolding enabled_of current_of host_response
count_checks F [] = (0, 0)
count_checks F ((now, r) ∷ rs) =
    let (enabled, current) = count_checks F rs in
    let dto = host_response {F = F} now r in (enabled_of dto + enabled, current_of dto + current)

unfoldable pub readyz : (F : Type 0) ⦃o : FloatOps F⦄ → List (DateTime × HostRecord) → Answer
unfolding count_checks
readyz F records =
    let (enabled, current) = count_checks F records in
    let ready = enabled == current in
    record {
      code = if ready then 200 else 503;
      body = record {
        status = if ready then "ready" else "waiting";
        enabled_checks = enabled;
        current_checks = current;
      };
    }
