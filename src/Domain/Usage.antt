-- ===== src/Domain/Usage.antt =====
-- domain/usage.rs: a usage snapshot, its consistency test and its constructors.
use simple_network_monitor.Prelude.{
  ℕ, String, Bool, true, false, not, ◌&&◌, ◌||◌, Option, none, some, str_eq, ◌==◌, is_some, is_none,
  Result, ok, err, if◌then◌else◌,
}
use simple_network_monitor.Domain.Clock.{DateTime}

pub data UsageOs : Type 0 where
  auto linux macos : UsageOs

pub data UsageCollectionStatus : Type 0 where
  collected failed : UsageCollectionStatus

-- `==` on the status.
abbrev pub status_eq : UsageCollectionStatus → UsageCollectionStatus → Bool
status_eq collected collected = true
status_eq failed failed = true
status_eq _ _ = false

unfoldable pub usage_status_as_str : UsageCollectionStatus → String
usage_status_as_str collected = "ok"
usage_status_as_str failed = "error"

unfoldable pub usage_status_try_from : String → Result String UsageCollectionStatus
usage_status_try_from value =
    if str_eq value "ok"
    then ok collected
    else if str_eq value "error"
    then ok failed
    else err value

pub record UsageSnapshot : Type 0 where
  pub collected_at : DateTime
  pub console_users : Option ℕ
  pub remote_users : Option ℕ
  pub status : UsageCollectionStatus
  pub error : Option String

unfoldable pub validate_snapshot : UsageSnapshot → Result String (Unit {0})
validate_snapshot s = elim s.status [
  | collected ↦
      if is_some s.console_users && is_some s.remote_users && is_none s.error
      then ok tt
      else err "usage status and counts are inconsistent"
  | failed ↦
      if is_none s.console_users && is_none s.remote_users && is_some s.error
      then ok tt
      else err "usage status and counts are inconsistent"
]

unfoldable pub success_snapshot : DateTime → ℕ → ℕ → UsageSnapshot
success_snapshot collected_at console_users remote_users = record {
  collected_at = collected_at;
  console_users = some console_users;
  remote_users = some remote_users;
  status = collected;
  error = none;
}

unfoldable pub error_snapshot : DateTime → String → UsageSnapshot
error_snapshot collected_at error = record {
  collected_at = collected_at;
  console_users = none;
  remote_users = none;
  status = failed;
  error = some error;
}

-- `!=` on optional counts and on optional texts.
abbrev pub count_ne : Option ℕ → Option ℕ → Bool
count_ne none none = false
count_ne (some a) (some b) = not (a == b)
count_ne _ _ = true

abbrev pub text_ne : Option String → Option String → Bool
text_ne none none = false
text_ne (some a) (some b) = not (str_eq a b)
text_ne _ _ = true

unfoldable pub differs_for_history : UsageSnapshot → UsageSnapshot → Bool
differs_for_history s previous =
    not (status_eq s.status previous.status)
    || count_ne s.console_users previous.console_users
    || count_ne s.remote_users previous.remote_users
    || text_ne s.error previous.error
