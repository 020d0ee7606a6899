-- ===== src/Examples/Stored.antt =====
-- The theorems about the storage on concrete tables.
use simple_network_monitor.Prelude.{
  ℕ, ◌-◌, ◌*◌, ◌^◌, ◌<◌, ◌≡◌, refl, arith, String, Bool, true, false, none, some, [], ◌∷◌, leb, All,
  str_eq, any, Result, ok, err, is_err, if◌then◌else◌,
}
use simple_network_monitor.Domain.Icmp.{IcmpTransition, up, down}
use simple_network_monitor.Domain.Usage.{UsageSnapshot, collected}
use simple_network_monitor.Domain.Host.{HostRuntimeState, default_state}
use simple_network_monitor.History.Epochs.{Signature}
use simple_network_monitor.Storage.Tables.{Database, Storage, Chrono, lookup}
use simple_network_monitor.Storage.Startup.{initial, new_initialized}
use simple_network_monitor.Storage.Identities.{ids_of, sync_identities_in_transaction}
use simple_network_monitor.Storage.Identities.Isolation.{
  current, kept_for, nothing, sync_identities-Isolates,
}
use simple_network_monitor.Storage.Reconfigure.{replace_configuration, monitor_generation, host_map}
use simple_network_monitor.Storage.Updates.{update_check_result}
use simple_network_monitor.Storage.Updates.Retried.{update_check_result-Again}
use simple_network_monitor.Domain.Clock.{Duration, from_millis}
use simple_network_monitor.Domain.Host.{Host}
use simple_network_monitor.Prelude.{Option}
use simple_network_monitor.Storage.Writes.{check_result, usage, perform}
use simple_network_monitor.Storage.Writes.Fencing.{
  Evolves, started, wrote, replaced, perform-IsFenced,
}
use simple_network_monitor.Storage.Writes.Coherence.{cache-IsCurrent}
use simple_network_monitor.Examples.{thousandths, router, lab}

abbrev pub blank : Database ℕ
blank = record {
  latest_status = [];
  transitions = record { rows = []; last_id = 0 };
  latest_usage = [];
  usage_samples = record { rows = []; last_id = 0 };
  usage_history = record { rows = []; last_id = 0 };
  usage_coverage = [];
  host_identity = [];
  retention_floor = none;
  latest_tcp = [];
  history = record { epochs = []; raw = []; buckets = []; spans = []; events = [] };
  jobs = [];
}

abbrev pub calendar : Chrono
calendar = record {
  from_std = λ d. some d;
  checked_sub_signed = λ now d. if leb d now then some (now - d) else none;
}

abbrev pub to_json : Signature → String
to_json s = s.address

abbrev pub is_literal : String → Bool
is_literal s = true

abbrev pub or_else : {E A : Type 0} → Result E A → A → A
or_else r a = elim r [ ok b ↦ b | err e ↦ a ]

abbrev pub opened : Storage ℕ
opened =
    or_else (new_initialized is_literal to_json (lab ∷ router ∷ []) 1_000 blank) (initial [] blank)

opened-ok : new_initialized is_literal to_json (lab ∷ router ∷ []) 1_000 blank ≡ ok opened
unfolding new_initialized
opened-ok = refl

-- The configuration loses a host.
abbrev replaced_storage : Storage ℕ
replaced_storage =
    or_else (replace_configuration is_literal to_json (router ∷ []) none 2_000 opened) opened

replaced-ok :
    replace_configuration is_literal to_json (router ∷ []) none 2_000 opened ≡ ok replaced_storage
unfolding replace_configuration new_initialized
replaced-ok = refl

abbrev once_replaced : Evolves opened 1 replaced_storage
once_replaced = replaced is_literal to_json (router ∷ []) none 2_000 started replaced-ok

abbrev lost_state : HostRuntimeState
lost_state = record default_state {
  status = down;
  last_checked_at = some 3_000_000_000;
  consecutive_failures = 3;
  last_error = some "timeout";
}

abbrev went_down : IcmpTransition ℕ
went_down = record {
  id = none;
  host_id = "r1";
  previous_status = up;
  new_status = down;
  changed_at = 3_000_000_000;
  latency_ms = none;
  error = some "timeout";
  backend = "mock";
  reason = "failure_threshold";
}

opened-small : opened.inner.generation < 2 ^ 64
unfolding new_initialized
opened-small = omega arith

perform-IsFenced_example :
    is_err (
      perform calendar
        (monitor_generation opened)
        (check_result "r1" lost_state (some went_down))
        4_000_000_000
        replaced_storage)
    ≡ true
perform-IsFenced_example =
    perform-IsFenced calendar (check_result "r1" lost_state (some went_down)) 4_000_000_000 opened
      replaced_storage 1 opened-small (omega arith) (omega arith) once_replaced

abbrev two_users : UsageSnapshot
two_users = record {
  collected_at = 3_000_000_000;
  console_users = some 1;
  remote_users = some 1;
  status = collected;
  error = none;
}

abbrev used_storage : Storage ℕ
used_storage = or_else (perform calendar none (usage "lab1" two_users) 4_000_000_000 opened) opened

used-ok : perform calendar none (usage "lab1" two_users) 4_000_000_000 opened ≡ ok used_storage
unfolding perform new_initialized host_map
used-ok = refl

cache-IsCurrent_example :
    lookup "lab1" used_storage.inner.usage ≡ lookup "lab1" used_storage.inner.conn.latest_usage
cache-IsCurrent_example =
    cache-IsCurrent is_literal to_json (lab ∷ router ∷ []) 1_000 blank opened used_storage 0 "lab1"
      opened-ok (wrote calendar none (usage "lab1" two_users) 4_000_000_000 started used-ok)

abbrev synced_tables : Database ℕ
synced_tables =
    or_else
      (sync_identities_in_transaction is_literal to_json (router ∷ []) 2_000
        used_storage.inner.conn)
      blank

synced-ok :
    sync_identities_in_transaction is_literal to_json (router ∷ []) 2_000 used_storage.inner.conn
    ≡ ok synced_tables
unfolding sync_identities_in_transaction perform new_initialized
synced-ok = refl

sync_identities-Isolates_example :
    All
      (λ h. current h.id synced_tables ≡ kept_for h (current h.id used_storage.inner.conn))
      (router ∷ [])
    × ((id : String)
        → any (str_eq id) (ids_of (router ∷ [])) ≡ false
        → current id synced_tables ≡ nothing)
sync_identities-Isolates_example =
    sync_identities-Isolates is_literal to_json (router ∷ []) 2_000 used_storage.inner.conn
      synced_tables synced-ok

abbrev checked_storage : Storage ℕ
checked_storage =
    or_else
      (perform calendar (some 0) (check_result "r1" lost_state (some went_down)) 4_000_000_000
        opened)
      opened

checked-ok :
    update_check_result (some 0) "r1" lost_state (some went_down) 4_000_000_000 opened
    ≡ ok (tt, checked_storage)
unfolding perform new_initialized host_map
checked-ok = refl

update_check_result-Again_example :
    update_check_result (some 0) "r1" lost_state (some went_down) 4_000_000_000 checked_storage
    ≡ ok (tt, checked_storage)
update_check_result-Again_example =
    update_check_result-Again (some 0) "r1" lost_state (some went_down) 4_000_000_000 opened
      checked_storage checked-ok

-- From thousandths of a millisecond to nanoseconds.
abbrev from_thousandths : ℕ → Option Duration
from_thousandths ms = some (ms * 1_000)

abbrev reached_state : HostRuntimeState
reached_state = record default_state {
  status = up;
  last_checked_at = some 3_000_000_000;
  latency = some (from_millis 12);
  consecutive_successes = 2;
}

abbrev reached_storage : Storage ℕ
reached_storage =
    or_else (perform calendar (some 0) (check_result "r1" reached_state none) 4_000_000_000 opened)
      opened
