-- ===== src/Examples.antt =====
-- Concrete data for the examples: floats as whole numbers of thousandths, a host, a configuration.
pub mod Monitoring
pub mod Statistics
pub mod Recorded
pub mod Scheduling
pub mod Configured
pub mod Stored
pub mod Filtered
pub mod Managed
pub mod Served
use simple_network_monitor.Prelude.{
  ℕ, ◌+◌, ◌-◌, ◌*◌, ◌/◌, ◌^◌, ◌≤◌, min, max, leb, true, false, none, some, [], ◌∷◌, arith, ok, err,
}
use simple_network_monitor.Prelude.Float.{FloatOps}
use simple_network_monitor.Domain.Clock.{from_millis}
use simple_network_monitor.Domain.Host.{Host, default_modules}
use simple_network_monitor.Domain.Settings.{default_usage}
use simple_network_monitor.Domain.History.Stats.{HistoryObservation}
use simple_network_monitor.Monitor.Icmp.{IcmpMonitorConfig, Reply}

instance abbrev pub thousandths : FloatOps ℕ
thousandths = record {
  zero_float = 0;
  add = λ a b. a + b;
  mul = λ a b. a * b / 1000;
  min_float = λ a b. min a b;
  max_float = λ a b. max a b;
  le = λ a b. leb a b;
  is_finite = λ a. true;
  of_nat = λ n. n * 1000;
  to_nat = λ x. min (x / 1000) (2 ^ 64 - 1);
  ceil = λ x. (x + 999) / 1000 * 1000;
  literal = λ n d. n * 1000 / d;
  as_secs_f64 = λ d. d / 1_000_000;
}

abbrev pub router : Host
router = record {
  id = "r1";
  address = "192.0.2.1";
  name = "Router 1";
  groups = "core" ∷ [];
  metadata = [];
  modules = default_modules;
}

-- A host whose users are counted.
abbrev pub lab : Host
lab = record router {
  id = "lab1";
  modules = record default_modules { usage = record default_usage { enabled = true } };
}

abbrev pub thresholds : IcmpMonitorConfig
thresholds = record { concurrency = 64; failure_threshold = 3; success_threshold = 2 }

abbrev pub reached : Reply
reached = ok (record { address = none; latency = from_millis 12 })

abbrev pub lost : Reply
lost = err (record { message = "timeout" })

abbrev pub fast : HistoryObservation ℕ
fast = record {
  state = "up";
  success = true;
  latency_ms = some 3_000;
  console_users = none;
  remote_users = none;
  error = none;
}

abbrev pub slow : HistoryObservation ℕ
slow = record fast { latency_ms = some 900_000 }
