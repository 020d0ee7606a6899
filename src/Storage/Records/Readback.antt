-- ===== src/Storage/Records/Readback.antt =====
-- The record of a host after a result of a check has been stored.
use simple_network_monitor.Prelude.{◌≡◌, Option, none, some}
use simple_network_monitor.Prelude.Float.{FloatOps}
use simple_network_monitor.Domain.Clock.{Duration}
use simple_network_monitor.Domain.Host.{Host, duration_ms}
use simple_network_monitor.Storage.Tables.{Storage}

module _ {F : Type 0} ⦃o : FloatOps F⦄ (from_ms : F → Option Duration) where
  -- The conversion of a latency to milliseconds and back loses nothing.
  abbrev pub IsExact : Option Duration → Type 0
  IsExact none = Unit
  IsExact (some d) = from_ms (duration_ms d) ≡ some d
