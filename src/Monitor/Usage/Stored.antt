-- ===== src/Monitor/Usage/Stored.antt =====
-- What the storage does with what the usage monitor collects.
use simple_network_monitor.Prelude.{
  ℕ, ◌≡◌, refl, ap, String, Bool, false, Option, none, some, Result, ok, err, is_err, not,
}
use simple_network_monitor.Prelude.Float.{FloatOps}
use simple_network_monitor.Domain.Clock.{DateTime}
use simple_network_monitor.Domain.Usage.{
  UsageSnapshot, validate_snapshot, status_eq, collected, success_snapshot, error_snapshot,
}
use simple_network_monitor.Domain.Host.{Host}
use simple_network_monitor.Storage.Errors.{not_found}
use simple_network_monitor.Storage.Tables.{Storage, Inner, Numbered, Chrono, lookup, upsert}
use simple_network_monitor.Storage.Reconfigure.{ensure_host_exists, with_inner, is_stale}
use simple_network_monitor.Storage.Updates.{prune_samples, insert_usage_row, should_insert_history}
use simple_network_monitor.Domain.Inactivity.{UsageRow}
use simple_network_monitor.Storage.Tables.Lookups.{lookup-upserted}
use simple_network_monitor.Storage.Writes.{update_usage, store_usage, write_usage}
use simple_network_monitor.Monitor.Usage.{
  Collector, snapshot_of, collect_once, observe, persist, request_of, UsageFailure, UsageCounts,
}

snapshot_of-Valid :
    (at : DateTime) (r : Result UsageFailure UsageCounts)
    → validate_snapshot (snapshot_of at r) ≡ ok tt
unfolding validate_snapshot success_snapshot error_snapshot
snapshot_of-Valid at (ok counts) = refl
snapshot_of-Valid at (err failure) = refl

module _ {F : Type 0} ⦃o : FloatOps F⦄ where
  stored_usage :
      (chrono : Chrono) (g : Host) (id : String) (snapshot : UsageSnapshot) (now : DateTime)
      (inner : Inner F)
      → ((table : Numbered UsageRow)
          → (samples : Numbered UsageRow) × (prune_samples chrono id now
                inner.usage_sample_retention table
              ≡ ok samples))
      → (fresh : Bool) × (inner' : Inner F) × (store_usage chrono g id snapshot now inner
          ≡ ok (fresh, inner'))
        × (lookup id inner'.conn.latest_usage ≡ some snapshot)
  unfolding store_usage write_usage
  stored_usage chrono g id snapshot now inner prunes =
      let (samples, e) = prunes (insert_usage_row id snapshot inner.conn.usage_samples) in
      (
        should_insert_history snapshot (lookup id inner.usage),
        record inner {
          conn =
              record (write_usage g id snapshot
                (should_insert_history snapshot (lookup id inner.usage)) now inner.conn) {
                  usage_samples = samples;
                };
          usage = upsert id snapshot inner.usage;
        },
        rw e refl,
        lookup-upserted id snapshot inner.conn.latest_usage,
      )

  known_exists :
      (id : String) (g : Host) (s : Storage F)
      → lookup id s.hosts ≡ some g
      → ensure_host_exists id s ≡ ok tt
  unfolding ensure_host_exists
  known_exists id g s known =
      ap (λ found. elim found [ none ↦ err (not_found id) | some h ↦ ok tt ]) known

  -- What the usage monitor collects, whether the collector succeeds or fails, is stored as the
  -- latest usage of the host, where the storage knows the host, the handle is current, and the
  -- samples can be pruned; and the collection counts as a success exactly when the collector
  -- answered.
  pub observe-Stored :
      (collect : Collector) (at : DateTime) (chrono : Chrono) (handle : Option ℕ) (h g : Host)
      (now : DateTime) (s : Storage F)
      → lookup h.id s.hosts ≡ some g
      → is_stale handle s.inner ≡ false
      → ((table : Numbered UsageRow)
          → (samples : Numbered UsageRow) × (prune_samples chrono h.id now
                s.inner.usage_sample_retention table
              ≡ ok samples))
      → ((fresh : Bool) × (s' : Storage F) × (persist chrono handle h (observe collect at h).0 now s
            ≡ ok (fresh, s'))
          × (lookup h.id s'.inner.conn.latest_usage ≡ some (observe collect at h).0))
        × ((observe collect at h).1 ≡ not (is_err (collect (request_of h))))
  unfolding observe persist update_usage with_inner collect_once
  observe-Stored collect at chrono handle h g now s known fresh prunes =
      let valid = snapshot_of-Valid at (collect (request_of h)) in
      let (new, inner', stored, latest) =
        stored_usage chrono g h.id (collect_once collect at h) now s.inner prunes in
      (
        (
          new,
          record s { inner = inner' },
          rw (known_exists h.id g s known, valid, known, fresh, stored) refl,
          latest,
        ),
        counted (collect (request_of h)),
      )
    where
      counted :
          (r : Result UsageFailure UsageCounts)
          → status_eq (snapshot_of at r).status collected ≡ not (is_err r)
      counted (ok counts) = refl
      counted (err failure) = refl
