-- ===== src/Monitor/Runner.antt =====
-- modules/runner.rs and app/telemetry.rs: one round of a check: the observation, its counters, and
-- the writes that are tried again until one succeeds or the generation of the monitor is stale.
pub mod Retries
use simple_network_monitor.Prelude.{
  ℕ, zero, suc, ◌+◌, String, Bool, true, false, Option, none, some, List, [], ◌∷◌, str_eq, Result,
  ok, err, replicate, if◌then◌else◌,
}
use simple_network_monitor.Prelude.Float.{FloatOps}
use simple_network_monitor.Domain.Clock.{Duration, add_u64}

pub record CheckStats (F : Type 0) : Type 0 where
  pub successes : ℕ
  pub failures : ℕ
  pub storage_retries : ℕ
  pub duration_sum : F
  pub buckets : List ℕ  -- of 7 entries

-- What a write may fail with, as far as the runner tells failures apart.
pub data StorageError : Type 0 where
  stale_generation : StorageError
  other : String → StorageError

pub data RoundEnd : Type 0 where
  stored : RoundEnd  -- and the loop waits for the next tick
  stopped : RoundEnd  -- the job returns

-- The loop over the boundaries.
abbrev pub count_buckets : {F : Type 0} ⦃o : FloatOps F⦄ → F → List F → List ℕ → List ℕ
count_buckets seconds [] counts = counts
count_buckets seconds (limit ∷ limits) [] = []
count_buckets ⦃o⦄ seconds (limit ∷ limits) (n ∷ ns) =
    (if o.le seconds limit then add_u64 n 1 else n) ∷ count_buckets seconds limits ns

module _ {F : Type 0} ⦃o : FloatOps F⦄ where
  abbrev pub duration_buckets : List F
  duration_buckets =
      o.literal 1 100
      ∷ o.literal 5 100
      ∷ o.literal 1 10
      ∷ o.literal 5 10
      ∷ o.literal 1 1
      ∷ o.literal 5 1
      ∷ o.literal 10 1
      ∷ []

  abbrev pub no_checks : CheckStats F
  no_checks = record {
    successes = 0;
    failures = 0;
    storage_retries = 0;
    duration_sum = o.zero_float;
    buckets = replicate 7 0;
  }

  unfoldable pub observe_stats : Bool → Duration → CheckStats F → CheckStats F
  observe_stats success duration stats =
      let seconds = o.as_secs_f64 duration in
      record stats {
        successes = if success then add_u64 stats.successes 1 else stats.successes;
        failures = if success then stats.failures else add_u64 stats.failures 1;
        duration_sum = o.add stats.duration_sum seconds;
        buckets = count_buckets seconds duration_buckets stats.buckets;
      }

  unfoldable pub retry_stats : CheckStats F → CheckStats F
  retry_stats stats = record stats { storage_retries = add_u64 stats.storage_retries 1 }

  -- `checks.entry(kind).or_default()`, and the update of what it holds.
  unfoldable pub update_entry :
      String
      → (CheckStats F → CheckStats F)
      → List (String × CheckStats F)
      → List (String × CheckStats F)
  update_entry kind f [] = (kind, f no_checks) ∷ []
  update_entry kind f ((key, stats) ∷ rest) =
      if str_eq key kind then (key, f stats) ∷ rest else (key, stats) ∷ update_entry kind f rest

  -- The inner loop, on the answers that the writes of the observation get, in their order. `none`:
  -- the answers so far do not end the loop, and the observation is still being written.
  unfoldable pub persist_loop :
      CheckStats F → List (Result StorageError (Unit {0})) → CheckStats F × Option RoundEnd
  unfolding retry_stats
  persist_loop stats [] = (stats, none)
  persist_loop stats (ok done ∷ answers) = (stats, some stored)
  persist_loop stats (err stale_generation ∷ answers) = (stats, some stopped)
  persist_loop stats (err (other message) ∷ answers) = persist_loop (retry_stats stats) answers

  -- A round: the observation is made and counted once, whatever its writes need.
  unfoldable pub run_round :
      Bool
      → Duration
      → CheckStats F
      → List (Result StorageError (Unit {0}))
      → CheckStats F × Option RoundEnd
  unfolding observe_stats persist_loop
  run_round success duration stats answers =
      persist_loop (observe_stats success duration stats) answers
