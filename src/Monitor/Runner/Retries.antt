-- ===== src/Monitor/Runner/Retries.antt =====
-- The rounds of a check against the answers of the storage.
use simple_network_monitor.Prelude.{
  ◌+◌, ◌%◌, ◌^◌, ◌≡◌, refl, Bool, Option, none, some, List, [], ◌∷◌, ◌++◌, map, length, arith,
  Result, ok, err, String, if◌then◌else◌,
}
use simple_network_monitor.Prelude.Float.{FloatOps}
use simple_network_monitor.Domain.Clock.{Duration, add_u64}
use simple_network_monitor.Monitor.Runner.{
  CheckStats, StorageError, stale_generation, other, RoundEnd, stored, stopped, observe_stats,
  retry_stats, persist_loop, run_round,
}

-- The answers of writes that failed for other reasons than a stale generation.
abbrev pub refusals : List String → List (Result StorageError (Unit {0}))
refusals messages = map (λ m. err (other m)) messages

-- How a round ends on the first answer that is no refusal.
abbrev pub end_of : Result StorageError (Unit {0}) → Option RoundEnd
end_of (ok done) = some stored
end_of (err stale_generation) = some stopped
end_of (err (other message)) = none

module _ {F : Type 0} ⦃o : FloatOps F⦄ where
  persist_loop-Ends :
      (stats : CheckStats F) (messages : List String) (last : Result StorageError (Unit {0}))
      (rest : List (Result StorageError (Unit {0}))) (end : RoundEnd)
      → end_of last ≡ some end
      → let (after, e) = persist_loop stats (refusals messages ++ last ∷ rest) in
        (e ≡ some end)
        × (after.storage_retries % 2 ^ 64 ≡ (stats.storage_retries + length messages) % 2 ^ 64)
        × (after.successes ≡ stats.successes)
        × (after.failures ≡ stats.failures)
  unfolding persist_loop retry_stats
  persist_loop-Ends stats [] (ok done) rest end h = (h, omega arith, refl, refl)
  persist_loop-Ends stats [] (err stale_generation) rest end h = (h, omega arith, refl, refl)
  persist_loop-Ends stats [] (err (other message)) rest end h = cc
  persist_loop-Ends stats (m ∷ messages) last rest end h =
      let (ends, retries, good, bad) =
        persist_loop-Ends (retry_stats stats) messages last rest end h in
      (ends, omega (arith, retries), good, bad)

  -- When the writes of an observation are refused any number of times and the next answer is a
  -- success or a stale generation, then the round ends with that answer, every refusal is counted as
  -- one retry (modulo 2 ^ 64), and the observation itself is counted once, as a success or a failure.
  pub run_round-Ends :
      (success : Bool) (duration : Duration) (stats : CheckStats F) (messages : List String)
      (last : Result StorageError (Unit {0})) (rest : List (Result StorageError (Unit {0})))
      (end : RoundEnd)
      → end_of last ≡ some end
      → let (after, e) = run_round success duration stats (refusals messages ++ last ∷ rest) in
        (e ≡ some end)
        × (after.storage_retries % 2 ^ 64 ≡ (stats.storage_retries + length messages) % 2 ^ 64)
        × (after.successes ≡ (if success then add_u64 stats.successes 1 else stats.successes))
        × (after.failures ≡ (if success then stats.failures else add_u64 stats.failures 1))
  unfolding run_round observe_stats
  run_round-Ends success duration stats messages last rest end h =
      persist_loop-Ends (observe_stats success duration stats) messages last rest end h
