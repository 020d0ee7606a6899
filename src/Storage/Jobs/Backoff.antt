-- ===== src/Storage/Jobs/Backoff.antt =====
-- The pause before a maintenance job that failed is tried again.
use simple_network_monitor.Prelude.{ℕ, zero, suc, ◌*◌, ◌≤◌, arith, ◌≡◌, refl, min}
use simple_network_monitor.Storage.Jobs.{retry_delay}

longest_delay : (failures : ℕ) → 9 ≤ failures → retry_delay failures ≡ 2_560_000
unfolding retry_delay
longest_delay failures h = let m : min failures 9 ≡ 9 = omega arith in rw m refl

doubles_late :
    (failures : ℕ)
    → 9 ≤ failures
    → retry_delay (suc failures) ≡ min (2 * retry_delay failures) 2_560_000
doubles_late failures h =
    let here = longest_delay failures h in
    let next = longest_delay (suc failures) (omega arith) in omega (arith, here, next)

-- The delay starts at five seconds and each further failure doubles it, up to 2560 seconds: the
-- limit of one hour in the source is never reached.
retry_delay-Doubles :
    (failures : ℕ)
    → (retry_delay 0 ≡ 5000)
      × (retry_delay (suc failures) ≡ min (2 * retry_delay failures) 2_560_000)
unfolding retry_delay
retry_delay-Doubles zero = (refl, refl)
retry_delay-Doubles (suc zero) = (refl, refl)
retry_delay-Doubles (suc (suc zero)) = (refl, refl)
retry_delay-Doubles (suc (suc (suc zero))) = (refl, refl)
retry_delay-Doubles (suc (suc (suc (suc zero)))) = (refl, refl)
retry_delay-Doubles (suc (suc (suc (suc (suc zero))))) = (refl, refl)
retry_delay-Doubles (suc (suc (suc (suc (suc (suc zero)))))) = (refl, refl)
retry_delay-Doubles (suc (suc (suc (suc (suc (suc (suc zero))))))) = (refl, refl)
retry_delay-Doubles (suc (suc (suc (suc (suc (suc (suc (suc zero)))))))) = (refl, refl)
retry_delay-Doubles (suc (suc (suc (suc (suc (suc (suc (suc (suc n))))))))) =
    (refl, doubles_late _ (omega arith))
