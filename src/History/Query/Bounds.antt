-- ===== src/History/Query/Bounds.antt =====
-- The range of an answer covers the request, and its buckets are no more than the points asked for.
use native.Mathlib.Nat.{div-lt_iff_lt-mul, lt-div-mul-add, div-mul-le_self, mul-le-mul_right}
use simple_network_monitor.Prelude.{
  ℕ, suc, ◌+◌, ◌-◌, ◌*◌, ◌/◌, ◌≤◌, ◌<◌, ◌≡◌, refl, inl, inr, min, max, arith, ok, reject, false,
  then-ok, not_rejected, Bool-cases,
}
use simple_network_monitor.Domain.Maintenance.{HistoryConfig}
use simple_network_monitor.History.Tables.{floor}
use simple_network_monitor.History.Rollup.Balance.{IsTier}
use simple_network_monitor.History.Query.{
  HistoryRequest, Plan, bad_range, bad_points, validate_request, finest_source, coarsen, too_fine,
  plan_from, plan,
}

ceil-covers : (n d : ℕ) → 0 < d → n ≤ (n + d - 1) / d * d
ceil-covers n d h = let l = lt-div-mul-add {a = n + d - 1} h in omega (arith, l)

ceil-le : (n d k : ℕ) → 0 < d → n ≤ k * d → (n + d - 1) / d ≤ k
ceil-le n d k h le =
    let l = (div-lt_iff_lt-mul {x = n + d - 1} {y = suc k} h).1 (grind arith) in omega (arith, l)

reorder : (f m s : ℕ) → f * (m * s * 1000) ≡ m * (f * s * 1000)
reorder f m s = grind arith

-- What the plan promises, from the request and the present time.
pub record IsWithin (r : HistoryRequest) (now : ℕ) (p : Plan) : Type 0 where
  pub begins : p.start ≤ r.from_ms
  pub ends : min r.to_ms now ≤ p.stop
  pub present : p.stop ≤ now
  pub points : p.count ≤ r.max_points
  pub covers : p.stop ≤ p.start + p.count * (p.step * 1000)

product-pos : (a b : ℕ) → 0 < a → 0 < b → 0 < a * b
product-pos a b ha hb = grind (arith, mul-le-mul_right b ha)

-- The step of the plan, for a range of `width` milliseconds.
abbrev step_of : ℕ → ℕ → ℕ → ℕ
step_of width points source =
    max ((width + points * source * 1000 - 1) / (points * source * 1000)) 1 * source

step_of-pos : (width points source : ℕ) → 0 < source → 0 < step_of width points source
step_of-pos width points source hs =
    product-pos (max ((width + points * source * 1000 - 1) / (points * source * 1000)) 1) source
      (omega arith) hs

step_of-covers :
    (width points source : ℕ)
    → 0 < points
    → 0 < source
    → width ≤ points * (step_of width points source * 1000)
step_of-covers width points source hp hs =
    let room = points * source * 1000 in
    let rounds = (width + room - 1) / room in
    let covered =
      ceil-covers width room
        (product-pos (points * source) 1000 (product-pos points source hp hs) (omega arith)) in
    let grown = mul-le-mul_right {m = rounds} {n = max rounds 1} room (omega arith) in
    let same = reorder (max rounds 1) points source in omega (arith, covered, grown, same)

-- The range of the plan.
start_of-le : (from source : ℕ) → floor from source ≤ from
unfolding floor
start_of-le from source = div-mul-le_self from (source * 1000)

stop_of-le : (to source : ℕ) → 0 < to → 0 < source → to ≤ floor (to - 1) source + source * 1000
unfolding floor
stop_of-le to source h hs =
    let l = lt-div-mul-add {a = to - 1} (product-pos source 1000 hs (omega arith)) in
    omega (arith, l)

plan_from-IsWithin :
    (r : HistoryRequest) (now source : ℕ)
    → 0 < r.max_points
    → 0 < source
    → r.from_ms < now
    → r.from_ms < r.to_ms
    → IsWithin r now (plan_from r now source)
unfolding plan_from
plan_from-IsWithin r now source hp hs hn ht =
    let to = min r.to_ms now in
    let start = floor r.from_ms source in
    let stop = min (floor (to - 1) source + source * 1000) now in
    let step = step_of (stop - start) r.max_points source in
    let early = start_of-le r.from_ms source in
    let late = stop_of-le to source (omega arith) hs in
    let width =
      product-pos step 1000 (step_of-pos (stop - start) r.max_points source hs) (omega arith) in
    record {
      begins = early;
      ends = omega (arith, late);
      present = omega arith;
      points =
          ceil-le (stop - start) (step * 1000) r.max_points width
            (step_of-covers (stop - start) r.max_points source hp hs);
      covers = omega (arith, ceil-covers (stop - start) (step * 1000) width);
    }

-- What the loop leaves: a tier that is coarse enough, or the daily one.
record Coarse (selected width source : ℕ) : Type 0 where
  tier : IsTier source
  enough : too_fine selected width source ≡ false

daily-Coarse : (selected width : ℕ) → Coarse selected width 86400
daily-Coarse selected width = record { tier = inr (inr refl); enough = ground arith }

hourly-Coarse : (selected width : ℕ) → Coarse selected width (coarsen 1 selected width 3600)
unfolding coarsen
hourly-Coarse selected width = elim (Bool-cases (too_fine selected width 3600)) [
  | inl e ↦ rw e (daily-Coarse selected width)
  | inr e ↦ rw e (record { tier = inr (inl refl); enough = e })
]

coarsen-Coarse :
    (selected width source : ℕ)
    → IsTier source
    → Coarse selected width (coarsen 2 selected width source)
unfolding coarsen
coarsen-Coarse selected width source (inl t) =
    rw t (elim (Bool-cases (too_fine selected width 300)) [
      | inl e ↦ rw e (hourly-Coarse selected width)
      | inr e ↦ rw e (record { tier = inl refl; enough = e })
    ])
coarsen-Coarse selected width source (inr (inl t)) =
    rw t (elim (Bool-cases (too_fine selected width 3600)) [
      | inl e ↦ rw e (daily-Coarse selected width)
      | inr e ↦ rw e (record { tier = inr (inl refl); enough = e })
    ])
coarsen-Coarse selected width source (inr (inr t)) = rw t (daily-Coarse selected width)

finest_source-IsTier :
    (config : HistoryConfig) (now from desired : ℕ) → IsTier (finest_source config now from desired)
unfolding finest_source
finest_source-IsTier config now from desired = ground arith

positive_tier : (source : ℕ) → IsTier source → 0 < source
positive_tier source t = ground arith

plan_from-source : (r : HistoryRequest) (now source : ℕ) → (plan_from r now source).source ≡ source
unfolding plan_from
plan_from-source r now source = refl

valid_numbers :
    (r : HistoryRequest) (now : ℕ)
    → bad_range r now ≡ false
    → bad_points r ≡ false
    → (r.from_ms < now) × (r.from_ms < r.to_ms) × (0 < r.max_points)
valid_numbers r now a b = ground arith

valid_range :
    (r : HistoryRequest) (now : ℕ)
    → validate_request r now ≡ ok tt
    → (r.from_ms < now) × (r.from_ms < r.to_ms) × (0 < r.max_points)
unfolding validate_request
valid_range r now e =
    let (range, e1) = then-ok (reject (bad_range r now) _) _ e in
    let (points, e2) = then-ok (reject (bad_points r) _) _ e1 in
    valid_numbers r now (not_rejected _ _ range) (not_rejected _ _ points)

-- For a request that passes validation, whatever the retention and however many epochs it meets, the
-- range of the answer covers the request up to now and ends by now, the buckets cover the range and
-- are no more than the points asked for, and the source is a tier that is coarse enough, or daily.
pub plan-IsWithin :
    (r : HistoryRequest) (config : HistoryConfig) (now selected : ℕ)
    → validate_request r now ≡ ok tt
    → IsWithin r now (plan r config now selected)
      × IsTier (plan r config now selected).source
      × (too_fine selected (min r.to_ms now - r.from_ms) (plan r config now selected).source
          ≡ false)
unfolding plan
plan-IsWithin r config now selected e =
    let (started, ordered, points) = valid_range r now e in
    let width = min r.to_ms now - r.from_ms in
    let desired = width / (r.max_points * 1000) in
    let first = finest_source config now r.from_ms desired in
    let c =
      coarsen-Coarse selected width first (finest_source-IsTier config now r.from_ms desired) in
    (
      plan_from-IsWithin r now (coarsen 2 selected width first) points (positive_tier _ c.tier)
          started ordered,
      rw (plan_from-source r now (coarsen 2 selected width first)) c.tier,
      rw (plan_from-source r now (coarsen 2 selected width first)) c.enough,
    )
