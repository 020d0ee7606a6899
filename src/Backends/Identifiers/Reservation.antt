-- ===== src/Backends/Identifiers/Reservation.antt =====
-- A reserved identifier is fresh, and reservation fails only when there is none.
use simple_network_monitor.Prelude.{
  ℕ, zero, suc, ◌+◌, ◌-◌, ◌%◌, ◌^◌, ◌<◌, ◌≡◌, refl, ◌⊎◌, inl, inr, true, false, some, List, [], ◌∷◌,
  arith, Bool-cases, Result, ok, err, ◌==◌, if◌then◌else◌,
}
use simple_network_monitor.Domain.Icmp.{CheckFailure}
use simple_network_monitor.Backends.Identifiers.{
  contains, failure, find_identifier, next_unique_identifier, release, wrapping_add_u16,
}

-- What `rounds` probes from `probe` find: an identifier that was free, and is now reserved with the
-- others, or that each probed identifier is taken.
abbrev pub Finds : ℕ → List ℕ → ℕ → Type 0
Finds rounds set probe =
    ((id : ℕ) × (find_identifier rounds set probe ≡ ok (id, id ∷ set))
      × (contains set id ≡ false)
      × (id < 2 ^ 16))
    ⊎ ((find_identifier rounds set probe ≡ err (failure "all 65536 icmp identifiers are in flight"))
        × ((i : ℕ) → i < rounds → contains set ((probe + i) % 2 ^ 16) ≡ true))

shift : (probe i : ℕ) → (((probe + 1) % 2 ^ 16) + i) % 2 ^ 16 ≡ (probe + suc i) % 2 ^ 16
shift probe i = omega arith

module _ (rounds : ℕ) (set : List ℕ) (probe : ℕ) (fits : probe < 2 ^ 16) where
  probed :
      contains set probe ≡ true
      → ((i : ℕ) → i < rounds → contains set ((wrapping_add_u16 probe 1 + i) % 2 ^ 16) ≡ true)
      → (i : ℕ) → i < suc rounds
      → contains set ((probe + i) % 2 ^ 16) ≡ true
  probed taken rest zero h = let e : (probe + 0) % 2 ^ 16 ≡ probe = omega arith in rw e taken
  probed taken rest (suc i) h = rw (← shift probe i) (rest i (omega arith))

  find_identifier_step : Finds rounds set (wrapping_add_u16 probe 1) → Finds (suc rounds) set probe
  unfolding find_identifier
  find_identifier_step f = elim (Bool-cases (contains set probe)) [
    | inl taken ↦ elim f [
      | inl (id, e, free, small) ↦ inl (id, rw taken e, free, small)
      | inr (e, rest) ↦ inr (rw taken e, probed taken rest)
    ]
    | inr free ↦ inl (probe, rw free, free, fits)
  ]

find_identifier-Finds :
    (rounds : ℕ) (set : List ℕ) (probe : ℕ) → probe < 2 ^ 16 → Finds rounds set probe
unfolding find_identifier
find_identifier-Finds zero set probe h = inr (refl, λ i l. absurd (omega arith))
find_identifier-Finds (suc rounds) set probe h =
    find_identifier_step rounds set probe h
      (find_identifier-Finds rounds set (wrapping_add_u16 probe 1) (omega arith))

-- What reservation promises: an identifier of 16 bits that was not in flight, and is now in flight
-- with all that were; or the refusal, and then all 65536 identifiers are in flight.
pub data Reserves (set : List ℕ) (r : Result CheckFailure (ℕ × List ℕ)) : Type 0 where
  reserved :
      (id : ℕ) → r ≡ ok (id, id ∷ set) → contains set id ≡ false → id < 2 ^ 16 → Reserves set r
  exhausted :
      r ≡ err (failure "all 65536 icmp identifiers are in flight")
      → ((id : ℕ) → id < 2 ^ 16 → contains set id ≡ true)
      → Reserves set r

-- Every 16-bit value is probed, from whichever seed the probing starts.
all_probed :
    (set : List ℕ) (seed : ℕ)
    → seed < 2 ^ 16
    → ((i : ℕ) → i < 2 ^ 16 → contains set ((seed + i) % 2 ^ 16) ≡ true)
    → (id : ℕ) → id < 2 ^ 16
    → contains set id ≡ true
all_probed set seed h all id l =
    let e : (seed + (id + 2 ^ 16 - seed) % 2 ^ 16) % 2 ^ 16 ≡ id = omega arith in
    rw e at (all ((id + 2 ^ 16 - seed) % 2 ^ 16) (omega arith))

-- With the lock held and from any 16-bit seed, the search returns an identifier that was not in
-- flight and marks it, keeping all others; it fails exactly when every 16-bit value is in flight.
pub next_unique_identifier-Reserves :
    (set : List ℕ) (seed : ℕ)
    → seed < 2 ^ 16
    → Reserves set (next_unique_identifier (some set) seed)
unfolding next_unique_identifier
next_unique_identifier-Reserves set seed h = elim (find_identifier-Finds (2 ^ 16) set seed h) [
  | inl (id, e, free, small) ↦ reserved id e free small
  | inr (e, all) ↦ exhausted e (all_probed set seed h all)
]

-- Releasing an identifier takes that one out and leaves the others in flight.
contains-release :
    (set : List ℕ) (id other : ℕ)
    → contains (release set id) other ≡ (if id == other then false else contains set other)
unfolding release contains
contains-release [] id other = ground arith
contains-release (x ∷ xs) id other = ground (arith, contains-release xs id other)
