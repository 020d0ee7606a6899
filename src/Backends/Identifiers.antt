-- ===== src/Backends/Identifiers.antt =====
-- backends/ping/mod.rs: the ICMP identifiers in flight. The mutex is taken for the whole call, so a
-- call is one step on the set; a poisoned lock is the argument `none`.
pub mod Reservation
use simple_network_monitor.Prelude.{
  ℕ, zero, suc, ◌+◌, ◌%◌, ◌^◌, String, Bool, true, false, ◌||◌, Option, none, some, List, [], ◌∷◌,
  ◌==◌, retain, not, Result, ok, err, if◌then◌else◌,
}
use simple_network_monitor.Domain.Icmp.{CheckFailure}

-- `u16::wrapping_add`.
abbrev pub wrapping_add_u16 : ℕ → ℕ → ℕ
wrapping_add_u16 a b = (a + b) % 2 ^ 16

unfoldable pub contains : List ℕ → ℕ → Bool
contains [] a = false
contains (x ∷ xs) a = x == a || contains xs a

abbrev pub failure : String → CheckFailure
failure message = record { message = message }

-- The `for _ in 0..SPACE` loop, on the rounds left.
unfoldable pub find_identifier : ℕ → List ℕ → ℕ → Result CheckFailure (ℕ × List ℕ)
unfolding contains
find_identifier zero set probe = err (failure "all 65536 icmp identifiers are in flight")
find_identifier (suc rounds) set probe =
    let next = find_identifier rounds set (wrapping_add_u16 probe 1) in
    if contains set probe then next else ok (probe, probe ∷ set)

unfoldable pub next_unique_identifier : Option (List ℕ) → ℕ → Result CheckFailure (ℕ × List ℕ)
next_unique_identifier none seed = err (failure "ICMP identifier lock poisoned")
next_unique_identifier (some set) seed = find_identifier (2 ^ 16) set seed

-- The counter's `fetch_add` wraps, and the seed is its old value offset by the salt.
unfoldable pub next_seed : ℕ → ℕ → ℕ × ℕ
next_seed counter salt = (wrapping_add_u16 counter 1, wrapping_add_u16 counter salt)

-- `Release::drop`.
unfoldable pub release : List ℕ → ℕ → List ℕ
release set identifier = retain (λ x. not (x == identifier)) set
