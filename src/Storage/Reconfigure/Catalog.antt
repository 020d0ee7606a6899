-- ===== src/Storage/Reconfigure/Catalog.antt =====
-- Looking up a host in the catalog that is built of a list.
use text.Mathlib.Text.{is_le}
use Prim.Native.String.{compare}
use simple_network_monitor.Prelude.{
  ◌≡◌, ◌∙◌, refl, inl, inr, String, true, false, Option, none, some, List, [], ◌∷◌, arith, str_eq,
  eq_iff, any, All, Bool-cases, if◌then◌else◌,
}
use simple_network_monitor.Domain.Host.{Host}
use simple_network_monitor.Storage.Tables.{Keyed, lookup}
use simple_network_monitor.Storage.Tables.Lookups.{str_eq-sym, str_eq→≡}
use simple_network_monitor.Storage.Identities.{ids_of}
use simple_network_monitor.Storage.Reconfigure.{insert_host, host_map, to_set, values}

lookup-insert_host :
    (id : String) (h : Host) (m : Keyed Host)
    → lookup id (insert_host h m) ≡ (if str_eq h.id id then some h else lookup id m)
unfolding insert_host
lookup-insert_host id h [] = refl
lookup-insert_host id h ((key, old) ∷ rest) =
    let there = eq_iff key h.id in
    let back = eq_iff key id in
    let onward = eq_iff h.id id in
    elim (Bool-cases (str_eq key h.id)) [
      | inl e ↦ elim (Bool-cases (str_eq key id)) [ inl f ↦ ground arith | inr f ↦ ground arith ]
      | inr e ↦ elim (Bool-cases (is_le (compare h.id key))) [
        | inl g ↦ rw (e, g) refl
        | inr g ↦ elim (Bool-cases (str_eq key id)) [
          | inl f ↦ rw (e, g) (ground arith)
          | inr f ↦ rw (e, g, f) (lookup-insert_host id h rest)
        ]
      ]
    ]

-- The first host of the list with an id.
unfoldable pub find_host : String → List Host → Option Host
find_host id [] = none
find_host id (h ∷ hs) = if str_eq h.id id then some h else find_host id hs

pub lookup-host_map :
    (id : String) (hosts : List Host) → lookup id (host_map hosts) ≡ find_host id hosts
unfolding host_map find_host
lookup-host_map id [] = refl
lookup-host_map id (h ∷ hs) =
    lookup-insert_host id h (host_map hs) ∙ rw (lookup-host_map id hs) refl

-- A host that is found has the id, and what holds of all hosts holds of it.
pub find_host-Found :
    (P : Host → Type 0) (id : String) (hosts : List Host) (h : Host)
    → All P hosts
    → find_host id hosts ≡ some h
    → (h.id ≡ id) × P h
unfolding find_host
find_host-Found P id [] h all e = cc
find_host-Found P id (g ∷ hosts) h all e = elim (Bool-cases (str_eq g.id id)) [
  | inl f ↦ let taken : g ≡ h = ground arith in rw (← taken) (str_eq→≡ g.id id f, all.0)
  | inr f ↦ find_host-Found P id hosts h all.1 (ground arith)
]

pub find_host-Missing :
    (id : String) (hosts : List Host)
    → find_host id hosts ≡ none
    → any (str_eq id) (ids_of hosts) ≡ false
unfolding find_host
find_host-Missing id [] e = refl
find_host-Missing id (h ∷ hosts) e = elim (Bool-cases (str_eq h.id id)) [
  | inl f ↦ absurd (ground arith)
  | inr f ↦
      let apart = str_eq-sym h.id id f in let rest = find_host-Missing id hosts in ground arith
]

-- The entries are kept under the ids of their hosts.
abbrev pub IsKeyed : Keyed Host → Type 0
IsKeyed m = All (λ e. e.0 ≡ e.1.id) m

insert_host-IsKeyed : (h : Host) (m : Keyed Host) → IsKeyed m → IsKeyed (insert_host h m)
unfolding insert_host
insert_host-IsKeyed h [] k = (refl, tt)
insert_host-IsKeyed h ((key, old) ∷ rest) k = elim (Bool-cases (str_eq key h.id)) [
  | inl e ↦ rw e (str_eq→≡ key h.id e, k.1)
  | inr e ↦ elim (Bool-cases (is_le (compare h.id key))) [
    | inl g ↦ rw (e, g) (refl, (k.0, k.1))
    | inr g ↦ rw (e, g) (k.0, insert_host-IsKeyed h rest k.1)
  ]
]

pub host_map-IsKeyed : (hosts : List Host) → IsKeyed (host_map hosts)
unfolding host_map
host_map-IsKeyed [] = tt
host_map-IsKeyed (h ∷ hs) = insert_host-IsKeyed h (host_map hs) (host_map-IsKeyed hs)

pub find_host-values :
    (id : String) (m : Keyed Host) → IsKeyed m → find_host id (values m) ≡ lookup id m
unfolding find_host
find_host-values id [] k = refl
find_host-values id ((key, h) ∷ rest) k = rw (k.0, find_host-values id rest k.1) refl

pub find_host-Named :
    (id : String) (hosts : List Host) (h : Host)
    → find_host id hosts ≡ some h
    → any (str_eq id) (ids_of hosts) ≡ true
unfolding find_host
find_host-Named id [] h e = cc
find_host-Named id (g ∷ hosts) h e =
    let there = eq_iff g.id id in
    let back = eq_iff id g.id in ground (arith, find_host-Named id hosts h)

pub any-to_set :
    (id : String) (ids : List String) → any (str_eq id) (to_set ids) ≡ any (str_eq id) ids
unfolding to_set
any-to_set id [] = refl
any-to_set id (x ∷ xs) = elim (Bool-cases (any (str_eq x) (to_set xs))) [
  | inl e ↦ elim (Bool-cases (str_eq id x)) [
    | inl f ↦ let same = str_eq→≡ id x f in rw (e, f, same) e
    | inr f ↦ rw (e, f) (any-to_set id xs)
  ]
  | inr e ↦ rw (e, any-to_set id xs) refl
]
