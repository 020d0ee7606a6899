-- ===== src/Config/Distinct.antt =====
-- The identifiers of the hosts in a validated file are identifiers, and distinct.
use simple_network_monitor.Prelude.{
  ◌≡◌, ◌≢◌, String, false, true, List, [], ◌∷◌, arith, str_eq, eq_iff, any, All, All-map, ok,
  reject, then-ok, not_rejected, map,
}
use simple_network_monitor.Domain.Validation.{is_identifier}
use simple_network_monitor.Config.Validate.{RawHost, collect_ids, validate_id}

abbrev pub Distinct : List String → Type 0
Distinct [] = Unit
Distinct (x ∷ xs) = All (λ y. y ≢ x) xs × Distinct xs

abbrev pub ids_of : List RawHost → List String
ids_of raws = map (λ r. r.id) raws

unseen : (y x : String) (ids : List String) → any (str_eq y) (x ∷ ids) ≡ false → y ≢ x
unseen y x ids h e = let same = eq_iff y x in let t = same.1 e in ground arith

-- The list is made of identifiers that are distinct and not among those met before.
abbrev pub Fresh : List String → List String → Type 0
Fresh ids xs =
    All (λ x. is_identifier x ≡ true) xs × (All (λ x. any (str_eq x) ids ≡ false) xs × Distinct xs)

valid_id : (x : String) → validate_id x ≡ ok tt → is_identifier x ≡ true
unfolding validate_id
valid_id x h = ground arith

pub collect_ids-Fresh :
    (ids : List String) (raws : List RawHost) (all_ids : List String)
    → collect_ids ids raws ≡ ok all_ids
    → Fresh ids (ids_of raws)
unfolding collect_ids
collect_ids-Fresh ids [] all_ids h = (tt, (tt, tt))
collect_ids-Fresh ids (raw ∷ rest) all_ids h =
    let (name, h1) = then-ok (validate_id raw.id) _ h in
    let (new, h2) = then-ok (reject (any (str_eq raw.id) ids) _) _ h1 in
    let (valid, (unmet, distinct)) = collect_ids-Fresh (raw.id ∷ ids) rest all_ids h2 in
    (
      (valid_id raw.id name, valid),
      (
        (
          not_rejected _ _ new,
          All-map (λ x. any (str_eq x) (raw.id ∷ ids) ≡ false) (λ x. any (str_eq x) ids ≡ false)
              (ids_of rest) (λ x m. ground arith) unmet,
        ),
        (
          All-map (λ x. any (str_eq x) (raw.id ∷ ids) ≡ false) (λ x. x ≢ raw.id) (ids_of rest)
              (λ x m. unseen x raw.id ids m) unmet,
          distinct,
        ),
      ),
    )
