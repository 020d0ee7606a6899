-- ===== src/Storage/Tables/Lookups.antt =====
-- Looking up a key after a write.
use simple_network_monitor.Prelude.{
  ◌≡◌, ◌∙◌, refl, String, Bool, true, false, not, none, some, [], ◌∷◌, arith, str_eq, eq_iff,
  retain, if◌then◌else◌, Bool-cases, inl, inr,
}
use simple_network_monitor.Storage.Tables.{Keyed, lookup, delete_key, upsert}

pub str_eq_refl : (s : String) → str_eq s s ≡ true
str_eq_refl s = let same = eq_iff s s in ground arith

-- A text is found by either side of an equality that holds.
pub str_eq→≡ : (s t : String) → str_eq s t ≡ true → s ≡ t
str_eq→≡ s t h = let same = eq_iff s t in same.0 h

pub str_eq-sym : (s t : String) → str_eq s t ≡ false → str_eq t s ≡ false
str_eq-sym s t h = let there = eq_iff s t in let back = eq_iff t s in ground arith

module _ {V : Type 0} where
  pub lookup-upsert :
      (id key : String) (v : V) (table : Keyed V)
      → lookup id (upsert key v table) ≡ (if str_eq key id then some v else lookup id table)
  lookup-upsert id key v [] = refl
  lookup-upsert id key v ((k, old) ∷ rest) =
      let there = eq_iff k key in
      let back = eq_iff k id in
      let onward = eq_iff key id in
      elim (Bool-cases (str_eq k key)) [
        | inl e ↦ elim (Bool-cases (str_eq k id)) [ inl f ↦ ground arith | inr f ↦ ground arith ]
        | inr e ↦ elim (Bool-cases (str_eq k id)) [
          | inl f ↦ ground arith
          | inr f ↦ rw (e, f) (lookup-upsert id key v rest)
        ]
      ]

  -- The rows that a test on the key keeps.
  pub lookup-retain :
      (id : String) (p : String → Bool) (table : Keyed V)
      → lookup id (retain (λ r. p r.0) table) ≡ (if p id then lookup id table else none)
  lookup-retain id p [] = elim (Bool-cases (p id)) [ inl e ↦ rw e refl | inr e ↦ rw e refl ]
  lookup-retain id p ((k, v) ∷ rest) = elim (Bool-cases (str_eq k id)) [
    | inl e ↦
        let same = str_eq→≡ k id e in
        let found = str_eq_refl id in
        rw same (elim (Bool-cases (p id)) [
          | inl f ↦ rw (f, found) refl
          | inr f ↦ rw (f, lookup-retain id p rest, f) refl
        ])
    | inr e ↦ elim (Bool-cases (p k)) [
      | inl f ↦ rw (f, e) (lookup-retain id p rest)
      | inr f ↦ rw (f, e) (lookup-retain id p rest)
    ]
  ]

  pub lookup-delete_key :
      (id key : String) (table : Keyed V)
      → lookup id (delete_key key table) ≡ (if str_eq id key then none else lookup id table)
  lookup-delete_key id key table =
      lookup-retain id (λ k. not (str_eq k key)) table ∙ negated (str_eq id key)
    where
      negated :
          (b : Bool)
          → (if not b then lookup id table else none) ≡ (if b then none else lookup id table)
      negated true = refl
      negated false = refl

  pub lookup-deleted : (id : String) (table : Keyed V) → lookup id (delete_key id table) ≡ none
  lookup-deleted id table =
      lookup-delete_key id id table ∙ let found = str_eq_refl id in rw found refl

  pub lookup-deleted_other :
      (id key : String) (table : Keyed V)
      → str_eq key id ≡ false
      → lookup id (delete_key key table) ≡ lookup id table
  lookup-deleted_other id key table h =
      lookup-delete_key id key table ∙ let apart = str_eq-sym key id h in rw apart refl

  pub lookup-upserted :
      (id : String) (v : V) (table : Keyed V) → lookup id (upsert id v table) ≡ some v
  lookup-upserted id v table =
      lookup-upsert id id v table ∙ let found = str_eq_refl id in rw found refl

  pub lookup-upserted_other :
      (id key : String) (v : V) (table : Keyed V)
      → str_eq key id ≡ false
      → lookup id (upsert key v table) ≡ lookup id table
  lookup-upserted_other id key v table h = lookup-upsert id key v table ∙ rw h refl
