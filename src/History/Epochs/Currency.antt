-- ===== src/History/Epochs/Currency.antt =====
-- Which rows of the epochs are open, current and active, while rows are closed and inserted.
use mathlib.Core.Path.{subst}
use simple_network_monitor.Prelude.{
  ℕ, ◌<◌, ◌≡◌, refl, ap, inl, inr, String, Bool, true, false, ◌&&◌, ◌||◌, not, some, List, [], ◌∷◌,
  ◌++◌, map, arith, ◌==◌, str_eq, any, all, All, All-map, All-snoc, is_none, Bool-cases,
}
use simple_network_monitor.Domain.Host.{Host}
use simple_network_monitor.Storage.Tables.Lookups.{str_eq_refl}
use simple_network_monitor.History.Tables.{Epoch}
use simple_network_monitor.History.Ingest.{active_epoch, set_ended}
use simple_network_monitor.History.Epochs.{
  Signature, Check, signature_of, checks_of, contains_id, next_rowid, new_epoch,
}

abbrev pub is_open : {F : Type 0} → Epoch F → Bool
is_open e = is_none e.ended_ms

-- The epoch is one of this check, with its present signature.
abbrev pub is_of : {F : Type 0} → (Signature → String) → Host → Check → Epoch F → Bool
is_of to_json h c e =
    str_eq e.host_id h.id
    && str_eq e.module_id c.module_id
    && str_eq e.check_id c.check_id
    && str_eq e.signature (to_json (signature_of h c))

-- It is of a check of one of the hosts.
abbrev pub is_configured : {F : Type 0} → (Signature → String) → List Host → Epoch F → Bool
is_configured to_json hosts e = any (λ h. any (λ c. is_of to_json h c e) (checks_of h)) hosts

-- The ids of the rows differ.
abbrev pub Distinct : List ℕ → Type 0
Distinct [] = Unit
Distinct (i ∷ is) = All (λ j. (i == j) ≡ false) is × Distinct is

abbrev pub row_ids : {F : Type 0} → List (Epoch F) → List ℕ
row_ids es = map (λ e. e.id) es

pub Distinct-snoc :
    (is : List ℕ) (i : ℕ) → All (λ j. (j == i) ≡ false) is → Distinct is → Distinct (is ++ i ∷ [])
Distinct-snoc [] i a d = (tt, tt)
Distinct-snoc (j ∷ js) i a d =
    (All-snoc (λ k. (j == k) ≡ false) js i a.0 d.0, Distinct-snoc js i a.1 d.1)

module _ {F : Type 0} where
  pub All-active :
      (P : Epoch F → Type 0) (host module_id check : String) (es : List (Epoch F)) (e : Epoch F)
      → All P es
      → active_epoch host module_id check es ≡ some e
      → P e
  unfolding active_epoch
  All-active P host module_id check [] e a h = cc
  All-active P host module_id check (x ∷ xs) e a h =
      elim (Bool-cases (
        str_eq x.host_id host
        && str_eq x.module_id module_id
        && str_eq x.check_id check
        && is_none x.ended_ms)) [
          | inl t ↦ let same : x ≡ e = ground arith in rw (← same) a.0
          | inr t ↦ All-active P host module_id check xs e a.1 (ground arith)
        ]

  pub active_epoch-Names :
      (host module_id check : String) (es : List (Epoch F)) (e : Epoch F)
      → active_epoch host module_id check es ≡ some e
      → (str_eq e.host_id host && str_eq e.module_id module_id && str_eq e.check_id check) ≡ true
  unfolding active_epoch
  active_epoch-Names host module_id check [] e h = cc
  active_epoch-Names host module_id check (x ∷ xs) e h =
      elim (Bool-cases (
        str_eq x.host_id host
        && str_eq x.module_id module_id
        && str_eq x.check_id check
        && is_none x.ended_ms)) [
          | inl t ↦ let same : x ≡ e = ground arith in rw (← same) (ground arith)
          | inr t ↦ active_epoch-Names host module_id check xs e (ground arith)
        ]

  pub set_ended_ids :
      (id now : ℕ) (es : List (Epoch F)) → row_ids (set_ended id now es) ≡ row_ids es
  unfolding set_ended
  set_ended_ids id now [] = refl
  set_ended_ids id now (e ∷ es) = elim (Bool-cases (e.id == id)) [
    | inl t ↦ rw (t, set_ended_ids id now es) refl
    | inr t ↦ rw (t, set_ended_ids id now es) refl
  ]

  pub appended_ids :
      (es : List (Epoch F)) (e : Epoch F) → row_ids (es ++ e ∷ []) ≡ row_ids es ++ e.id ∷ []
  appended_ids [] e = refl
  appended_ids (x ∷ xs) e = ap (λ is. x.id ∷ is) (appended_ids xs e)

  rows-below : (es : List (Epoch F)) → All (λ i. i < next_rowid es) (row_ids es)
  unfolding next_rowid
  rows-below [] = tt
  rows-below (e ∷ es) = (omega arith, All-map _ _ (row_ids es) (λ i l. omega arith) (rows-below es))

  -- The next row number is none of those of the table.
  pub next_rowid-New : (es : List (Epoch F)) → All (λ i. (i == next_rowid es) ≡ false) (row_ids es)
  next_rowid-New es = All-map _ _ (row_ids es) (λ i l. ground arith) (rows-below es)

  pub All-rows : (P : ℕ → Type 0) (es : List (Epoch F)) → All P (row_ids es) → All (λ e. P e.id) es
  All-rows P [] a = tt
  All-rows P (e ∷ es) a = (a.0, All-rows P es a.1)

module _ {F : Type 0} (good : Epoch F → Bool) where
  -- An active row that is open is good.
  abbrev pub sound : List ℕ → Epoch F → Bool
  sound active e = not (contains_id active e.id) || (not (is_open e) || good e)

  pub set_ended-Sound :
      (active : List ℕ) (id now : ℕ) (es : List (Epoch F))
      → all (sound active) es ≡ true
      → all (sound active) (set_ended id now es) ≡ true
  unfolding set_ended
  set_ended-Sound active id now [] h = refl
  set_ended-Sound active id now (e ∷ es) h = elim (Bool-cases (e.id == id)) [
    | inl t ↦ ground (arith, set_ended-Sound active id now es)
    | inr t ↦ ground (arith, set_ended-Sound active id now es)
  ]

  pub others-Sound :
      (active : List ℕ) (id : ℕ) (es : List (Epoch F))
      → All (λ x. (id == x) ≡ false) (row_ids es)
      → all (sound active) es ≡ true
      → all (sound (id ∷ active)) es ≡ true
  others-Sound active id [] a h = refl
  others-Sound active id (e ∷ es) a h =
      let (apart, rest) = a in ground (arith, others-Sound active id es rest)

  pub kept-Sound :
      (host module_id check : String) (active : List ℕ) (es : List (Epoch F)) (e : Epoch F)
      → Distinct (row_ids es)
      → active_epoch host module_id check es ≡ some e
      → good e ≡ true
      → all (sound active) es ≡ true
      → all (sound (e.id ∷ active)) es ≡ true
  unfolding active_epoch
  kept-Sound host module_id check active [] e u h g s = refl
  kept-Sound host module_id check active (x ∷ xs) e u h g s =
      elim (Bool-cases (
        str_eq x.host_id host
        && str_eq x.module_id module_id
        && str_eq x.check_id check
        && is_none x.ended_ms)) [
          | inl t ↦
              let same : x ≡ e = ground arith in
              let fine : good x ≡ true = rw same g in
              let rest = others-Sound active x.id xs u.0 (ground arith) in
              subst (λ y. all (sound (y.id ∷ active)) (x ∷ xs) ≡ true) same (ground arith)
          | inr t ↦
              let found : active_epoch host module_id check xs ≡ some e = ground arith in
              let apart : (x.id == e.id) ≡ false =
                All-active _ host module_id check xs e (All-rows _ xs u.0) found in
              let rest = kept-Sound host module_id check active xs e u.1 found g (ground arith) in
              ground arith
        ]

  pub appended-Sound :
      (active : List ℕ) (es : List (Epoch F)) (e : Epoch F)
      → good e ≡ true
      → all (sound active) es ≡ true
      → all (sound active) (es ++ e ∷ []) ≡ true
  appended-Sound active [] e g s = ground arith
  appended-Sound active (x ∷ xs) e g s = ground (arith, appended-Sound active xs e g)

-- A new epoch is one of its check.
pub new_epoch-IsOf :
    (F : Type 0) (to_json : Signature → String) (h : Host) (c : Check) (now id : ℕ)
    → is_of {F = F} to_json h c (new_epoch to_json h c id now) ≡ true
unfolding new_epoch
new_epoch-IsOf F to_json h c now id =
    rw
      (
        str_eq_refl h.id,
        str_eq_refl c.module_id,
        str_eq_refl c.check_id,
        str_eq_refl (to_json (signature_of h c)),
      )
      refl
