-- ===== src/History/Epochs/Served.antt =====
-- history/ingest.rs, `sync_epochs`: the checks that have an active epoch.
use mathlib.Core.Path.{subst}
use simple_network_monitor.Prelude.{
  ℕ, ◌≡◌, sym, ◌∙◌, ap, inl, inr, String, Bool, true, false, ◌&&◌, ◌||◌, some, List, [], ◌∷◌, ◌++◌,
  arith, ◌==◌, str_eq, eq_iff, any, All, is_none, Bool-cases,
}
use simple_network_monitor.Domain.Host.{Host}
use simple_network_monitor.History.Tables.{Epoch}
use simple_network_monitor.History.Ingest.{active_epoch, set_ended}
use simple_network_monitor.History.Epochs.{Check, Signature, checks_of, contains_id}
use simple_network_monitor.History.Epochs.Currency.{
  is_open, is_of, Distinct, row_ids, All-active, All-rows,
}

-- A check of a host, in the order in which the loops meet them.
abbrev pub Target : Type 0
Target = Host × Check

abbrev pub targets_of : Host → List Check → List Target
targets_of h [] = []
targets_of h (c ∷ cs) = (h, c) ∷ targets_of h cs

abbrev pub targets : List Host → List Target
targets [] = []
targets (h ∷ hs) = targets_of h (checks_of h) ++ targets hs

-- Two checks that an epoch cannot tell apart.
abbrev pub same_key : Target → Target → Bool
same_key (h, c) (g, d) =
    str_eq h.id g.id && str_eq c.module_id d.module_id && str_eq c.check_id d.check_id

abbrev pub Apart : List Target → Type 0
Apart [] = Unit
Apart (t ∷ ts) = All (λ u. same_key t u ≡ false) ts × Apart ts

abbrev pub names : {F : Type 0} → Target → Epoch F → Bool
names (h, c) e =
    str_eq e.host_id h.id && str_eq e.module_id c.module_id && str_eq e.check_id c.check_id

agree : (s t u : String) → str_eq s t ≡ true → str_eq s u ≡ true → str_eq t u ≡ true
agree s t u a b = (eq_iff t u).1 (sym ((eq_iff s t).0 a) ∙ (eq_iff s u).0 b)

pub named_twice :
    {F : Type 0} (t u : Target) (e : Epoch F)
    → names t e ≡ true
    → names u e ≡ true
    → same_key t u ≡ true
named_twice (h, c) (g, d) e a b =
    let host : str_eq h.id g.id ≡ true = agree e.host_id h.id g.id (ground arith) (ground arith) in
    let module_id : str_eq c.module_id d.module_id ≡ true =
      agree e.module_id c.module_id d.module_id (ground arith) (ground arith) in
    let check : str_eq c.check_id d.check_id ≡ true =
      agree e.check_id c.check_id d.check_id (ground arith) (ground arith) in
    ground arith

module _ {F : Type 0} (to_json : Signature → String) where
  abbrev pub has_epoch : List (Epoch F) → Target → Bool
  has_epoch es (h, c) = any (λ e. is_open e && is_of to_json h c e) es

  abbrev pub served_by : List ℕ → Target → Epoch F → Bool
  served_by active (h, c) e = is_open e && is_of to_json h c e && contains_id active e.id

  -- The check has an open epoch that is active.
  abbrev pub served : List ℕ → List (Epoch F) → Target → Bool
  served active es t = any (served_by active t) es

  pub served-append :
      (active : List ℕ) (es : List (Epoch F)) (e : Epoch F) (t : Target)
      → (served active es t || served_by active t e) ≡ true
      → served active (es ++ e ∷ []) t ≡ true
  served-append active [] e (h, c) s = ground arith
  served-append active (x ∷ xs) e (h, c) s = ground (arith, served-append active xs e (h, c))

  pub served-activate :
      (active : List ℕ) (id : ℕ) (es : List (Epoch F)) (t : Target)
      → served active es t ≡ true
      → served (id ∷ active) es t ≡ true
  served-activate active id [] (h, c) s = s
  served-activate active id (x ∷ xs) (h, c) s = ground (arith, served-activate active id xs (h, c))

  pub served-ended_inactive :
      (active : List ℕ) (id now : ℕ) (es : List (Epoch F)) (t : Target)
      → contains_id active id ≡ false
      → served active es t ≡ true
      → served active (set_ended id now es) t ≡ true
  unfolding set_ended
  served-ended_inactive active id now [] (h, c) a s = s
  served-ended_inactive active id now (x ∷ xs) (h, c) a s = elim (Bool-cases (x.id == id)) [
    | inl same ↦
        let number : x.id ≡ id = ground arith in
        let inactive : contains_id active x.id ≡ false = ap (contains_id active) number ∙ a in
        rw same (ground (arith, served-ended_inactive active id now xs (h, c)))
    | inr other ↦ rw other (ground (arith, served-ended_inactive active id now xs (h, c)))
  ]

  served-ended_apart :
      (active : List ℕ) (id now : ℕ) (es : List (Epoch F)) (t : Target)
      → All (λ i. (id == i) ≡ false) (row_ids es)
      → served active es t ≡ true
      → served active (set_ended id now es) t ≡ true
  unfolding set_ended
  served-ended_apart active id now [] (h, c) a s = s
  served-ended_apart active id now (x ∷ xs) (h, c) a s =
      let apart : (x.id == id) ≡ false = let e = a.0 in ground arith in
      rw apart (ground (arith, served-ended_apart active id now xs (h, c) a.1))

  -- Closing the active epoch of a check leaves those of the checks with another key.
  pub served-ended_other :
      (active : List ℕ) (now : ℕ) (es : List (Epoch F)) (t u : Target) (e : Epoch F)
      → Distinct (row_ids es)
      → active_epoch t.0.id t.1.module_id t.1.check_id es ≡ some e
      → same_key u t ≡ false
      → served active es u ≡ true
      → served active (set_ended e.id now es) u ≡ true
  unfolding active_epoch set_ended
  served-ended_other active now [] (h, c) (g, d) e distinct found k s = s
  served-ended_other active now (x ∷ xs) (h, c) (g, d) e distinct found k s =
      elim (Bool-cases (names (h, c) x && is_none x.ended_ms)) [
        | inl hit ↦
            let same : x ≡ e = ground arith in
            let own : names (h, c) x ≡ true = ground arith in
            let foreign : served_by active (g, d) x ≡ false =
              ground (arith, named_twice (g, d) (h, c) x) in
            let rest : served active xs (g, d) ≡ true = ground arith in
            let kept = served-ended_apart active x.id now xs (g, d) distinct.0 rest in
            subst (λ y. served active (set_ended y.id now (x ∷ xs)) (g, d) ≡ true) same
              (ground arith)
        | inr miss ↦
            let later : active_epoch h.id c.module_id c.check_id xs ≡ some e = ground arith in
            let apart : (x.id == e.id) ≡ false =
              All-active _ h.id c.module_id c.check_id xs e (All-rows _ xs distinct.0) later in
            rw apart
              (ground (arith, served-ended_other active now xs (h, c) (g, d) e distinct.1 later k))
      ]
