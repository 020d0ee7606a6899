-- ===== src/History/Epochs/Coverage.antt =====
-- history/ingest.rs, `sync_epochs`: which checks have an epoch when it is done.
use mathlib.Core.Path.{subst}
use simple_network_monitor.Prelude.{
  ℕ, ◌≡◌, refl, sym, ◌∙◌, ap, inl, inr, String, Bool, true, false, ◌&&◌, ◌||◌, not, Option, none,
  some, List, [], ◌∷◌, ◌++◌, arith, ◌==◌, str_eq, all, All, All-map, is_none, Bool-cases,
}
use simple_network_monitor.Domain.Host.{Host}
use simple_network_monitor.History.Tables.{Epoch}
use simple_network_monitor.History.Ingest.{Tables, active_epoch, close_epoch}
use simple_network_monitor.History.Epochs.{
  Check, Signature, signature_of, checks_of, contains_id, next_rowid, new_epoch, insert_epoch,
  replace_epoch, sync_check, sync_host, sync_hosts, close_inactive, sync_epochs,
}
use simple_network_monitor.History.Epochs.Synchronised.{replace_epoch-Synced}
use simple_network_monitor.History.Epochs.Served.{
  Target, targets_of, targets, same_key, Apart, names, has_epoch, served_by, served, served-append,
  served-activate, served-ended_inactive, served-ended_other,
}
use simple_network_monitor.Storage.Tables.Lookups.{str_eq_refl}
use simple_network_monitor.History.Epochs.Currency.{Distinct, row_ids, sound}

module _ (F : Type 0) (to_json : Signature → String) where
  new_epoch-IsServed :
      (now : ℕ) (active : List ℕ) (id : ℕ) (h : Host) (c : Check)
      → served_by {F = F} to_json (id ∷ active) (h, c) (new_epoch to_json h c id now) ≡ true
  unfolding new_epoch
  new_epoch-IsServed now active id h c =
      let number : (id == id) ≡ true = ground arith in
      rw
        (
          str_eq_refl h.id,
          str_eq_refl c.module_id,
          str_eq_refl c.check_id,
          str_eq_refl (to_json (signature_of h c)),
          number,
        )
        refl

module _ {F : Type 0} (to_json : Signature → String) where
  -- The step of the loops for one check.
  sync_target : ℕ → Target → List ℕ × Tables F → List ℕ × Tables F
  sync_target now (h, c) s = sync_check to_json h now c s

  sync_targets : ℕ → List Target → List ℕ × Tables F → List ℕ × Tables F
  sync_targets now [] s = s
  sync_targets now (t ∷ ts) s = sync_targets now ts (sync_target now t s)

  sync_targets-append :
      (now : ℕ) (ts us : List Target) (s : List ℕ × Tables F)
      → sync_targets now (ts ++ us) s ≡ sync_targets now us (sync_targets now ts s)
  unfolding sync_targets
  sync_targets-append now [] us s = refl
  sync_targets-append now (t ∷ ts) us s = sync_targets-append now ts us (sync_target now t s)

  sync_host-targets :
      (now : ℕ) (h : Host) (cs : List Check) (s : List ℕ × Tables F)
      → sync_host to_json h now cs s ≡ sync_targets now (targets_of h cs) s
  unfolding sync_host sync_targets sync_target
  sync_host-targets now h [] s = refl
  sync_host-targets now h (c ∷ cs) s = sync_host-targets now h cs (sync_check to_json h now c s)

  sync_hosts-targets :
      (now : ℕ) (hosts : List Host) (s : List ℕ × Tables F)
      → sync_hosts to_json now hosts s ≡ sync_targets now (targets hosts) s
  unfolding sync_hosts sync_targets
  sync_hosts-targets now [] s = refl
  sync_hosts-targets now (h ∷ hs) s =
      ap (sync_hosts to_json now hs) (sync_host-targets now h (checks_of h) s)
      ∙ sync_hosts-targets now hs (sync_targets now (targets_of h (checks_of h)) s)
      ∙ sym (sync_targets-append now (targets_of h (checks_of h)) (targets hs) s)

  abbrev IsServed : List ℕ × Tables F → Target → Type 0
  IsServed (active, tables) t = served to_json active tables.epochs t ≡ true

  found-IsServed :
      (active : List ℕ) (es : List (Epoch F)) (h : Host) (c : Check) (e : Epoch F)
      → active_epoch h.id c.module_id c.check_id es ≡ some e
      → str_eq e.signature (to_json (signature_of h c)) ≡ true
      → served to_json (e.id ∷ active) es (h, c) ≡ true
  unfolding active_epoch
  found-IsServed active [] h c e found current = cc
  found-IsServed active (x ∷ xs) h c e found current =
      elim (Bool-cases (names (h, c) x && is_none x.ended_ms)) [
        | inl hit ↦
            let same : x ≡ e = ground arith in
            let number : x.id ≡ e.id = ap (λ y. y.id) same in
            let signature : x.signature ≡ e.signature = ap (λ y. y.signature) same in ground arith
        | inr miss ↦ ground (arith, found-IsServed active xs h c e)
      ]

  inserted-IsServed :
      (now : ℕ) (active : List ℕ) (tables : Tables F) (h : Host) (c : Check)
      → IsServed (insert_epoch to_json h c now active tables) (h, c)
  unfolding insert_epoch
  inserted-IsServed now active tables h c =
      let id = next_rowid tables.epochs in
      let own = new_epoch-IsServed F to_json now active id h c in
      served-append to_json (id ∷ active) tables.epochs (new_epoch to_json h c id now) (h, c)
        (either (served to_json (id ∷ active) tables.epochs (h, c)) _ own)
    where
      either : (a b : Bool) → b ≡ true → (a || b) ≡ true
      either a b e = ground arith

  inserted_keeps :
      (now : ℕ) (active : List ℕ) (tables : Tables F) (h : Host) (c : Check) (u : Target)
      → IsServed (active, tables) u
      → IsServed (insert_epoch to_json h c now active tables) u
  unfolding insert_epoch
  inserted_keeps now active tables h c u s =
      let id = next_rowid tables.epochs in
      let kept = served-activate to_json active id tables.epochs u s in
      served-append to_json (id ∷ active) tables.epochs (new_epoch to_json h c id now) u
        (rw kept refl)

  -- After the step for a check, it is served.
  replaced-IsServed :
      (now : ℕ) (active : List ℕ) (tables : Tables F) (h : Host) (c : Check)
      (found : Option (Epoch F))
      → active_epoch h.id c.module_id c.check_id tables.epochs ≡ found
      → IsServed (replace_epoch to_json h c now active tables found) (h, c)
  unfolding replace_epoch
  replaced-IsServed now active tables h c none e = inserted-IsServed now active tables h c
  replaced-IsServed now active tables h c (some old) e =
      elim (Bool-cases (str_eq old.signature (to_json (signature_of h c)))) [
        | inl same ↦ rw same (found-IsServed active tables.epochs h c old e same)
        | inr other ↦ rw other (inserted-IsServed now active (close_epoch old now tables) h c)
      ]

  -- It keeps those that have another key.
  replaced_keeps :
      (now : ℕ) (active : List ℕ) (tables : Tables F) (h : Host) (c : Check) (u : Target)
      (found : Option (Epoch F))
      → Distinct (row_ids tables.epochs)
      → active_epoch h.id c.module_id c.check_id tables.epochs ≡ found
      → same_key u (h, c) ≡ false
      → IsServed (active, tables) u
      → IsServed (replace_epoch to_json h c now active tables found) u
  unfolding replace_epoch close_epoch
  replaced_keeps now active tables h c u none d e k s = inserted_keeps now active tables h c u s
  replaced_keeps now active tables h c u (some old) d e k s =
      elim (Bool-cases (str_eq old.signature (to_json (signature_of h c)))) [
        | inl same ↦ rw same (served-activate to_json active old.id tables.epochs u s)
        | inr other ↦ rw other (
            inserted_keeps now active (close_epoch old now tables) h c u
              (served-ended_other to_json active now tables.epochs (h, c) u old d e k s))
      ]

  sound-true : (active : List ℕ) (es : List (Epoch F)) → all (sound (λ e. true) active) es ≡ true
  sound-true active [] = refl
  sound-true active (e ∷ es) = ground (arith, sound-true active es)

  sync_target-Distinct :
      (now : ℕ) (t : Target) (s : List ℕ × Tables F)
      → Distinct (row_ids s.1.epochs)
      → Distinct (row_ids (sync_target now t s).1.epochs)
  unfolding sync_target sync_check
  sync_target-Distinct now (h, c) (active, tables) d =
      (replace_epoch-Synced (λ e. true) to_json h now c active tables
        (active_epoch h.id c.module_id c.check_id tables.epochs) (λ e m. refl) refl
        (d, sound-true active tables.epochs)).0

  sync_targets-keep :
      (now : ℕ) (ts : List Target) (u : Target) (s : List ℕ × Tables F)
      → Distinct (row_ids s.1.epochs)
      → All (λ t. same_key u t ≡ false) ts
      → IsServed s u
      → IsServed (sync_targets now ts s) u
  unfolding sync_targets sync_target sync_check
  sync_targets-keep now [] u s d k i = i
  sync_targets-keep now ((h, c) ∷ ts) u (active, tables) d k i =
      sync_targets-keep now ts u (sync_target now (h, c) (active, tables))
        (sync_target-Distinct now (h, c) (active, tables) d) k.1
        (replaced_keeps now active tables h c u
          (active_epoch h.id c.module_id c.check_id tables.epochs) d refl k.0 i)

  sync_targets-Serve :
      (now : ℕ) (ts : List Target) (s : List ℕ × Tables F)
      → Distinct (row_ids s.1.epochs)
      → Apart ts
      → All (IsServed (sync_targets now ts s)) ts
  unfolding sync_targets sync_target sync_check
  sync_targets-Serve now [] s d a = tt
  sync_targets-Serve now ((h, c) ∷ ts) (active, tables) d a =
      let next = sync_target now (h, c) (active, tables) in
      let distinct = sync_target-Distinct now (h, c) (active, tables) d in
      (
        sync_targets-keep now ts (h, c) next distinct a.0
            (replaced-IsServed now active tables h c
              (active_epoch h.id c.module_id c.check_id tables.epochs) refl),
        sync_targets-Serve now ts next distinct a.1,
      )

  -- What is active stays open.
  close_inactive-keeps :
      (active : List ℕ) (now : ℕ) (es : List (Epoch F)) (tables : Tables F) (t : Target)
      → IsServed (active, tables) t
      → has_epoch to_json (close_inactive active now es tables).epochs t ≡ true
  unfolding close_inactive close_epoch
  close_inactive-keeps active now [] tables t s = forget_active tables.epochs t s
    where
      forget_active :
          (es : List (Epoch F)) (t : Target)
          → served to_json active es t ≡ true
          → has_epoch to_json es t ≡ true
      forget_active [] t s = s
      forget_active (e ∷ es) (h, c) s = ground (arith, forget_active es (h, c))
  close_inactive-keeps active now (e ∷ es) tables t s =
      elim (Bool-cases (is_none e.ended_ms && not (contains_id active e.id))) [
        | inl closing ↦
            let inactive : contains_id active e.id ≡ false = ground arith in
            rw (close_inactive, closing)
              (close_inactive-keeps active now es (close_epoch e now tables) t
                (served-ended_inactive to_json active e.id now tables.epochs t inactive s))
        | inr skip ↦ rw (close_inactive, skip) (close_inactive-keeps active now es tables t s)
      ]

  -- When the row numbers of the epochs are distinct, and no two checks of the hosts have the same
  -- host, module and check, then after a synchronisation each of those checks has an open epoch with
  -- its present signature.
  pub sync_epochs-Covers :
      (hosts : List Host) (now : ℕ) (tables : Tables F)
      → Distinct (row_ids tables.epochs)
      → Apart (targets hosts)
      → All
          (λ t. has_epoch to_json (sync_epochs to_json hosts now tables).epochs t ≡ true)
          (targets hosts)
  unfolding sync_epochs
  sync_epochs-Covers hosts now tables d a =
      let s : List ℕ × Tables F = sync_hosts to_json now hosts ([], tables) in
      let same = sync_hosts-targets now hosts ([], tables) in
      All-map _ _ (targets hosts) (λ t served. close_inactive-keeps s.0 now s.1.epochs s.1 t served)
        (subst (λ r. All (IsServed r) (targets hosts)) (sym same)
          (sync_targets-Serve now (targets hosts) ([], tables) d a))
