-- ===== src/History/Epochs/Synchronised.antt =====
-- history/ingest.rs, `sync_epochs`: which epochs are open when it is done.
use simple_network_monitor.Prelude.{
  ℕ, ◌≡◌, refl, ap, inl, inr, String, Bool, true, false, ◌&&◌, ◌||◌, not, Option, none, some, List,
  [], ◌∷◌, arith, ◌==◌, str_eq, any, all, All, All-map, is_none, Bool-cases,
}
use simple_network_monitor.Domain.Host.{Host}
use simple_network_monitor.History.Tables.{Epoch}
use simple_network_monitor.History.Ingest.{Tables, active_epoch, close_epoch, set_ended}
use simple_network_monitor.History.Epochs.{
  Check, Signature, signature_of, checks_of, contains_id, next_rowid, new_epoch, insert_epoch,
  replace_epoch, sync_check, sync_host, sync_hosts, close_inactive, sync_epochs,
}
use simple_network_monitor.History.Epochs.Currency.{
  is_open, is_of, is_configured, Distinct, row_ids, sound, Distinct-snoc, active_epoch-Names,
  set_ended_ids, appended_ids, next_rowid-New, set_ended-Sound, others-Sound, kept-Sound,
  appended-Sound, new_epoch-IsOf,
}

module _ {F : Type 0} (good : Epoch F → Bool) where
  -- The rows are distinct, and the active rows among the open ones are good.
  abbrev pub IsSynced : List ℕ × Tables F → Type 0
  IsSynced (active, t) = Distinct (row_ids t.epochs) × (all (sound good active) t.epochs ≡ true)

  close_epoch-Synced :
      (active : List ℕ) (e : Epoch F) (now : ℕ) (t : Tables F)
      → IsSynced (active, t)
      → IsSynced (active, close_epoch e now t)
  unfolding close_epoch
  close_epoch-Synced active e now t i =
      (rw (set_ended_ids e.id now t.epochs) i.0, set_ended-Sound good active e.id now t.epochs i.1)

  module _ (to_json : Signature → String) (h : Host) (now : ℕ) where
    -- An epoch of the check is good.
    abbrev pub Allows : Check → Type 0
    Allows c = (e : Epoch F) → is_of to_json h c e ≡ true → good e ≡ true

    insert_epoch-Synced :
        (c : Check) (active : List ℕ) (t : Tables F)
        → Allows c
        → IsSynced (active, t)
        → IsSynced (insert_epoch to_json h c now active t)
    unfolding insert_epoch
    insert_epoch-Synced c active t a i =
        let id = next_rowid t.epochs in
        let e : Epoch F = new_epoch to_json h c id now in
        let new = next_rowid-New t.epochs in
        (
          rw (appended_ids t.epochs e) (Distinct-snoc (row_ids t.epochs) id new i.0),
          appended-Sound good (id ∷ active) t.epochs e (a e (new_epoch-IsOf F to_json h c now id))
              (others-Sound good active id t.epochs (All-map _ _ _ (λ j l. swap j id l) new) i.1),
        )
      where
        swap : (i j : ℕ) → (i == j) ≡ false → (j == i) ≡ false
        swap i j e = ground arith

    pub replace_epoch-Synced :
        (c : Check) (active : List ℕ) (t : Tables F) (found : Option (Epoch F))
        → Allows c
        → active_epoch h.id c.module_id c.check_id t.epochs ≡ found
        → IsSynced (active, t)
        → IsSynced (replace_epoch to_json h c now active t found)
    unfolding replace_epoch
    replace_epoch-Synced c active t none a u i = insert_epoch-Synced c active t a i
    replace_epoch-Synced c active t (some e) a u i =
        let named = active_epoch-Names h.id c.module_id c.check_id t.epochs e u in
        elim (Bool-cases (str_eq e.signature (to_json (signature_of h c)))) [
          | inl same ↦
              let current : is_of to_json h c e ≡ true = ground arith in
              rw same (
                i.0,
                kept-Sound good h.id c.module_id c.check_id active t.epochs e i.0 u (a e current)
                    i.1,
              )
          | inr other ↦ rw other (
              insert_epoch-Synced c active (close_epoch e now t) a
                (close_epoch-Synced active e now t i))
        ]

    sync_host-Synced :
        (cs : List Check) (s : List ℕ × Tables F)
        → All Allows cs
        → IsSynced s
        → IsSynced (sync_host to_json h now cs s)
    unfolding sync_host sync_check
    sync_host-Synced [] s a i = i
    sync_host-Synced (c ∷ cs) (active, t) a i =
        sync_host-Synced cs (sync_check to_json h now c (active, t)) a.1 (
          replace_epoch-Synced c active t (active_epoch h.id c.module_id c.check_id t.epochs) a.0
            refl i)

  sync_hosts-Synced :
      (to_json : Signature → String) (now : ℕ) (hosts : List Host) (s : List ℕ × Tables F)
      → All (λ h. All (Allows to_json h now) (checks_of h)) hosts
      → IsSynced s
      → IsSynced (sync_hosts to_json now hosts s)
  unfolding sync_hosts
  sync_hosts-Synced to_json now [] s a i = i
  sync_hosts-Synced to_json now (h ∷ hs) s a i =
      sync_hosts-Synced to_json now hs (sync_host to_json h now (checks_of h) s) a.1
        (sync_host-Synced to_json h now (checks_of h) s a.0 i)

-- The last loop: what is still open is active, or is met later among the rows `es`.
module _ {F : Type 0} where
  abbrev pub is_met : List (Epoch F) → Epoch F → Bool
  is_met es r = any (λ e. is_open e && e.id == r.id) es

  abbrev pub pending : List ℕ → List (Epoch F) → Epoch F → Bool
  pending active es r = not (is_open r) || (contains_id active r.id || is_met es r)

  pending-cons :
      (active : List ℕ) (e : Epoch F) (es rows : List (Epoch F))
      → all (pending active es) rows ≡ true
      → all (pending active (e ∷ es)) rows ≡ true
  pending-cons active e es [] p = refl
  pending-cons active e es (r ∷ rows) p = ground (arith, pending-cons active e es rows)

  pending-rows : (active : List ℕ) (rows : List (Epoch F)) → all (pending active rows) rows ≡ true
  pending-rows active [] = refl
  pending-rows active (r ∷ rows) =
      ground (arith, pending-cons active r rows rows (pending-rows active rows))

  pending-skip :
      (active : List ℕ) (e : Epoch F) (es rows : List (Epoch F))
      → (is_none e.ended_ms && not (contains_id active e.id)) ≡ false
      → all (pending active (e ∷ es)) rows ≡ true
      → all (pending active es) rows ≡ true
  pending-skip active e es [] skip p = refl
  pending-skip active e es (r ∷ rows) skip p = elim (Bool-cases (e.id == r.id)) [
    | inl same ↦
        let number : e.id ≡ r.id = ground arith in
        let found : contains_id active e.id ≡ contains_id active r.id =
          ap (contains_id active) number in
        ground (arith, pending-skip active e es rows)
    | inr other ↦ ground (arith, pending-skip active e es rows)
  ]

  pending-close :
      (active : List ℕ) (now : ℕ) (e : Epoch F) (es rows : List (Epoch F))
      → all (pending active (e ∷ es)) rows ≡ true
      → all (pending active es) (set_ended e.id now rows) ≡ true
  unfolding set_ended
  pending-close active now e es [] p = refl
  pending-close active now e es (r ∷ rows) p = elim (Bool-cases (r.id == e.id)) [
    | inl same ↦ rw same (ground (arith, pending-close active now e es rows))
    | inr other ↦
        let apart : (e.id == r.id) ≡ false = ground arith in
        rw other (ground (arith, pending-close active now e es rows))
  ]

module _ {F : Type 0} (good : Epoch F → Bool) (active : List ℕ) (now : ℕ) where
  settled :
      (rows : List (Epoch F))
      → all (sound good active) rows ≡ true
      → all (pending active []) rows ≡ true
      → all (λ e. not (is_open e) || good e) rows ≡ true
  settled [] s p = refl
  settled (r ∷ rows) s p = ground (arith, settled rows)

  close_inactive-Settles :
      (es : List (Epoch F)) (t : Tables F)
      → all (sound good active) t.epochs ≡ true
      → all (pending active es) t.epochs ≡ true
      → all (λ e. not (is_open e) || good e) (close_inactive active now es t).epochs ≡ true
  unfolding close_inactive close_epoch
  close_inactive-Settles [] t s p = settled t.epochs s p
  close_inactive-Settles (e ∷ es) t s p =
      elim (Bool-cases (is_none e.ended_ms && not (contains_id active e.id))) [
        | inl closing ↦
            rw (close_inactive, closing)
              (close_inactive-Settles es (close_epoch e now t)
                (set_ended-Sound good active e.id now t.epochs s)
                (pending-close active now e es t.epochs p))
        | inr skip ↦
            rw (close_inactive, skip)
              (close_inactive-Settles es t s (pending-skip active e es t.epochs skip p))
      ]

module _ (F : Type 0) (to_json : Signature → String) where
  checks-Configure :
      (h : Host) (cs : List Check)
      → All
          (λ c.
            (e : Epoch F) → is_of to_json h c e ≡ true → any (λ d. is_of to_json h d e) cs ≡ true)
          cs
  checks-Configure h [] = tt
  checks-Configure h (c ∷ cs) =
      (λ e m. rw m refl, All-map _ _ cs (λ d f e m. ground (arith, f e m)) (checks-Configure h cs))

  hosts-Configure :
      (now : ℕ) (hosts : List Host)
      → All
          (λ h. All (Allows (is_configured {F = F} to_json hosts) to_json h now) (checks_of h))
          hosts
  hosts-Configure now [] = tt
  hosts-Configure now (h ∷ hs) = (
    All-map _ _ (checks_of h) (λ c f e m. ground (arith, f e m)) (checks-Configure h (checks_of h)),
    All-map _ _ hs (λ g a. All-map _ _ (checks_of g) (λ c f e m. ground (arith, f e m)) a)
        (hosts-Configure now hs),
  )

module _ {F : Type 0} (to_json : Signature → String) where
  -- When the row numbers of the epochs are distinct, then after a synchronisation every open epoch
  -- is of a check of one of the hosts, with the present signature of that check.
  pub sync_epochs-IsCurrent :
      (hosts : List Host) (now : ℕ) (t : Tables F)
      → Distinct (row_ids t.epochs)
      → all
          (λ e. not (is_open e) || is_configured to_json hosts e)
          (sync_epochs to_json hosts now t).epochs
        ≡ true
  unfolding sync_epochs
  sync_epochs-IsCurrent hosts now t d =
      let s : List ℕ × Tables F = sync_hosts to_json now hosts ([], t) in
      let i =
        sync_hosts-Synced (is_configured to_json hosts) to_json now hosts ([], t)
          (hosts-Configure F to_json now hosts) (d, none_active t.epochs) in
      close_inactive-Settles (is_configured to_json hosts) s.0 now s.1.epochs s.1 i.1
        (pending-rows s.0 s.1.epochs)
    where
      none_active : (es : List (Epoch F)) → all (sound (is_configured to_json hosts) []) es ≡ true
      none_active [] = refl
      none_active (e ∷ es) = none_active es
