-- ===== src/Storage/Identities/Isolation.antt =====
-- storage/sqlite/mod.rs, `sync_identities_in_transaction`: the observations that stay with a host.
use simple_network_monitor.Prelude.{
  ◌≡◌, ◌∙◌, refl, ap, inl, inr, String, Bool, true, false, not, ◌||◌, Option, none, some, List, [],
  ◌∷◌, arith, ℕ, str_eq, eq_iff, any, All, All-map, All-zip, ok, ok-injective, reject, map_err,
  not_rejected, then-ok, bind-ok, Bool-cases, if◌then◌else◌,
}
use simple_network_monitor.Domain.Usage.{UsageSnapshot}
use simple_network_monitor.Domain.Host.{Host, validate_host}
use simple_network_monitor.History.Epochs.{Signature}
use simple_network_monitor.Storage.Errors.{invalid_data}
use simple_network_monitor.Storage.Tables.{lookup, Identity, Coverage, StatusRow, Database}
use simple_network_monitor.Storage.Tables.Lookups.{
  str_eq_refl, str_eq-sym, lookup-deleted, lookup-deleted_other, lookup-upserted,
  lookup-upserted_other, lookup-retain,
}
use simple_network_monitor.Storage.Identities.{
  moved, was_disabled, forget, sync_identity, sync_each, sync_checks, ids_of, drop_unknown,
  sync_identities_in_transaction,
}

-- What the tables hold of a host.
pub record Current (F : Type 0) : Type 0 where
  pub status : Option (StatusRow F)
  pub usage : Option UsageSnapshot
  pub coverage : Option Coverage
  pub identity : Option Identity

abbrev pub current : {F : Type 0} → String → Database F → Current F
current id db = record {
  status = lookup id db.latest_status;
  usage = lookup id db.latest_usage;
  coverage = lookup id db.usage_coverage;
  identity = lookup id db.host_identity;
}

abbrev pub nothing : {F : Type 0} → Current F
nothing = record { status = none; usage = none; coverage = none; identity = none }

abbrev pub identity_of : Host → Identity
identity_of h = record { address = h.address; usage_enabled = h.modules.usage.enabled }

-- What is left of it for a configured host: nothing where the address is new, and no coverage where
-- usage is or was disabled.
abbrev pub kept_for : {F : Type 0} → Host → Current F → Current F
kept_for h c =
    if moved h c.identity then record nothing { identity = some (identity_of h) } else record c {
      coverage =
          if not h.modules.usage.enabled || was_disabled c.identity then none else c.coverage;
      identity = some (identity_of h);
    }

module _ {F : Type 0} where
  same_parts :
      {c d : Current F}
      → c.status ≡ d.status
      → c.usage ≡ d.usage
      → c.coverage ≡ d.coverage
      → c.identity ≡ d.identity
      → c ≡ d
  same_parts status usage coverage identity = cc (status, usage, coverage, identity)

  own :
      (h : Host) (db : Database F)
      → current h.id (sync_identity h db) ≡ kept_for h (current h.id db)
  unfolding sync_identity forget
  own h db = elim (Bool-cases (moved h (lookup h.id db.host_identity))) [
    | inl e ↦ rw e (
        same_parts (lookup-deleted h.id db.latest_status) (lookup-deleted h.id db.latest_usage)
          (lookup-deleted h.id db.usage_coverage) (lookup-upserted h.id _ db.host_identity))
    | inr e ↦
        elim (Bool-cases
          (not h.modules.usage.enabled || was_disabled (lookup h.id db.host_identity))) [
            | inl f ↦
                rw (e, f)
                  (same_parts refl refl (lookup-deleted h.id db.usage_coverage)
                    (lookup-upserted h.id _ db.host_identity))
            | inr f ↦
                rw (e, f) (same_parts refl refl refl (lookup-upserted h.id _ db.host_identity))
          ]
  ]

  others :
      (h : Host) (id : String) (db : Database F)
      → str_eq h.id id ≡ false
      → current id (sync_identity h db) ≡ current id db
  unfolding sync_identity forget
  others h id db ne = elim (Bool-cases (moved h (lookup h.id db.host_identity))) [
    | inl e ↦ rw e (
        same_parts (lookup-deleted_other id h.id db.latest_status ne)
          (lookup-deleted_other id h.id db.latest_usage ne)
          (lookup-deleted_other id h.id db.usage_coverage ne)
          (lookup-upserted_other id h.id _ db.host_identity ne))
    | inr e ↦
        elim (Bool-cases
          (not h.modules.usage.enabled || was_disabled (lookup h.id db.host_identity))) [
            | inl f ↦
                rw (e, f)
                  (same_parts refl refl (lookup-deleted_other id h.id db.usage_coverage ne)
                    (lookup-upserted_other id h.id _ db.host_identity ne))
            | inr f ↦
                rw (e, f)
                  (same_parts refl refl refl (lookup-upserted_other id h.id _ db.host_identity ne))
          ]
  ]

not_head :
    (h g : Host) (met : List String)
    → any (str_eq g.id) (h.id ∷ met) ≡ false
    → str_eq h.id g.id ≡ false
not_head h g met m = str_eq-sym g.id h.id (ground arith)

All-named : (hosts : List Host) → All (λ h. any (str_eq h.id) (ids_of hosts) ≡ true) hosts
All-named [] = tt
All-named (h ∷ hs) =
    let found = str_eq_refl h.id in
    (ground arith, All-map _ _ hs (λ g m. ground arith) (All-named hs))

module _ {F : Type 0} (is_ip_literal : String → Bool) where
  -- The step of the loop that succeeds.
  sync_each_step :
      (met : List String) (h : Host) (hs : List Host) (db db' : Database F)
      → sync_each is_ip_literal met (h ∷ hs) db ≡ ok db'
      → (any (str_eq h.id) met ≡ false)
        × (sync_each is_ip_literal (h.id ∷ met) hs (sync_identity h db) ≡ ok db')
  unfolding sync_each
  sync_each_step met h hs db db' e =
      let (valid, e1) = then-ok (map_err invalid_data (validate_host is_ip_literal h)) _ e in
      let (new, e2) = then-ok (reject (any (str_eq h.id) met) _) _ e1 in (not_rejected _ _ new, e2)

  -- The hosts met before are left as they are.
  sync_each_keeps :
      (met : List String) (hs : List Host) (db db' : Database F) (id : String)
      → any (str_eq id) met ≡ true
      → sync_each is_ip_literal met hs db ≡ ok db'
      → current id db' ≡ current id db
  unfolding sync_each
  sync_each_keeps met [] db db' id m e = let same = ok-injective e in rw same refl
  sync_each_keeps met (h ∷ hs) db db' id m e =
      let (new, e') = sync_each_step met h hs db db' e in
      let differ = eq_iff h.id id in
      sync_each_keeps (h.id ∷ met) hs (sync_identity h db) db' id (ground arith) e'
      ∙ others h id db (ground arith)

  sync_each-Fresh :
      (met : List String) (hs : List Host) (db db' : Database F)
      → sync_each is_ip_literal met hs db ≡ ok db'
      → All (λ h. any (str_eq h.id) met ≡ false) hs
  sync_each-Fresh met [] db db' e = tt
  sync_each-Fresh met (h ∷ hs) db db' e =
      let (new, e') = sync_each_step met h hs db db' e in
      (
        new,
        All-map _ _ hs (λ g m. ground arith)
            (sync_each-Fresh (h.id ∷ met) hs (sync_identity h db) db' e'),
      )

  -- Each host is left with what is kept for it.
  abbrev pub Synced : Database F → Database F → Host → Type 0
  Synced db db' h = current h.id db' ≡ kept_for h (current h.id db)

  sync_each-Synced :
      (met : List String) (hs : List Host) (db db' : Database F)
      → sync_each is_ip_literal met hs db ≡ ok db'
      → All (Synced db db') hs
  sync_each-Synced met [] db db' e = tt
  sync_each-Synced met (h ∷ hs) db db' e =
      let (new, e') = sync_each_step met h hs db db' e in
      let db1 : Database F = sync_identity h db in
      let found = str_eq_refl h.id in
      (
        sync_each_keeps (h.id ∷ met) hs db1 db' h.id (ground arith) e' ∙ own h db,
        All-zip _ _ (Synced db db') hs
            (λ g fresh s. s ∙ ap (kept_for g) (others h g.id db (not_head h g met fresh)))
            (sync_each-Fresh (h.id ∷ met) hs db1 db' e')
            (sync_each-Synced (h.id ∷ met) hs db1 db' e'),
      )

module _ {F : Type 0} (hosts : List Host) (db : Database F) where
  drop_unknown-known :
      (id : String)
      → any (str_eq id) (ids_of hosts) ≡ true
      → current id (drop_unknown hosts db) ≡ current id db
  unfolding drop_unknown
  drop_unknown-known id m =
      same_parts (lookup-retain id _ db.latest_status ∙ rw m refl)
        (lookup-retain id _ db.latest_usage ∙ rw m refl)
        (lookup-retain id _ db.usage_coverage ∙ rw m refl)
        (lookup-retain id _ db.host_identity ∙ rw m refl)

  drop_unknown-unknown :
      (id : String)
      → any (str_eq id) (ids_of hosts) ≡ false
      → current id (drop_unknown hosts db) ≡ nothing
  unfolding drop_unknown
  drop_unknown-unknown id m =
      same_parts (lookup-retain id _ db.latest_status ∙ rw m refl)
        (lookup-retain id _ db.latest_usage ∙ rw m refl)
        (lookup-retain id _ db.usage_coverage ∙ rw m refl)
        (lookup-retain id _ db.host_identity ∙ rw m refl)

-- When a synchronisation succeeds, then of each configured host the tables keep the status and the
-- usage where its address is that of its identity before, and the coverage where usage was and is
-- enabled besides, and nothing else; its identity is the present one; and of any other host they
-- hold nothing.
pub sync_identities-Isolates :
    {F : Type 0} (is_ip_literal : String → Bool) (to_json : Signature → String) (hosts : List Host)
    (now : ℕ) (db db' : Database F)
    → sync_identities_in_transaction is_ip_literal to_json hosts now db ≡ ok db'
    → All (λ h. current h.id db' ≡ kept_for h (current h.id db)) hosts
      × ((id : String) → any (str_eq id) (ids_of hosts) ≡ false → current id db' ≡ nothing)
unfolding sync_identities_in_transaction sync_checks
sync_identities-Isolates is_ip_literal to_json hosts now db db' e =
    let (db1, e1, e2) = bind-ok (sync_each is_ip_literal [] hosts db) _ e in
    let same = ok-injective e2 in
    rw (← same) (
      All-zip _ _ _ hosts (λ h named synced. drop_unknown-known hosts db1 h.id named ∙ synced)
          (All-named hosts) (sync_each-Synced is_ip_literal [] hosts db db1 e1),
      λ id m. drop_unknown-unknown hosts db1 id m,
    )
