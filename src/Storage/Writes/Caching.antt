-- ===== src/Storage/Writes/Caching.antt =====
-- storage/sqlite/mod.rs: the cache of the writer beside the table of the latest usage.
use mathlib.Core.Path.{subst}
use simple_network_monitor.Prelude.{
  ◌≡◌, ◌∙◌, refl, sym, ap, inl, inr, ℕ, String, Bool, true, false, Option, none, some, List, [],
  ◌∷◌, arith, str_eq, any, ok, ok-injective, bind-ok, Bool-cases, Option-cases, if◌then◌else◌,
}
use simple_network_monitor.Domain.Usage.{UsageSnapshot}
use simple_network_monitor.Domain.Host.{Host}
use simple_network_monitor.History.Epochs.{Signature}
use simple_network_monitor.Storage.Tables.{Keyed, lookup, Identity, Database, Storage}
use simple_network_monitor.Storage.Tables.Lookups.{
  str_eq_refl, str_eq→≡, str_eq-sym, lookup-upserted, lookup-upserted_other, lookup-retain,
}
use simple_network_monitor.Storage.Identities.{moved, ids_of, sync_identities_in_transaction}
use simple_network_monitor.Storage.Identities.Isolation.{
  Current, current, nothing, kept_for, sync_identities-Isolates,
}
use simple_network_monitor.Storage.Reconfigure.{
  StoragePolicies, host_map, to_set, values, same_address, publish, apply_policies,
  replace_configuration, with_conn, register_policies,
}
use simple_network_monitor.Storage.Writes.Fencing.{replace_configuration-ok}
use simple_network_monitor.Storage.Startup.{load_cache, initial, new_initialized}
use simple_network_monitor.Storage.Reconfigure.Catalog.{
  find_host, lookup-host_map, find_host-Found, find_host-Missing, find_host-values, find_host-Named,
  host_map-IsKeyed, any-to_set,
}

-- The address that the identity of a host records, and the one that the catalog has.
abbrev pub recorded : Option Identity → Option String
recorded none = none
recorded (some p) = some p.address

abbrev pub configured : Option Host → Option String
configured none = none
configured (some h) = some h.address

-- For each id, the cache has what the table of the latest usage has, and the address of its identity
-- is that of the catalog.
abbrev pub Agrees : {F : Type 0} → String → Keyed Host → Keyed UsageSnapshot → Database F → Type 0
Agrees id hosts usage db =
    (lookup id usage ≡ lookup id db.latest_usage)
    × (recorded (lookup id db.host_identity) ≡ configured (lookup id hosts))

abbrev pub IsCoherent : {F : Type 0} → Storage F → Type 0
IsCoherent s = (id : String) → Agrees id s.hosts s.inner.usage s.inner.conn

-- What a reconfiguration keeps of a cached snapshot.
abbrev pub kept_snapshot : Option Host → Option Host → Option UsageSnapshot → Option UsageSnapshot
kept_snapshot old new cached = if same_address old new then cached else none

-- The state of a host with this catalog entry, after a synchronisation.
abbrev pub synced_for : {F : Type 0} → Option Host → Current F → Current F
synced_for none c = nothing
synced_for (some h) c = kept_for h c

kept_snapshot-Agrees :
    {F : Type 0} (old new : Option Host) (cached : Option UsageSnapshot) (c : Current F)
    → cached ≡ c.usage
    → recorded c.identity ≡ configured old
    → (kept_snapshot old new cached ≡ (synced_for new c).usage)
      × (recorded (synced_for new c).identity ≡ configured new)
kept_snapshot-Agrees none none cached c same_usage same_place = (refl, refl)
kept_snapshot-Agrees (some h) none cached c same_usage same_place = (refl, refl)
kept_snapshot-Agrees none (some g) cached c same_usage same_place = elim (Option-cases c.identity) [
  | inl e ↦ rw e (refl, refl)
  | inr (p, e) ↦ absurd (ground arith)
]
kept_snapshot-Agrees (some h) (some g) cached c same_usage same_place =
    elim (Option-cases c.identity) [
      | inl e ↦ absurd (ground arith)
      | inr (p, e) ↦
          let place : p.address ≡ h.address = ground arith in
          elim (Bool-cases (str_eq h.address g.address)) [
            | inl f ↦ rw (e, place, f) (same_usage, refl)
            | inr f ↦ rw (e, place, f) (refl, refl)
          ]
    ]

synced :
    {F : Type 0} (is_ip_literal : String → Bool) (to_json : Signature → String) (hosts : List Host)
    (now : ℕ) (db db' : Database F)
    → sync_identities_in_transaction is_ip_literal to_json hosts now db ≡ ok db'
    → (id : String) → current id db' ≡ synced_for (find_host id hosts) (current id db)
synced is_ip_literal to_json hosts now db db' e id =
    let (known, unknown) = sync_identities-Isolates is_ip_literal to_json hosts now db db' e in
    elim (Option-cases (find_host id hosts)) [
      | inl f ↦ rw f (unknown id (find_host-Missing id hosts f))
      | inr (h, f) ↦
          let (named, kept) = find_host-Found _ id hosts h known f in rw (f, ← named) kept
    ]

published :
    {F : Type 0} (hosts : List Host) (s : Storage F) (id : String)
    → lookup id (publish (to_set (ids_of hosts)) (host_map hosts) s).inner.usage
      ≡ kept_snapshot (lookup id s.hosts) (lookup id (host_map hosts)) (lookup id s.inner.usage)
unfolding publish
published hosts s id =
    lookup-retain id (λ k. any (str_eq k) (to_set (ids_of hosts))) _
    ∙ rw
        (
          any-to_set id (ids_of hosts),
          lookup-retain id (λ k. same_address (lookup k s.hosts) (lookup k (host_map hosts)))
              s.inner.usage,
        )
        (elim (Option-cases (find_host id hosts)) [
          | inl f ↦
              rw (lookup-host_map id hosts, f)
                (missing (any (str_eq id) (ids_of hosts)) (lookup id s.hosts) _)
          | inr (h, f) ↦ rw (find_host-Named id hosts h f) refl
        ])
  where
    missing :
        (b : Bool) (old : Option Host) (cached : Option UsageSnapshot)
        → (if b then (if same_address old none then cached else none) else none)
          ≡ kept_snapshot old none cached
    missing true old cached = refl
    missing false none cached = refl
    missing false (some h) cached = refl

-- The cache that start-up loads.
loaded :
    (hosts : List Host) (persisted : Keyed UsageSnapshot) (id : String)
    → lookup id (load_cache hosts persisted)
      ≡ (if any (str_eq id) (ids_of hosts) then lookup id persisted else none)
unfolding load_cache
loaded [] persisted id = refl
loaded (h ∷ hs) persisted id = elim (Bool-cases (str_eq h.id id)) [
  | inl f ↦
      let same = str_eq→≡ h.id id f in
      let found = str_eq_refl id in
      rw (same, found)
        (elim (Option-cases (lookup id persisted)) [
          | inl e ↦
              rw (e, loaded hs persisted id, e)
                (elim (Bool-cases (any (str_eq id) (ids_of hs))) [
                  | inl g ↦ rw g refl
                  | inr g ↦ rw g refl
                ])
          | inr (v, e) ↦ rw e (lookup-upserted id v (load_cache hs persisted))
        ])
  | inr f ↦
      let apart = str_eq-sym h.id id f in
      rw apart (elim (Option-cases (lookup h.id persisted)) [
        | inl e ↦ rw e (loaded hs persisted id)
        | inr (v, e) ↦
            rw e
              (lookup-upserted_other id h.id v (load_cache hs persisted) f ∙ loaded hs persisted id)
      ])
]

module _ {F : Type 0} where
  publish-Agrees :
      (hosts : List Host) (t : Storage F) (c : Current F) (id : String)
      → current id t.inner.conn ≡ synced_for (lookup id (host_map hosts)) c
      → lookup id t.inner.usage ≡ c.usage
      → recorded c.identity ≡ configured (lookup id t.hosts)
      → Agrees id
          (host_map hosts)
          (publish (to_set (ids_of hosts)) (host_map hosts) t).inner.usage
          t.inner.conn
  publish-Agrees hosts t c id e same_usage same_place =
      let (u, p) =
        kept_snapshot-Agrees (lookup id t.hosts) (lookup id (host_map hosts))
          (lookup id t.inner.usage) c same_usage same_place in
      (published hosts t id ∙ u ∙ sym (ap (λ d. d.usage) e), ap (λ d. recorded d.identity) e ∙ p)

  reconfigured :
      (hosts : List Host) (policies : Option StoragePolicies) (now : ℕ) (s : Storage F)
      (db : Database F) (id : String)
      → current id db ≡ synced_for (lookup id (host_map hosts)) (current id s.inner.conn)
      → Agrees id s.hosts s.inner.usage s.inner.conn
      → let t : Storage F =
          publish
            (to_set (ids_of hosts))
            (host_map hosts)
            (apply_policies policies (with_conn (register_policies policies now db) s)) in
        Agrees id t.hosts t.inner.usage t.inner.conn
  unfolding publish
  reconfigured hosts none now s db id e a =
      publish-Agrees hosts (with_conn db s) (current id s.inner.conn) id e a.0 a.1
  reconfigured hosts (some p) now s db id e a =
      publish-Agrees hosts
        (apply_policies (some p) (with_conn (register_policies (some p) now db) s))
        (current id s.inner.conn) id e a.0 a.1

  -- A replacement keeps the cache and the tables in agreement.
  pub replace_configuration-IsCoherent :
      (is_ip_literal : String → Bool) (to_json : Signature → String) (hosts : List Host)
      (policies : Option StoragePolicies) (now : ℕ) (s s' : Storage F)
      → replace_configuration is_ip_literal to_json hosts policies now s ≡ ok s'
      → IsCoherent s
      → IsCoherent s'
  replace_configuration-IsCoherent is_ip_literal to_json hosts policies now s s' e c =
      let (db, e1, same) =
        replace_configuration-ok is_ip_literal to_json hosts policies now s s' e in
      subst (λ t. IsCoherent t) same
        (λ id.
          reconfigured hosts policies now s db id
            (subst (λ o. current id db ≡ synced_for o (current id s.inner.conn))
              (find_host-values id (host_map hosts) (host_map-IsKeyed hosts))
              (synced is_ip_literal to_json (values (host_map hosts)) now s.inner.conn db e1 id))
            (c id))

  -- Start-up leaves them in agreement, whatever the database held.
  initial-IsCoherent :
      (hosts : List Host) (db : Database F) (c : String → Current F)
      → ((id : String) → current id db ≡ synced_for (find_host id hosts) (c id))
      → IsCoherent (initial hosts db)
  initial-IsCoherent hosts db c left id = elim (Option-cases (find_host id hosts)) [
    | inl f ↦
        let gone : current id db ≡ nothing = left id ∙ rw f refl in
        (
          loaded hosts db.latest_usage id
              ∙ rw (find_host-Missing id hosts f) (sym (ap (λ d. d.usage) gone)),
          ap (λ d. recorded d.identity) gone ∙ rw (lookup-host_map id hosts, f) refl,
        )
    | inr (h, f) ↦
        let there : current id db ≡ kept_for h (c id) = left id ∙ rw f refl in
        (
          loaded hosts db.latest_usage id ∙ rw (find_host-Named id hosts h f) refl,
          ap (λ d. recorded d.identity) there
              ∙ kept_identity h (c id)
              ∙ rw (lookup-host_map id hosts, f) refl,
        )
  ]
    where
      kept_identity : (h : Host) (d : Current F) → recorded (kept_for h d).identity ≡ some h.address
      kept_identity h d = elim (Bool-cases (moved h d.identity)) [
        | inl e ↦ rw e refl
        | inr e ↦ rw e refl
      ]

  pub new_initialized-IsCoherent :
      (is_ip_literal : String → Bool) (to_json : Signature → String) (hosts : List Host) (now : ℕ)
      (db : Database F) (s : Storage F)
      → new_initialized is_ip_literal to_json hosts now db ≡ ok s
      → IsCoherent s
  unfolding new_initialized
  new_initialized-IsCoherent is_ip_literal to_json hosts now db s e =
      let (db', e1, e2) =
        bind-ok (sync_identities_in_transaction is_ip_literal to_json hosts now db) _ e in
      subst (λ t. IsCoherent t) (ok-injective e2)
        (initial-IsCoherent hosts db' (λ id. current id db)
          (synced is_ip_literal to_json hosts now db db' e1))
