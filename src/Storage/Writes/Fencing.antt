-- ===== src/Storage/Writes/Fencing.antt =====
-- storage/sqlite/mod.rs, `with_inner`: handles on an earlier generation.
use mathlib.Core.Path.{subst}
use simple_network_monitor.Prelude.{
  ℕ, suc, ◌+◌, ◌%◌, ◌^◌, ◌<◌, ◌≡◌, refl, ap, String, Bool, true, Option, none, some, List, arith,
  Result, ok, err, reject, is_err, is_err-then, is_err-bind, ok-injective, ◌∙◌, map_err, then-ok,
  bind-ok,
}
use simple_network_monitor.Prelude.Float.{FloatOps}
use simple_network_monitor.Domain.Clock.{DateTime, add_u64}
use simple_network_monitor.Domain.Host.{Host, HostRuntimeState}
use simple_network_monitor.Domain.Usage.{UsageSnapshot, validate_snapshot}
use simple_network_monitor.Domain.Icmp.{IcmpTransition}
use simple_network_monitor.Domain.Tcp.{CheckId, TcpSnapshot}
use simple_network_monitor.History.Epochs.{Signature}
use simple_network_monitor.Storage.Errors.{StorageError, invalid_data}
use simple_network_monitor.Storage.Tables.{Inner, Storage, Chrono, Database, lookup}
use simple_network_monitor.Storage.Identities.{ids_of, sync_identities_in_transaction}
use simple_network_monitor.Storage.Reconfigure.{
  StoragePolicies, with_inner, is_stale, with_conn, register_policies, replace_configuration,
  monitor_generation, ensure_host_exists, publish, is_duplicated, apply_policies, values, host_map,
  to_set,
}
use simple_network_monitor.Storage.Updates.{
  update_check_result, store_check_result, write_check_result, prune_samples,
}
use simple_network_monitor.Storage.Writes.{
  Write, check_result, usage, tcp, perform, update_usage, update_tcp, done, store_usage, store_tcp,
  write_tcp, host_or_missing, check_or_missing,
}

module _ {F : Type 0} where
  abbrev pub generation_of : Storage F → ℕ
  generation_of s = s.inner.generation

  with_inner-ok :
      {A : Type 0} (handle : Option ℕ) (f : Inner F → Result StorageError (A × Inner F))
      (s : Storage F) (a : A) (s' : Storage F)
      → with_inner handle f s ≡ ok (a, s')
      → (b : A) × (j : Inner F) × (f s.inner ≡ ok (b, j)) × (record s { inner = j } ≡ s')
  unfolding with_inner
  with_inner-ok handle f s a s' h =
      let (fresh, h1) = then-ok (reject (is_stale handle s.inner) _) _ h in
      let ((b, j), e, h2) = bind-ok (f s.inner) _ h1 in (b, j, e, ap (λ p. p.1) (ok-injective h2))

  -- A stale handle fails before anything is run.
  with_inner-Stale :
      {A : Type 0} (handle : Option ℕ) (f : Inner F → Result StorageError (A × Inner F))
      (s : Storage F)
      → is_stale handle s.inner ≡ true
      → is_err (with_inner handle f s) ≡ true
  unfolding with_inner
  with_inner-Stale handle f s h = rw h refl

  is_err-done :
      {A : Type 0} (r : Result StorageError (A × Storage F))
      → is_err r ≡ true
      → is_err (done r) ≡ true
  is_err-done (ok a) h = h
  is_err-done (err e) h = refl

  apply_policies-Generation :
      (policies : Option StoragePolicies) (s : Storage F)
      → generation_of (apply_policies policies s) ≡ generation_of s
  apply_policies-Generation none s = refl
  apply_policies-Generation (some p) s = refl

  -- The storage that a replacement leaves where the synchronisation leaves `db`.
  abbrev pub replacement :
      List Host → Option StoragePolicies → ℕ → Storage F → Database F → Storage F
  replacement hosts policies now s db =
      publish (to_set (ids_of hosts)) (host_map hosts)
        (apply_policies policies (with_conn (register_policies policies now db) s))

  pub replace_configuration-ok :
      (is_ip_literal : String → Bool) (to_json : Signature → String) (hosts : List Host)
      (policies : Option StoragePolicies) (now : ℕ) (s s' : Storage F)
      → replace_configuration is_ip_literal to_json hosts policies now s ≡ ok s'
      → (db : Database F) × (sync_identities_in_transaction is_ip_literal to_json
            (values (host_map hosts))
            now
            s.inner.conn
          ≡ ok db)
        × (replacement hosts policies now s db ≡ s')
  unfolding replace_configuration
  replace_configuration-ok is_ip_literal to_json hosts policies now s s' h =
      let (distinct, h1) = then-ok (reject (is_duplicated hosts) _) _ h in
      let (db, e, h2) =
        bind-ok
          (sync_identities_in_transaction is_ip_literal to_json (values (host_map hosts)) now
            s.inner.conn)
          _ h1 in
      (db, e, ok-injective h2)

  -- The generation of a replacement that succeeds is the next one.
  replace_configuration-Generation :
      (is_ip_literal : String → Bool) (to_json : Signature → String) (hosts : List Host)
      (policies : Option StoragePolicies) (now : ℕ) (s s' : Storage F)
      → replace_configuration is_ip_literal to_json hosts policies now s ≡ ok s'
      → generation_of s' ≡ add_u64 (generation_of s) 1
  unfolding publish
  replace_configuration-Generation is_ip_literal to_json hosts policies now s s' h =
      let (db, e, same) =
        replace_configuration-ok is_ip_literal to_json hosts policies now s s' h in
      rw (← same) (
        ap (λ n. add_u64 n 1)
          (apply_policies-Generation policies (with_conn (register_policies policies now db) s)))

module _ {F : Type 0} ⦃o : FloatOps F⦄ where
  done-ok :
      {A : Type 0} (r : Result StorageError (A × Storage F)) (s' : Storage F)
      → done r ≡ ok s'
      → (a : A) × (r ≡ ok (a, s'))
  done-ok (ok (a, s)) s' h = (a, ap (λ x. ok (a, x)) (ok-injective h))
  done-ok (err e) s' h = cc

  -- What a write that succeeds does behind the mutex.
  pub data Stores (chrono : Chrono) (now : DateTime) (i : Inner F) : Inner F → Type 0 where
    stored_check :
        (host : String) (state : HostRuntimeState) (transition : Option (IcmpTransition F))
        → Stores chrono now i
            (record i { conn = write_check_result host state transition now i.conn })
    stored_usage :
        (host : Host) (id : String) (snapshot : UsageSnapshot) (fresh : Bool) (j : Inner F)
        → store_usage chrono host id snapshot now i ≡ ok (fresh, j)
        → Stores chrono now i j
    stored_tcp :
        (host : Host) (id : CheckId) (port : ℕ) (snapshot : TcpSnapshot)
        → Stores chrono now i (record i { conn = write_tcp host id port snapshot now i.conn })

  pub perform-ok :
      (chrono : Chrono) (handle : Option ℕ) (w : Write F) (now : DateTime) (s s' : Storage F)
      → perform chrono handle w now s ≡ ok s'
      → (j : Inner F) × Stores chrono now s.inner j × (record s { inner = j } ≡ s')
  unfolding perform update_check_result update_usage update_tcp store_check_result store_tcp
  perform-ok chrono handle (check_result host state transition) now s s' h =
      let (a, e) = done-ok (update_check_result handle host state transition now s) s' h in
      let (there, e1) = then-ok (ensure_host_exists host s) _ e in
      let (b, j, e2, same) =
        with_inner-ok handle (store_check_result host state transition now) s a s' e1 in
      let left = ap (λ p. p.1) (ok-injective e2) in
      (j, subst (Stores chrono now s.inner) left (stored_check host state transition), same)
  perform-ok chrono handle (usage host snapshot) now s s' h =
      let (a, e) = done-ok (update_usage chrono handle host snapshot now s) s' h in
      let (there, e1) = then-ok (ensure_host_exists host s) _ e in
      let (valid, e2) = then-ok (map_err invalid_data (validate_snapshot snapshot)) _ e1 in
      let (found, e3, e4) = bind-ok (host_or_missing host (lookup host s.hosts)) _ e2 in
      let (b, j, e5, same) =
        with_inner-ok handle (store_usage chrono found host snapshot now) s a s' e4 in
      (j, stored_usage found host snapshot b j e5, same)
  perform-ok chrono handle (tcp host id snapshot) now s s' h =
      let (a, e) = done-ok (update_tcp handle host id snapshot now s) s' h in
      let (found, e1, e2) = bind-ok (host_or_missing host (lookup host s.hosts)) _ e in
      let (check, e3, e4) = bind-ok (check_or_missing id found) _ e2 in
      let (b, j, e5, same) =
        with_inner-ok handle (store_tcp found id check.port snapshot now) s a s' e4 in
      let left = ap (λ p. p.1) (ok-injective e5) in
      (j, subst (Stores chrono now s.inner) left (stored_tcp found id check.port snapshot), same)

  Stores-keeps :
      {chrono : Chrono} {now : DateTime} {i j : Inner F}
      → Stores chrono now i j
      → j.generation ≡ i.generation
  unfolding store_usage
  Stores-keeps (stored_check host state transition) = refl
  Stores-keeps {chrono} {now} {i} (stored_usage host id snapshot fresh j e) =
      let (samples, e1, e2) =
        bind-ok (prune_samples chrono id now i.usage_sample_retention _) _ e in
      let same = ap (λ p. p.1) (ok-injective e2) in rw (← same) refl
  Stores-keeps (stored_tcp host id port snapshot) = refl

  perform_keeps :
      (chrono : Chrono) (handle : Option ℕ) (w : Write F) (now : DateTime) (s s' : Storage F)
      → perform chrono handle w now s ≡ ok s'
      → generation_of s' ≡ generation_of s
  perform_keeps chrono handle w now s s' h =
      let (j, stored, same) = perform-ok chrono handle w now s s' h in
      rw (← same) (Stores-keeps stored)

  -- A write through a stale handle fails.
  stale_write :
      (chrono : Chrono) (handle : Option ℕ) (w : Write F) (now : DateTime) (s : Storage F)
      → is_stale handle s.inner ≡ true
      → is_err (perform chrono handle w now s) ≡ true
  unfolding perform update_check_result update_usage update_tcp
  stale_write chrono handle (check_result host state transition) now s h =
      is_err-done (update_check_result handle host state transition now s) (
        is_err-then (ensure_host_exists host s) _
          (with_inner-Stale handle (store_check_result host state transition now) s h))
  stale_write chrono handle (usage host snapshot) now s h =
      is_err-done (update_usage chrono handle host snapshot now s) (
        is_err-then (ensure_host_exists host s) _ (
          is_err-then (map_err invalid_data (validate_snapshot snapshot)) _ (
            is_err-bind (host_or_missing host (lookup host s.hosts)) _
              (λ found. with_inner-Stale handle (store_usage chrono found host snapshot now) s h))))
  stale_write chrono handle (tcp host id snapshot) now s h =
      is_err-done (update_tcp handle host id snapshot now s) (
        is_err-bind (host_or_missing host (lookup host s.hosts)) _ (λ found.
          is_err-bind (check_or_missing id found) _
            (λ check. with_inner-Stale handle (store_tcp found id check.port snapshot now) s h)))

  -- What a storage goes through: writes by any handle, and `n` replacements of the configuration.
  pub data Evolves (s : Storage F) : ℕ → Storage F → Type 0 where
    started : Evolves s 0 s
    wrote :
        {n : ℕ} {t u : Storage F} (chrono : Chrono) (handle : Option ℕ) (w : Write F)
        (now : DateTime)
        → Evolves s n t
        → perform chrono handle w now t ≡ ok u
        → Evolves s n u
    replaced :
        {n : ℕ} {t u : Storage F} (is_ip_literal : String → Bool) (to_json : Signature → String)
        (hosts : List Host) (policies : Option StoragePolicies) (now : ℕ)
        → Evolves s n t
        → replace_configuration is_ip_literal to_json hosts policies now t ≡ ok u
        → Evolves s (suc n) u

  Evolves-Generation :
      {s t : Storage F} {n : ℕ}
      → generation_of s < 2 ^ 64
      → Evolves s n t
      → generation_of t ≡ (generation_of s + n) % 2 ^ 64
  Evolves-Generation small started = omega arith
  Evolves-Generation small (wrote {n} {t} {u} chrono handle w now before e) =
      perform_keeps chrono handle w now t u e ∙ Evolves-Generation small before
  Evolves-Generation small
        (replaced {n} {t} {u} is_ip_literal to_json hosts policies now before e) =
      let next = replace_configuration-Generation is_ip_literal to_json hosts policies now t u e in
      let was = Evolves-Generation small before in omega arith

  -- A handle that was taken of a storage is refused by each write, once the configuration has been
  -- replaced between one and 2^64 - 1 times, whatever writes came in between.
  pub perform-IsFenced :
      (chrono : Chrono) (w : Write F) (now : DateTime) (s t : Storage F) (n : ℕ)
      → generation_of s < 2 ^ 64
      → 0 < n
      → n < 2 ^ 64
      → Evolves s n t
      → is_err (perform chrono (monitor_generation s) w now t) ≡ true
  unfolding monitor_generation
  perform-IsFenced chrono w now s t n small some_time few evolved =
      let g = Evolves-Generation small evolved in
      stale_write chrono (some (generation_of s)) w now t (ground arith)
