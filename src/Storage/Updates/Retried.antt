-- ===== src/Storage/Updates/Retried.antt =====
-- A result that is written again: the runner sends a write once more when it is refused, and may then
-- send one that was stored.
use mathlib.Core.Path.{subst}
use simple_network_monitor.Prelude.{
  ℕ, suc, ◌≡◌, ap, refl, inl, inr, String, Bool, true, Option, none, some, List, [], ◌∷◌, ◌++◌,
  arith, ◌==◌, str_eq, any, ok, ok-injective, then-ok, reject, Bool-cases,
}
use simple_network_monitor.Prelude.Float.{FloatOps}
use simple_network_monitor.Domain.Clock.{DateTime, timestamp_millis}
use simple_network_monitor.Domain.Icmp.{HostStatus, unknown, up, down, IcmpTransition}
use simple_network_monitor.Domain.Host.{HostRuntimeState}
use simple_network_monitor.History.Ingest.Repeated.{record_observation-Again}
use simple_network_monitor.Storage.Tables.{Keyed, upsert, Numbered, Database, Storage, Inner}
use simple_network_monitor.Storage.Tables.Lookups.{str_eq_refl}
use simple_network_monitor.Storage.Updates.{
  status_same, same_event, insert_transition, add_transition, record_check, icmp_observation,
  status_row, write_check_result, store_check_result, update_check_result,
}
use simple_network_monitor.Storage.Reconfigure.{with_inner, ensure_host_exists, is_stale, with_conn}

upsert-Again :
    {V : Type 0} (id : String) (v : V) (table : Keyed V)
    → upsert id v (upsert id v table) ≡ upsert id v table
upsert-Again id v [] = rw (str_eq_refl id) refl
upsert-Again id v ((key, old) ∷ rest) = elim (Bool-cases (str_eq key id)) [
  | inl e ↦ rw (e, e) refl
  | inr e ↦ rw (e, e, upsert-Again id v rest) refl
]

status_same_refl : (s : HostStatus) → status_same s s ≡ true
status_same_refl unknown = refl
status_same_refl up = refl
status_same_refl down = refl

any-snoc :
    {A : Type 0} (p : A → Bool) (xs : List A) (x : A) → p x ≡ true → any p (xs ++ x ∷ []) ≡ true
any-snoc p [] x e = ground arith
any-snoc p (y ∷ ys) x e = ground (arith, any-snoc p ys x e)

module _ {F : Type 0} where
  same_event-New :
      (event : IcmpTransition F) (id : Option ℕ)
      → same_event event (record event { id = id }) ≡ true
  same_event-New event id =
      let at : (event.changed_at == event.changed_at) ≡ true = ground arith in
      rw
        (
          str_eq_refl event.host_id,
          at,
          status_same_refl event.previous_status,
          status_same_refl event.new_status,
        )
        refl

  insert_transition-Again :
      (event : IcmpTransition F) (table : Numbered (IcmpTransition F))
      → insert_transition event (insert_transition event table) ≡ insert_transition event table
  unfolding insert_transition
  insert_transition-Again event table = elim (Bool-cases (any (same_event event) table.rows)) [
    | inl there ↦ rw (there, there) refl
    | inr missing ↦
        let new = same_event-New event (some (suc table.last_id)) in
        let found =
          any-snoc (same_event event) table.rows (record event { id = some (suc table.last_id) })
            new in
        rw (missing, found) refl
  ]

  add_transition-Again :
      (event : Option (IcmpTransition F)) (table : Numbered (IcmpTransition F))
      → add_transition event (add_transition event table) ≡ add_transition event table
  unfolding add_transition
  add_transition-Again none table = refl
  add_transition-Again (some event) table = insert_transition-Again event table

module _ {F : Type 0} ⦃o : FloatOps F⦄ where
  record_check-Again :
      (host : String) (state : HostRuntimeState) (at : Option DateTime) (now : DateTime)
      (db : Database F)
      → (record_check host state at now (record_check host state at now db)).history
        ≡ (record_check host state at now db).history
  record_check-Again host state none now db = refl
  record_check-Again host state (some at) now db =
      record_observation-Again host "icmp" "" (timestamp_millis at) (timestamp_millis now)
        (icmp_observation state) db.history

  -- The transaction, at the time of the check.
  abbrev written :
      String
      → HostRuntimeState
      → Option DateTime
      → Option (IcmpTransition F)
      → DateTime
      → Database F
      → Database F
  written host state at event now db =
      let stored : Database F = record db {
        latest_status = upsert host (status_row state) db.latest_status;
      } in
      let recorded = record_check host state at now stored in
      record recorded { transitions = add_transition event recorded.transitions }

  written-Again :
      (host : String) (state : HostRuntimeState) (at : Option DateTime)
      (event : Option (IcmpTransition F)) (now : DateTime) (db : Database F)
      → written host state at event now (written host state at event now db)
        ≡ written host state at event now db
  written-Again host state none event now db =
      rw
        (
          upsert-Again host (status_row state) db.latest_status,
          add_transition-Again event db.transitions,
        )
        refl
  written-Again host state (some at) event now db =
      rw
        (
          upsert-Again host (status_row state) db.latest_status,
          add_transition-Again event db.transitions,
          record_observation-Again host "icmp" "" (timestamp_millis at) (timestamp_millis now)
              (icmp_observation state) db.history,
        )
        refl

  is_stale_conn :
      (handle : Option ℕ) (inner : Inner F) (db : Database F)
      → is_stale handle (record inner { conn = db }) ≡ is_stale handle inner
  is_stale_conn none inner db = refl
  is_stale_conn (some g) inner db = refl

  -- A result of a check that has been stored, and is sent again at the same time through the same
  -- handle, is stored again without a change: no second transition, and no second observation.
  pub update_check_result-Again :
      (handle : Option ℕ) (host : String) (state : HostRuntimeState)
      (event : Option (IcmpTransition F)) (now : DateTime) (s s' : Storage F)
      → update_check_result handle host state event now s ≡ ok (tt, s')
      → update_check_result handle host state event now s' ≡ ok (tt, s')
  unfolding update_check_result ensure_host_exists with_inner store_check_result write_check_result
  update_check_result-Again handle host state event now s s' h =
      let (there, h1) = then-ok (ensure_host_exists host s) _ h in
      let (fresh, h2) = then-ok (reject (is_stale handle s.inner) _) _ h1 in
      let db = written host state state.last_checked_at event now s.inner.conn in
      let same : with_conn db s ≡ s' = ap (λ q. q.1) (ok-injective h2) in
      subst (λ t. update_check_result handle host state event now t ≡ ok (tt, t)) same
        (rw
          (
            update_check_result,
            ensure_host_exists,
            there,
            with_inner,
            is_stale_conn handle s.inner db,
            fresh,
            written-Again host state state.last_checked_at event now s.inner.conn,
          )
          refl)
