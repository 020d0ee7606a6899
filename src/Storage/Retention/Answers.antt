-- ===== src/Storage/Retention/Answers.antt =====
-- storage/sqlite/mod.rs, `prune_history`: what the history of usage answers after a prune.
use mathlib.Core.Path.{subst}
use simple_network_monitor.Prelude.{
  ℕ, ◌-◌, ◌≡◌, ◌≤◌, ap, ◌∙◌, sym, refl, String, true, Option, none, some, List, arith, ok,
  ok-injective, bind-ok, then-ok, reject, is_some,
}
use simple_network_monitor.Domain.Clock.{DateTime, Duration}
use simple_network_monitor.Domain.Usage.{UsageSnapshot}
use simple_network_monitor.Domain.Inactivity.{
  ActivityPredicate, evaluate_inactivity, sqlite_history,
}
use simple_network_monitor.History.Epochs.Currency.{Distinct}
use simple_network_monitor.Storage.Errors.{StorageError}
use simple_network_monitor.Storage.Tables.{lookup, Database, Storage, Chrono}
use simple_network_monitor.Storage.Updates.{checked_cutoff}
use simple_network_monitor.Storage.Reconfigure.{with_inner, is_stale}
use simple_network_monitor.Storage.Filtering.{above_floor}
use simple_network_monitor.Storage.Retention.{
  delete_limited, raise_floor, expire_samples, expire_histories, prune_history,
}
use simple_network_monitor.Storage.Retention.Anchors.{Limits, numbers, evaluate_inactivity-left}

raise_floor-le :
    (cutoff c : DateTime) (floor : Option DateTime)
    → above_floor c (raise_floor cutoff floor) ≡ true
    → cutoff ≤ c
raise_floor-le cutoff c none e = ground arith
raise_floor-le cutoff c (some floor) e = ground arith

-- What a prune that succeeds leaves.
module _ {F : Type 0} (chrono : Chrono) (limit : List ℕ → List ℕ) where
  expire_samples_keeps :
      (cutoff : DateTime) (retention : Option Duration) (db db' : Database F) (n : ℕ)
      → expire_samples chrono limit cutoff retention db ≡ ok (n, db')
      → (db'.usage_history ≡ db.usage_history)
        × (db'.latest_usage ≡ db.latest_usage)
        × (db'.retention_floor ≡ db.retention_floor)
  expire_samples_keeps now none db db' n e =
      let same = ap (λ q. q.1) (ok-injective e) in rw (← same) (refl, refl, refl)
  expire_samples_keeps now (some retention) db db' n e =
      let (cutoff, e1, e2) = bind-ok (checked_cutoff chrono now retention) _ e in
      let same = ap (λ q. q.1) (ok-injective e2) in rw (← same) (refl, refl, refl)

  expire_histories-Answers :
      (cutoff : DateTime) (db : Database F) (host : String) (snapshot : UsageSnapshot)
      (d : Duration) (at : DateTime) (p : ActivityPredicate)
      → Limits limit
      → Distinct (numbers db.usage_history.rows)
      → is_some (lookup host db.latest_usage) ≡ true
      → above_floor (at - d) (expire_histories limit cutoff db).1.retention_floor ≡ true
      → evaluate_inactivity {E = StorageError} snapshot d at p
          (sqlite_history (expire_histories limit cutoff db).1.usage_history.rows host)
        ≡ evaluate_inactivity snapshot d at p (sqlite_history db.usage_history.rows host)
  unfolding expire_histories delete_limited
  expire_histories-Answers cutoff db host snapshot d at p limits distinct known above =
      evaluate_inactivity-left limit limits db.latest_usage db.usage_history.rows distinct host
        known cutoff snapshot d at p (raise_floor-le cutoff (at - d) db.retention_floor above)

  prune_history-ok :
      (handle : Option ℕ) (now : DateTime) (s s' : Storage F) (n : ℕ)
      → prune_history chrono limit handle now s ≡ ok (n, s')
      → (cutoff : DateTime) × (db : Database F) × (db.usage_history ≡ s.inner.conn.usage_history)
        × (db.latest_usage ≡ s.inner.conn.latest_usage)
        × (s'.inner.conn ≡ (expire_histories limit cutoff db).1)
  unfolding prune_history with_inner
  prune_history-ok handle now s s' n h =
      let (fresh, h1) = then-ok (reject (is_stale handle s.inner) _) _ h in
      let ((m, inner), e, h2) = bind-ok _ _ h1 in
      let (cutoff, e1, e2) = bind-ok (checked_cutoff chrono now s.inner.history_retention) _ e in
      let ((k, db), e3, e4) =
        bind-ok (expire_samples chrono limit now s.inner.usage_sample_retention s.inner.conn) _
          e2 in
      let (rows, latest, floor) =
        expire_samples_keeps now s.inner.usage_sample_retention s.inner.conn db k e3 in
      let last = ap (λ q. q.1) (ok-injective e4) in
      let whole = ap (λ q. q.1) (ok-injective h2) in
      (cutoff, db, rows, latest, sym (ap (λ i. i.conn) last ∙ ap (λ t. t.inner.conn) whole))

  -- When a prune succeeds, the row numbers of the usage history were distinct and `LIMIT` keeps some
  -- of the selected rows, then for a host with a latest usage, an inactivity for a duration that
  -- starts above the retention floor is evaluated as before the prune.
  pub prune_history-Answers :
      (handle : Option ℕ) (now : DateTime) (s s' : Storage F) (n : ℕ) (host : String)
      (snapshot : UsageSnapshot) (d : Duration) (at : DateTime) (p : ActivityPredicate)
      → Limits limit
      → Distinct (numbers s.inner.conn.usage_history.rows)
      → is_some (lookup host s.inner.conn.latest_usage) ≡ true
      → prune_history chrono limit handle now s ≡ ok (n, s')
      → above_floor (at - d) s'.inner.conn.retention_floor ≡ true
      → evaluate_inactivity {E = StorageError} snapshot d at p
          (sqlite_history s'.inner.conn.usage_history.rows host)
        ≡ evaluate_inactivity snapshot d at p (sqlite_history s.inner.conn.usage_history.rows host)
  prune_history-Answers handle now s s' n host snapshot d at p limits distinct known h above =
      let (cutoff, db, rows, latest, conn) = prune_history-ok handle now s s' n h in
      let answers =
        expire_histories-Answers cutoff db host snapshot d at p limits
          (subst (λ t. Distinct (numbers t.rows)) (sym rows) distinct)
          (subst (λ t. is_some (lookup host t) ≡ true) (sym latest) known)
          (subst (λ t. above_floor (at - d) t.retention_floor ≡ true) conn above) in
      ap (λ t. evaluate_inactivity snapshot d at p (sqlite_history t.usage_history.rows host)) conn
      ∙ answers
      ∙ ap (λ t. evaluate_inactivity snapshot d at p (sqlite_history t.rows host)) rows
