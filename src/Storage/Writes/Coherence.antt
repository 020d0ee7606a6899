-- ===== src/Storage/Writes/Coherence.antt =====
-- storage/sqlite/mod.rs: the cache of the writer from start-up on.
use mathlib.Core.Path.{subst}
use simple_network_monitor.Prelude.{
  ◌≡◌, ◌∙◌, refl, sym, ap, ℕ, String, Bool, Option, none, some, List, ok, ok-injective, bind-ok,
}
use simple_network_monitor.Prelude.Float.{FloatOps}
use simple_network_monitor.Domain.Clock.{DateTime}
use simple_network_monitor.Domain.Host.{Host, HostRuntimeState}
use simple_network_monitor.Domain.Usage.{UsageSnapshot}
use simple_network_monitor.History.Epochs.{Signature}
use simple_network_monitor.Storage.Tables.{Keyed, lookup, upsert, Database, Inner, Storage, Chrono}
use simple_network_monitor.Storage.Tables.Lookups.{lookup-upsert}
use simple_network_monitor.Storage.Startup.{new_initialized}
use simple_network_monitor.Storage.Updates.{
  prune_samples, write_check_result, record_check, status_row,
}
use simple_network_monitor.Storage.Writes.{store_usage, write_usage, write_tcp}
use simple_network_monitor.Storage.Writes.Fencing.{
  Stores, stored_check, stored_usage, stored_tcp, perform-ok, Evolves, started, wrote, replaced,
}
use simple_network_monitor.Storage.Writes.Caching.{
  Agrees, IsCoherent, new_initialized-IsCoherent, replace_configuration-IsCoherent,
}

module _ {F : Type 0} ⦃o : FloatOps F⦄ where
  store_usage-Agrees :
      (chrono : Chrono) (host : Host) (host_id : String) (snapshot : UsageSnapshot) (now : DateTime)
      (hosts : Keyed Host) (i j : Inner F) (fresh : Bool) (id : String)
      → store_usage chrono host host_id snapshot now i ≡ ok (fresh, j)
      → Agrees id hosts i.usage i.conn
      → Agrees id hosts j.usage j.conn
  unfolding store_usage write_usage
  store_usage-Agrees chrono host host_id snapshot now hosts i j fresh id e a =
      let (samples, e1, e2) =
        bind-ok (prune_samples chrono host_id now i.usage_sample_retention _) _ e in
      let same = ap (λ p. p.1) (ok-injective e2) in
      rw (← same) (
        lookup-upsert id host_id snapshot i.usage
            ∙ rw (a.0) (sym (lookup-upsert id host_id snapshot i.conn.latest_usage)),
        a.1,
      )

  recorded_keeps :
      (host : String) (state : HostRuntimeState) (at : Option DateTime) (now : DateTime)
      (db : Database F)
      → ((record_check host state at now db).latest_usage ≡ db.latest_usage)
        × ((record_check host state at now db).host_identity ≡ db.host_identity)
  recorded_keeps host state none now db = (refl, refl)
  recorded_keeps host state (some at) now db = (refl, refl)

  Stores-Agrees :
      {chrono : Chrono} {now : DateTime} {i j : Inner F} (hosts : Keyed Host) (id : String)
      → Stores chrono now i j
      → Agrees id hosts i.usage i.conn
      → Agrees id hosts j.usage j.conn
  unfolding write_check_result write_tcp
  Stores-Agrees {chrono} {now} {i} {j} hosts id (stored_check host state transition) a =
      let (u, p) =
        recorded_keeps host state state.last_checked_at now
          (record i.conn { latest_status = upsert host (status_row state) i.conn.latest_status }) in
      rw (u, p) a
  Stores-Agrees {chrono} {now} {i} {j} hosts id (stored_usage host key snapshot fresh j0 e) a =
      store_usage-Agrees chrono host key snapshot now hosts i j fresh id e a
  Stores-Agrees hosts id (stored_tcp host check port snapshot) a = a

  Evolves-IsCoherent : {s t : Storage F} {n : ℕ} → IsCoherent s → Evolves s n t → IsCoherent t
  Evolves-IsCoherent c started = c
  Evolves-IsCoherent c (wrote {n} {t} {u} chrono handle w now before e) =
      let (j, stored, same) = perform-ok chrono handle w now t u e in
      let held = Evolves-IsCoherent c before in
      subst (λ v. IsCoherent v) same (λ id. Stores-Agrees t.hosts id stored (held id))
  Evolves-IsCoherent c (replaced {n} {t} {u} is_ip_literal to_json hosts policies now before e) =
      replace_configuration-IsCoherent is_ip_literal to_json hosts policies now t u e
        (Evolves-IsCoherent c before)

  -- From start-up on, on whatever tables, and after any writes and replacements of the configuration,
  -- the cache of the writer holds for each host what the table of the latest usage holds.
  pub cache-IsCurrent :
      (is_ip_literal : String → Bool) (to_json : Signature → String) (hosts : List Host) (now : ℕ)
      (db : Database F) (s t : Storage F) (n : ℕ) (id : String)
      → new_initialized is_ip_literal to_json hosts now db ≡ ok s
      → Evolves s n t
      → lookup id t.inner.usage ≡ lookup id t.inner.conn.latest_usage
  cache-IsCurrent is_ip_literal to_json hosts now db s t n id e evolved =
      let held =
        Evolves-IsCoherent (new_initialized-IsCoherent is_ip_literal to_json hosts now db s e)
          evolved in
      (held id).0
