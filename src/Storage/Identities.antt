-- ===== src/Storage/Identities.antt =====
-- storage/sqlite/maintenance.rs and tcp.rs: the current observations follow the identities of the
-- hosts. `incoming_hosts` and `incoming_tcp` are lists; the wall clock is an argument.
pub mod Isolation
use simple_network_monitor.Prelude.{
  ℕ, String, Bool, true, false, not, ◌&&◌, ◌||◌, Option, none, some, List, [], ◌∷◌, ◌++◌, map, ◌==◌,
  str_eq, any, retain, Result, ok, err, ◌>>=◌, ◌>>◌, map_err, reject, if◌then◌else◌,
}
use simple_network_monitor.Prelude.Float.{FloatOps}
use simple_network_monitor.Domain.Tcp.{TcpCheckConfig}
use simple_network_monitor.Domain.Host.{Host, validate_host}
use simple_network_monitor.History.Epochs.{Signature, sync_epochs}
use simple_network_monitor.Storage.Errors.{StorageError, invalid_data, internal}
use simple_network_monitor.Storage.Tables.{
  Keyed, lookup, delete_key, upsert, Identity, Database, TcpRow,
}

-- A row of `incoming_tcp`.
pub record IncomingTcp : Type 0 where
  pub host_id : String
  pub check_id : String
  pub address : String
  pub port : ℕ

abbrev pub incoming_check : Host → TcpCheckConfig → IncomingTcp
incoming_check h c = record {
  host_id = h.id;
  check_id = c.id.as_str;
  address = h.address;
  port = c.port;
}

-- The inserts for the hosts whose module is enabled. The keys are distinct: the hosts are, and
-- their checks have been validated.
unfoldable pub incoming_tcp : List Host → List IncomingTcp
incoming_tcp [] = []
incoming_tcp (h ∷ hs) =
    (if h.modules.tcp.enabled then map (incoming_check h) h.modules.tcp.checks else [])
    ++ incoming_tcp hs

unfoldable pub same_target : TcpRow → IncomingTcp → Bool
same_target r i =
    str_eq i.host_id r.host_id
    && str_eq i.check_id r.check_id
    && str_eq i.address r.address
    && i.port == r.port

unfoldable pub sync_checks : {F : Type 0} → List Host → Database F → Database F
unfolding incoming_tcp same_target
sync_checks hosts db = record db {
  latest_tcp = retain (λ r. any (same_target r) (incoming_tcp hosts)) db.latest_tcp;
}

-- `prior.is_none_or(|(address, _)| *address != host.address)`.
abbrev pub moved : Host → Option Identity → Bool
moved h none = true
moved h (some p) = not (str_eq p.address h.address)

abbrev pub was_disabled : Option Identity → Bool
was_disabled none = false
was_disabled (some p) = not p.usage_enabled

-- The deletes that the change of a host calls for.
unfoldable pub forget : {F : Type 0} → Host → Option Identity → Database F → Database F
forget h prior db =
    if moved h prior
    then record db {
      latest_status = delete_key h.id db.latest_status;
      latest_usage = delete_key h.id db.latest_usage;
      usage_coverage = delete_key h.id db.usage_coverage;
    }
    else if not h.modules.usage.enabled || was_disabled prior
    then record db { usage_coverage = delete_key h.id db.usage_coverage }
    else db

unfoldable pub sync_identity : {F : Type 0} → Host → Database F → Database F
unfolding forget
sync_identity h db =
    let db' = forget h (lookup h.id db.host_identity) db in
    record db' {
      host_identity =
          upsert h.id (record { address = h.address; usage_enabled = h.modules.usage.enabled })
            db'.host_identity;
    }

-- The loop over the hosts: `incoming` holds the ids inserted so far.
unfoldable pub sync_each :
    {F : Type 0}
    → (String → Bool)
    → List String
    → List Host
    → Database F
    → Result StorageError (Database F)
unfolding sync_identity validate_host
sync_each is_ip_literal incoming [] db = ok db
sync_each is_ip_literal incoming (h ∷ hs) db =
    let rest = sync_each is_ip_literal (h.id ∷ incoming) hs (sync_identity h db) in
    do
      map_err invalid_data (validate_host is_ip_literal h)
      reject (any (str_eq h.id) incoming) (internal "UNIQUE constraint failed")
      rest

abbrev pub ids_of : List Host → List String
ids_of hosts = map (λ h. h.id) hosts

abbrev pub known : {V : Type 0} → List Host → Keyed V → Keyed V
known hosts = retain (λ r. any (str_eq r.0) (ids_of hosts))

-- The loop over the four tables.
unfoldable pub drop_unknown : {F : Type 0} → List Host → Database F → Database F
drop_unknown hosts db = record db {
  latest_status = known hosts db.latest_status;
  latest_usage = known hosts db.latest_usage;
  usage_coverage = known hosts db.usage_coverage;
  host_identity = known hosts db.host_identity;
}

abbrev pub sync_histories :
    {F : Type 0} → (Signature → String) → List Host → ℕ → Database F → Database F
sync_histories to_json hosts now db = record db {
  history = sync_epochs to_json hosts now db.history;
}

unfoldable pub sync_identities_in_transaction :
    {F : Type 0}
    → (String → Bool)
    → (Signature → String)
    → List Host
    → ℕ
    → Database F
    → Result StorageError (Database F)
unfolding sync_each drop_unknown sync_checks sync_epochs
sync_identities_in_transaction is_ip_literal to_json hosts now db = do
  db' ← sync_each is_ip_literal [] hosts db
  ok (sync_histories to_json hosts now (sync_checks hosts (drop_unknown hosts db')))
