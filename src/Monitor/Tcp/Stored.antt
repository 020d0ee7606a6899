-- ===== src/Monitor/Tcp/Stored.antt =====
-- What the storage does with the attempts of the jobs.
use mathlib.Core.Path.{subst}
use simple_network_monitor.Prelude.{
  ℕ, ◌≡◌, refl, ap, sym, inl, inr, arith, String, Bool, true, false, ◌&&◌, Option, none, some, List,
  [], ◌∷◌, All, any, All-append, retain, if◌then◌else◌, str_eq, ok, err, Bool-cases,
}
use simple_network_monitor.Prelude.Float.{FloatOps}
use simple_network_monitor.Domain.Clock.{DateTime}
use simple_network_monitor.Domain.Tcp.{CheckId, TcpCheckConfig, ResolvedTcpHostConfig, TcpSnapshot}
use simple_network_monitor.Domain.Host.{Host}
use simple_network_monitor.Storage.Errors.{invalid_data}
use simple_network_monitor.Storage.Tables.{Storage, TcpRow, lookup}
use simple_network_monitor.Storage.Tables.Lookups.{str_eq_refl}
use simple_network_monitor.Storage.Reconfigure.{with_inner, is_stale}
use simple_network_monitor.Storage.Writes.{
  find_check, check_or_missing, update_tcp, store_tcp, write_tcp, upsert_tcp,
}
use simple_network_monitor.Monitor.Tcp.{TcpJob, job_of, host_jobs, jobs, prepared_jobs, persist}

-- The check that is found by its identifier has that identifier.
find_check-Finds :
    (id : CheckId) (tcp : ResolvedTcpHostConfig) (cs : List TcpCheckConfig)
    → tcp.enabled ≡ true
    → any (λ c. str_eq c.id.as_str id.as_str) cs ≡ true
    → (c : TcpCheckConfig) × (find_check id tcp cs ≡ some c)
unfolding find_check
find_check-Finds id tcp [] on h = cc
find_check-Finds id tcp (c ∷ cs) on h = elim (Bool-cases (str_eq c.id.as_str id.as_str)) [
  | inl e ↦ (c, rw (e, on) refl)
  | inr e ↦ let (found, f) = find_check-Finds id tcp cs on (ground (arith, h)) in (found, rw e f)
]

check_present :
    (id : CheckId) (h : Host) (c : TcpCheckConfig)
    → find_check id h.modules.tcp h.modules.tcp.checks ≡ some c
    → check_or_missing id h ≡ ok c
check_present id h c found =
    ap (λ f. elim f [ none ↦ err (invalid_data "TCP check is absent or disabled") | some c ↦ ok c ])
      found

abbrev pub has_id : TcpCheckConfig → TcpCheckConfig → Bool
has_id c d = str_eq d.id.as_str c.id.as_str

-- Each of the checks is among those that hold them.
held :
    (cs ds : List TcpCheckConfig)
    → ((c : TcpCheckConfig) → any (has_id c) cs ≡ true → any (has_id c) ds ≡ true)
    → All (λ c. any (has_id c) ds ≡ true) cs
held [] ds within = tt
held (c ∷ cs) ds within =
    let self = str_eq_refl c.id.as_str in
    (within c (rw self refl), held cs ds (λ d h. within d (ground (arith, h))))

-- The row of a check in the table of the latest results.
abbrev pub row_of : String → String → List TcpRow → Option TcpRow
row_of host check [] = none
row_of host check (r ∷ rs) =
    let rest = row_of host check rs in
    if str_eq r.host_id host && str_eq r.check_id check then some r else rest

row_of-upserted :
    (row : TcpRow) (rows : List TcpRow)
    → row_of row.host_id row.check_id (upsert_tcp row rows) ≡ some row
unfolding upsert_tcp
row_of-upserted row [] =
    let host = str_eq_refl row.host_id in
    let check = str_eq_refl row.check_id in rw (host, check) refl
row_of-upserted row (r ∷ rs) =
    elim (Bool-cases (str_eq r.host_id row.host_id && str_eq r.check_id row.check_id)) [
      | inl e ↦
          let host = str_eq_refl row.host_id in
          let check = str_eq_refl row.check_id in rw (e, host, check) refl
      | inr e ↦ rw (e, e) (row_of-upserted row rs)
    ]

module _ {F : Type 0} ⦃o : FloatOps F⦄ (handle : Option ℕ) (snapshot : TcpSnapshot) (now : DateTime)
    (s : Storage F) where
  -- The storage takes the snapshot for a job, and keeps it under the address of the job.
  abbrev pub IsTaken : TcpJob → Type 0
  IsTaken job =
      (s' : Storage F) × (row : TcpRow) × (persist handle job snapshot now s ≡ ok (tt, s'))
      × (row_of job.host_id job.check_id.as_str s'.inner.conn.latest_tcp ≡ some row)
      × (row.snapshot ≡ snapshot)
      × (row.address ≡ job.request.address)

  job_of-IsTaken :
      (h : Host) (c : TcpCheckConfig)
      → lookup h.id s.hosts ≡ some h
      → h.modules.tcp.enabled ≡ true
      → is_stale handle s.inner ≡ false
      → any (has_id c) h.modules.tcp.checks ≡ true
      → IsTaken (job_of h c)
  unfolding persist update_tcp with_inner store_tcp write_tcp job_of
  job_of-IsTaken h c known on fresh mine =
      let (found, f) = find_check-Finds c.id h.modules.tcp h.modules.tcp.checks on mine in
      let row : TcpRow = record {
        host_id = h.id;
        check_id = c.id.as_str;
        address = h.address;
        port = found.port;
        snapshot = snapshot;
      } in
      (
        record s {
          inner = record s.inner { conn = write_tcp h c.id found.port snapshot now s.inner.conn };
        },
        row,
        rw (known, check_present c.id h found f, fresh) refl,
        row_of-upserted row s.inner.conn.latest_tcp,
        refl,
        refl,
      )

  host_jobs-IsTaken :
      (h : Host) (cs : List TcpCheckConfig)
      → lookup h.id s.hosts ≡ some h
      → h.modules.tcp.enabled ≡ true
      → is_stale handle s.inner ≡ false
      → All (λ c. any (has_id c) h.modules.tcp.checks ≡ true) cs
      → All IsTaken (host_jobs h cs)
  unfolding host_jobs
  host_jobs-IsTaken h [] known on fresh a = tt
  host_jobs-IsTaken h (c ∷ cs) known on fresh a =
      (job_of-IsTaken h c known on fresh a.0, host_jobs-IsTaken h cs known on fresh a.1)

  -- Whatever an attempt of a job gives that is prepared of the hosts of a storage, the storage takes
  -- it, as long as the handle is current, and keeps it as the latest result of the check, under the
  -- address that was tried.
  pub prepared_jobs-IsTaken :
      (hosts : List Host)
      → All (λ h. lookup h.id s.hosts ≡ some h) hosts
      → is_stale handle s.inner ≡ false
      → All IsTaken (prepared_jobs hosts)
  unfolding prepared_jobs jobs
  prepared_jobs-IsTaken [] known fresh = tt
  prepared_jobs-IsTaken (h ∷ hosts) known fresh =
      let rest = prepared_jobs-IsTaken hosts known.1 fresh in
      elim (Bool-cases h.modules.tcp.enabled) [
        | inl on ↦
            let mine = held h.modules.tcp.checks h.modules.tcp.checks (λ c e. e) in
            subst
              (λ b. All IsTaken (
                jobs (
                  if b
                  then h ∷ retain (λ g. g.modules.tcp.enabled) hosts
                  else retain (λ g. g.modules.tcp.enabled) hosts)))
              (sym on)
              (All-append IsTaken (host_jobs h h.modules.tcp.checks) (prepared_jobs hosts)
                (host_jobs-IsTaken h h.modules.tcp.checks known.0 on fresh mine) rest)
        | inr off ↦
            subst
              (λ b. All IsTaken (
                jobs (
                  if b
                  then h ∷ retain (λ g. g.modules.tcp.enabled) hosts
                  else retain (λ g. g.modules.tcp.enabled) hosts)))
              (sym off) rest
      ]
