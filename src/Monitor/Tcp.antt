-- ===== src/Monitor/Tcp.antt =====
-- modules/tcp/mod.rs and monitor.rs: the jobs of the hosts, one attempt, and how it is stored. The
-- connector of a job is an argument.
pub mod Stored
use simple_network_monitor.Prelude.{
  ℕ, String, Bool, Option, List, [], ◌∷◌, ◌++◌, Result, retain, is_err, not,
}
use simple_network_monitor.Prelude.Float.{FloatOps}
use simple_network_monitor.Domain.Clock.{Duration, DateTime}
use simple_network_monitor.Domain.Tcp.{CheckId, TcpCheckConfig, TcpSnapshot}
use simple_network_monitor.Domain.Host.{Host}
use simple_network_monitor.Backends.Tcp.{TcpRequest}
use simple_network_monitor.Storage.Errors.{StorageError}
use simple_network_monitor.Storage.Tables.{Storage}
use simple_network_monitor.Storage.Writes.{update_tcp}

pub record TcpJob : Type 0 where
  pub host_id : String
  pub check_id : CheckId
  pub interval : Duration
  pub request : TcpRequest

unfoldable pub job_of : Host → TcpCheckConfig → TcpJob
job_of h check = record {
  host_id = h.id;
  check_id = check.id;
  interval = h.modules.tcp.interval;
  request = record { address = h.address; port = check.port; timeout = h.modules.tcp.timeout };
}

-- The loop over the checks of a host.
unfoldable pub host_jobs : Host → List TcpCheckConfig → List TcpJob
unfolding job_of
host_jobs h [] = []
host_jobs h (c ∷ cs) = job_of h c ∷ host_jobs h cs

unfoldable pub jobs : List Host → List TcpJob
unfolding host_jobs
jobs [] = []
jobs (h ∷ hs) = host_jobs h h.modules.tcp.checks ++ jobs hs

-- `prepare` takes the hosts for which TCP is on.
unfoldable pub prepared_jobs : List Host → List TcpJob
unfolding jobs
prepared_jobs hosts = jobs (retain (λ h. h.modules.tcp.enabled) hosts)

-- `observe`: the snapshot, and whether the attempt succeeded.
unfoldable pub observe :
    (TcpRequest → Result String Duration) → DateTime → TcpJob → TcpSnapshot × Bool
observe connect observed job =
    let result = connect job.request in
    (record { observed_at = observed; result = result }, not (is_err result))

unfoldable pub persist :
    {F : Type 0} ⦃o : FloatOps F⦄
    → Option ℕ
    → TcpJob
    → TcpSnapshot
    → DateTime
    → Storage F
    → Result StorageError (Unit {0} × Storage F)
unfolding update_tcp
persist handle job snapshot now s = update_tcp handle job.host_id job.check_id snapshot now s
