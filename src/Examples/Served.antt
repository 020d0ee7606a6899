-- ===== src/Examples/Served.antt =====
-- The theorems about the API, the pages and the monitors on concrete data.
use simple_network_monitor.Prelude.{
  ℕ, ◌≡◌, ◌↔◌, ◌⊎◌, ◌≤◌, refl, inr, arith, String, Bool, true, false, not, Option, none, some,
  is_some, List, [], ◌∷◌, All, length, str_eq, eq_iff, any, Result, ok, err, is_err, leb,
  if◌then◌else◌,
}
use Prim.Native.String.{◌++◌ as ◌+++◌}
use simple_network_monitor.Domain.Clock.{DateTime, Duration, from_millis}
use simple_network_monitor.Domain.Host.{default_state}
use simple_network_monitor.Domain.Validation.{validate_address, validate_duration}
use simple_network_monitor.Storage.Errors.{busy, internal}
use simple_network_monitor.Storage.Tables.{Storage, Numbered, lookup}
use simple_network_monitor.Storage.Records.{HostRecord}
use simple_network_monitor.Api.Access.{
  ApiError, internal_error, readable, storage, authorize, error_response,
}
use simple_network_monitor.Api.Access.Bearer.{authorize-Bearer}
use simple_network_monitor.Api.Access.Redaction.{error_response-IsRedacted}
use simple_network_monitor.Api.Ready.{readyz}
use simple_network_monitor.Api.Ready.Currency.{IsCurrent, readyz-IsCurrent}
use simple_network_monitor.Backends.Tcp.{TcpRequest, TcpTransport, resolve_and_connect, run}
use simple_network_monitor.Backends.Tcp.Connecting.{connects, run_iff}
use simple_network_monitor.Monitor.Usage.{Collector, observe, persist, request_of}
use simple_network_monitor.Monitor.Usage.Stored.{observe-Stored}
use simple_network_monitor.Domain.Inactivity.{UsageRow}
use simple_network_monitor.Storage.Startup.{new_initialized}
use simple_network_monitor.Storage.Reconfigure.{host_map, is_stale}
use simple_network_monitor.Storage.Updates.{prune_samples}
use simple_network_monitor.History.Tables.{Event}
use simple_network_monitor.History.Events.{
  SelectedEpoch, selected_epoch, newest, joined, epochs, history_events,
}
use simple_network_monitor.History.Events.Cursor.{follow}
use simple_network_monitor.History.Events.Pages.{history_events-Enumerates}
use simple_network_monitor.Domain.Host.{Host, default_modules}
use simple_network_monitor.Domain.Tcp.{TcpCheckConfig, TcpSnapshot, default_tcp}
use simple_network_monitor.Monitor.Tcp.{prepared_jobs}
use simple_network_monitor.Monitor.Tcp.Stored.{IsTaken, prepared_jobs-IsTaken}
use simple_network_monitor.Domain.History.Stats.{default_stats}
use simple_network_monitor.History.Series.{HistoryBucket, HistorySeries, apply_span}
use simple_network_monitor.History.Series.Crediting.{bucket_of, credited, overlap, apply_span-at}
use simple_network_monitor.Examples.Recorded.{epoch, last_hours, last_hours-valid}
use simple_network_monitor.Examples.{thousandths, router, lab, fast}
use simple_network_monitor.Examples.Stored.{opened, blank, to_json, or_else, calendar, is_literal}

abbrev a_secret : Option String
a_secret = some "secret"

abbrev served : List (DateTime × HostRecord)
served =
    (
      40_000_000_000,
      record {
        host = router;
        state = record default_state { last_checked_at = some 3_000_000_000 };
        usage = none;
        tcp = [];
      },
    )
    ∷ (40_000_000_000, record { host = lab; state = default_state; usage = none; tcp = [] })
    ∷ []

readyz-IsCurrent_example :
    (((readyz ℕ served).code ≡ 200) ↔ All IsCurrent served)
    × (((readyz ℕ served).code ≡ 503) ↔ ¬ (All IsCurrent served))
readyz-IsCurrent_example = readyz-IsCurrent ℕ served

authorize-Bearer_example : (authorize str_eq a_secret (readable "Bearer secret") ≡ ok tt) ↔ (
    (a_secret ≡ none)
    ⊎ ((t : String) × (a_secret ≡ some t)
        × (readable "Bearer secret" ≡ readable ("Bearer " +++ t))))
authorize-Bearer_example = authorize-Bearer str_eq a_secret (readable "Bearer secret") eq_iff

-- A failure of SQLite, with the path of the database, and an error of the encoder.
abbrev of_sqlite : ApiError
of_sqlite = storage (internal "/var/lib/monitor.db: disk full")

abbrev of_encoder : ApiError
of_encoder = internal_error "page serialization failed"

neither_busy : (of_sqlite ≡ storage busy) ↔ (of_encoder ≡ storage busy)
neither_busy = (λ h. absurd cc, λ h. absurd cc)

error_response-IsRedacted_example :
    (error_response (λ e. "sqlite error") of_sqlite ≡ error_response (λ e. "another") of_encoder)
    × (500 ≤ (error_response (λ e. "sqlite error") of_sqlite).code)
error_response-IsRedacted_example =
    error_response-IsRedacted (λ e. "sqlite error") (λ e. "another") of_sqlite of_encoder refl refl
      neither_busy

-- The second of two addresses accepts.
abbrev two_addresses : TcpTransport ℕ
two_addresses = record {
  resolve = λ address port. ok (4 ∷ 6 ∷ []);
  connect = λ a. if leb a 4 then err "refused" else ok tt;
}

abbrev to_router : TcpRequest
to_router = record { address = "192.0.2.1"; port = 22; timeout = from_millis 500 }

run_iff_example :
    (run is_literal two_addresses (λ d x. some x) (from_millis 7) to_router ≡ ok (from_millis 7))
    ↔ ((validate_address is_literal to_router.address ≡ ok tt)
        × (validate_duration to_router.timeout ≡ ok tt)
        × (is_some {A = Result String Duration}
              (some (resolve_and_connect two_addresses (from_millis 7) to_router))
            ≡ true)
        × ((addresses : List ℕ) × (two_addresses.resolve to_router.address to_router.port
              ≡ ok addresses)
            × (any (connects two_addresses) addresses ≡ true)))
run_iff_example =
    run_iff two_addresses is_literal (λ d x. some x) (from_millis 7) to_router (λ d x. inr refl)

abbrev no_answer : Collector
no_answer r = err (record { message = "ssh exited with 255" })

opened-lab : lookup "lab1" opened.hosts ≡ some lab
unfolding new_initialized host_map
opened-lab = refl

opened-current : is_stale (some 0) opened.inner ≡ false
unfolding new_initialized
opened-current = refl

opened_unpruned :
    (table : Numbered UsageRow)
    → prune_samples calendar "lab1" 4_000_000_000 opened.inner.usage_sample_retention table
      ≡ ok table
unfolding new_initialized prune_samples
opened_unpruned table = refl

observe-Stored_example :
    ((fresh : Bool) × (s' : Storage ℕ) × (persist calendar
          (some 0)
          lab
          (observe no_answer 3_000_000_000 lab).0
          4_000_000_000
          opened
        ≡ ok (fresh, s'))
      × (lookup "lab1" s'.inner.conn.latest_usage ≡ some (observe no_answer 3_000_000_000 lab).0))
    × ((observe no_answer 3_000_000_000 lab).1 ≡ not (is_err (no_answer (request_of lab))))
observe-Stored_example =
    observe-Stored no_answer 3_000_000_000 calendar (some 0) lab lab 4_000_000_000 opened opened-lab
      opened-current (λ table. (table, opened_unpruned table))

abbrev event_at : ℕ → Event ℕ
event_at at = record { epoch_id = 1; at_ms = at; previous_state = some "down"; observation = fast }

-- The first event is before the range of the request.
abbrev three_events : List (ℕ × Event ℕ)
three_events =
    (5, event_at 1_000)
    ∷ (8, event_at 1_000_000_000)
    ∷ (9, event_at 1_000_060_000)
    ∷ (12, event_at 1_000_120_000)
    ∷ []

abbrev one_epoch : List (SelectedEpoch ℕ)
one_epoch = selected_epoch 1_012_345_678 epoch ∷ []

epochs-one : epochs last_hours 1_012_345_678 (epoch ∷ []) ≡ ok one_epoch
unfolding epochs
epochs-one = refl

newest-three : length (newest one_epoch last_hours three_events) ≤ 3
unfolding joined selected_epoch
newest-three = omega arith

history_events-Enumerates_example :
    follow 4
      (λ c. history_events last_hours c 2 false 1_012_345_678 (epoch ∷ []) [] three_events)
      none
    ≡ ok (newest one_epoch last_hours three_events)
history_events-Enumerates_example =
    history_events-Enumerates last_hours 1 3 1_012_345_678 false (epoch ∷ []) [] three_events
      one_epoch last_hours-valid (omega arith) epochs-one
      (omega arith, (omega arith, (omega arith, (omega arith, tt)))) newest-three

abbrev ssh_port : TcpCheckConfig
ssh_port = record { id = record { as_str = "ssh" }; port = 22 }

abbrev ssh_server : Host
ssh_server = record router {
  id = "s1";
  modules = record default_modules {
    tcp = record default_tcp { enabled = true; checks = ssh_port ∷ [] };
  };
}

abbrev serving : Storage ℕ
serving = or_else (new_initialized is_literal to_json (ssh_server ∷ []) 1_000 blank) opened

serving-known : lookup "s1" serving.hosts ≡ some ssh_server
unfolding new_initialized host_map
serving-known = refl

serving-current : is_stale (some 0) serving.inner ≡ false
unfolding new_initialized
serving-current = refl

abbrev refused : TcpSnapshot
refused = record { observed_at = 3_000_000_000; result = err "refused" }

prepared_jobs-IsTaken_example :
    All (IsTaken (some 0) refused 4_000_000_000 serving) (prepared_jobs (ssh_server ∷ []))
prepared_jobs-IsTaken_example =
    prepared_jobs-IsTaken (some 0) refused 4_000_000_000 serving (ssh_server ∷ [])
      (serving-known, tt) serving-current

abbrev blank_bucket : HistoryBucket ℕ
blank_bucket = record {
  start_ms = 0;
  end_ms = 300_000;
  eligible_ms = 0;
  stats = default_stats;
  latency_p95_ms = none;
}

abbrev all_hosts : List (HistorySeries ℕ)
all_hosts =
    record {
      id = "all";
      label = "All selected hosts";
      buckets = blank_bucket ∷ record blank_bucket { start_ms = 300_000; end_ms = 600_000 } ∷ [];
    }
    ∷ []

-- Two keys, the second of which has no series here.
abbrev two_keys : List (String × String)
two_keys = ("all", "All selected hosts") ∷ ("core", "core") ∷ []

apply_span-at_example :
    bucket_of "all" 1 (apply_span two_keys 200_000 450_000 0 300 fast all_hosts)
    ≡ credited (overlap 200_000 450_000 0 300_000 1) fast (bucket_of "all" 1 all_hosts)
apply_span-at_example =
    apply_span-at "all" two_keys 200_000 450_000 0 300 1 fast all_hosts (refl, (refl, tt)) refl
      (omega arith)
