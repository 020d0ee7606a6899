-- ===== src/Storage/Jobs.antt =====
-- storage/sqlite/jobs.rs: the persistent maintenance jobs. The table `maintenance_jobs` is the list
-- of its rows; each function is one transaction, on a database that answers, and takes the wall
-- clock in milliseconds. The work of a job (`perform_job`) is the outcome handed to `finish`.
pub mod Schedule
pub mod Claims
pub mod Backoff
use simple_network_monitor.Prelude.{
  ℕ, ◌+◌, ◌*◌, ◌^◌, min, String, Bool, true, false, ◌&&◌, ◌||◌, Option, none, some, List, [], ◌∷◌,
  ◌++◌, map, ltb, leb, ◌==◌, str_eq, any, Result, ok, err, is_some, if◌then◌else◌,
}
use simple_network_monitor.Domain.Clock.{as_millis}
use simple_network_monitor.Domain.Maintenance.{
  JobKind, MaintenanceConfig, all_jobs, job_id, job_interval,
}

-- The texts of the column `status`; `succeeded` is 'ok'.
pub data JobStatus : Type 0 where
  pending running interrupted error succeeded : JobStatus

pub record Job : Type 0 where
  pub id : String
  pub status : JobStatus
  pub last_started_ms : Option ℕ
  pub last_success_ms : Option ℕ
  pub next_run_ms : ℕ
  pub duration_ms : Option ℕ
  pub work_done : ℕ
  pub failures : ℕ
  pub message : Option String

pub record Run : Type 0 where
  pub job_id : String
  pub started_ms : ℕ
  pub finished_ms : ℕ
  pub status : JobStatus
  pub work_done : ℕ
  pub message : Option String

abbrev pub is_running : Job → Bool
is_running j = elim j.status [ running ↦ true | _ ↦ false ]

abbrev pub named : String → Job → Bool
named id j = str_eq j.id id

-- `UPDATE maintenance_jobs SET … WHERE …`.
unfoldable pub update_where : (Job → Bool) → (Job → Job) → List Job → List Job
update_where p f [] = []
update_where p f (j ∷ js) = (if p j then f j else j) ∷ update_where p f js

abbrev pub new_job : String → ℕ → Job
new_job id now = record {
  id = id;
  status = pending;
  last_started_ms = none;
  last_success_ms = none;
  next_run_ms = now;
  duration_ms = none;
  work_done = 0;
  failures = 0;
  message = none;
}

-- `ON CONFLICT(id) DO UPDATE`.
abbrev pub bring_forward : MaintenanceConfig → ℕ → JobKind → Job → Job
bring_forward config now kind j = record j {
  next_run_ms = min j.next_run_ms (now + as_millis (job_interval kind config));
}

unfoldable pub register_job : MaintenanceConfig → ℕ → JobKind → List Job → List Job
unfolding update_where
register_job config now kind js =
    if any (named (job_id kind)) js
    then update_where (named (job_id kind)) (bring_forward config now kind) js
    else js ++ (new_job (job_id kind) now ∷ [])

abbrev pub register_each : MaintenanceConfig → ℕ → List JobKind → List Job → List Job
register_each config now [] js = js
register_each config now (k ∷ ks) js = register_each config now ks (register_job config now k js)

unfoldable pub register_jobs : MaintenanceConfig → ℕ → List Job → List Job
register_jobs config now js = register_each config now all_jobs js

unfoldable pub recover_maintenance : ℕ → List Job → List Job
recover_maintenance now = update_where is_running (λ j. record j {
  status = interrupted;
  message = some "Interrupted by service restart; retry scheduled";
  next_run_ms = now;
})

-- The rows that an earlier runner left running.
unfoldable pub retry_unfinished : ℕ → List Job → List Job
retry_unfinished now = update_where is_running (λ j. record j {
  status = error;
  failures = j.failures + 1;
  next_run_ms = now + 5000;
  message = some "Completion could not be persisted; retry scheduled";
})

-- `r` comes before the best row so far in `ORDER BY next_run_ms, id`. How SQLite orders texts is
-- its own; `before a b` says that it puts `a` first.
abbrev pub earlier : (String → String → Bool) → Job → Option Job → Bool
earlier before j none = true
earlier before j (some best) =
    ltb j.next_run_ms best.next_run_ms || j.next_run_ms == best.next_run_ms && before j.id best.id

-- `WHERE next_run_ms <= now ORDER BY next_run_ms, id LIMIT 1`.
unfoldable pub first_due : (String → String → Bool) → ℕ → Option Job → List Job → Option Job
first_due before now best [] = best
first_due before now best (j ∷ js) =
    first_due before now (if leb j.next_run_ms now && earlier before j best then some j else best)
      js

-- `JobKind::ALL.into_iter().find(|k| k.id() == id)`.
unfoldable pub kind_of : List JobKind → String → Option JobKind
kind_of [] id = none
kind_of (k ∷ ks) id = if str_eq (job_id k) id then some k else kind_of ks id

unfoldable pub start_job : JobKind → ℕ → List Job → List Job
start_job kind now =
    update_where (named (job_id kind))
      (λ j. record j { status = running; last_started_ms = some now; message = none })

abbrev pub start_claimed : ℕ → List Job → Option JobKind → List Job × Option JobKind
start_claimed now js none = (js, none)
start_claimed now js (some kind) = (start_job kind now js, some kind)

unfoldable pub claim : (String → String → Bool) → ℕ → List Job → List Job × Option JobKind
unfolding retry_unfinished first_due kind_of start_job
claim before now js =
    let kept = (if any is_running js then retry_unfinished now js else js) in
    start_claimed now kept
      (elim (first_due before now none kept) [ none ↦ none | some j ↦ kind_of all_jobs j.id ])

-- What `perform_job` returns: the work done, whether there is more, and a message.
abbrev pub Outcome : Type 0 → Type 0
Outcome E = Result E (ℕ × (Bool × Option String))

unfoldable pub retry_delay : ℕ → ℕ
retry_delay failures = min (5000 * 2 ^ min failures 9) 3600000

-- The counter of failures of the job; a row that is gone fails the query.
unfoldable pub failures_of : String → List Job → Option ℕ
failures_of id [] = none
failures_of id (j ∷ js) = if named id j then some j.failures else failures_of id js

abbrev pub finished : ℕ → ℕ → JobStatus → ℕ → ℕ → Bool → Option String → Job → Job
finished now duration status work delay good message j = record j {
  status = status;
  last_success_ms = if good then some now else j.last_success_ms;
  next_run_ms = now + delay;
  duration_ms = some duration;
  work_done = work;
  failures = if good then 0 else j.failures + 1;
  message = message;
}

-- The second transaction of a run: `none` where the query for the failures finds no row.
unfoldable pub finish :
    {E : Type 0}
    → MaintenanceConfig
    → JobKind
    → ℕ
    → ℕ
    → ℕ
    → Outcome E
    → List Job
    → List Run
    → Option (List Job × List Run)
unfolding update_where failures_of retry_delay
finish config kind started now duration (ok (work, (more, message))) js runs =
    let delay = if more then 1000 else as_millis (job_interval kind config) in
    some (
      update_where (named (job_id kind)) (finished now duration succeeded work delay true message)
          js,
      runs
          ++ (record {
            job_id = job_id kind;
            started_ms = started;
            finished_ms = now;
            status = succeeded;
            work_done = work;
            message = message;
          }
              ∷ []),
    )
finish config kind started now duration (err e) js runs = elim (failures_of (job_id kind) js) [
  | none ↦ none
  | some failures ↦
      let message = some "Database maintenance failed; see server logs. Retry scheduled." in
      some (
        update_where (named (job_id kind))
            (finished now duration error 0 (retry_delay failures) false message) js,
        runs
            ++ (record {
              job_id = job_id kind;
              started_ms = started;
              finished_ms = now;
              status = error;
              work_done = 0;
              message = message;
            }
                ∷ []),
      )
]

unfoldable pub complete :
    {E : Type 0}
    → MaintenanceConfig
    → ℕ
    → ℕ
    → ℕ
    → (JobKind → Outcome E)
    → List Run
    → List Job × Option JobKind
    → Option (List Job × (List Run × Bool))
unfolding finish
complete config started now duration perform runs (js, none) = some (js, (runs, false))
complete config started now duration perform runs (js, some kind) =
    elim (finish config kind started now duration (perform kind) js runs) [
      | none ↦ none
      | some (js', runs') ↦ some (js', (runs', true))
    ]

-- One call that owns the admission: claim a job, perform it, record how it went.
unfoldable pub run_due_maintenance :
    {E : Type 0}
    → (String → String → Bool)
    → MaintenanceConfig
    → ℕ
    → ℕ
    → ℕ
    → (JobKind → Outcome E)
    → List Job
    → List Run
    → Option (List Job × (List Run × Bool))
unfolding claim complete
run_due_maintenance before config started now duration perform js runs =
    complete config started now duration perform runs (claim before started js)
