-- ===== src/Storage/Jobs/Claims.antt =====
-- A claim starts one job at most, and the end of the run leaves none running.
use simple_network_monitor.Prelude.{
  ℕ, ◌≡◌, refl, ◌⊎◌, inl, inr, String, Bool, true, false, not, ◌&&◌, ◌||◌, Option, none, some, List,
  [], ◌∷◌, arith, leb, eq_iff, any, all, Result-cases, Bool-cases, Option-cases, if◌then◌else◌,
}
use simple_network_monitor.Domain.Maintenance.{JobKind, MaintenanceConfig, all_jobs, job_id}
use simple_network_monitor.Storage.Jobs.{
  Job, Run, Outcome, is_running, named, update_where, retry_unfinished, earlier, first_due, kind_of,
  start_job, start_claimed, claim, failures_of, finish, finished, succeeded, error, retry_delay,
  complete, run_due_maintenance,
}

abbrev pub idle : Job → Bool
idle j = not (is_running j)

-- A running row is the one of this kind.
abbrev pub only : JobKind → Job → Bool
only kind j = idle j || named (job_id kind) j

all-update_where :
    (p r q : Job → Bool) (f : Job → Job)
    → ((j : Job) → p j ≡ true → q (f j) ≡ true)
    → ((j : Job) → p j ≡ false → r j ≡ true → q j ≡ true)
    → (js : List Job) → all r js ≡ true
    → all q (update_where p f js) ≡ true
unfolding update_where
all-update_where p r q f new old [] h = refl
all-update_where p r q f new old (j ∷ js) h = elim (Bool-cases (p j)) [
  | inl e ↦ ground (arith, new j e, all-update_where p r q f new old js)
  | inr e ↦ ground (arith, old j e, all-update_where p r q f new old js)
]

all-true : (js : List Job) → all (λ j. true) js ≡ true
all-true [] = refl
all-true (j ∷ js) = ground (arith, all-true js)

none_running : (js : List Job) → any is_running js ≡ false → all idle js ≡ true
none_running [] h = refl
none_running (j ∷ js) h = ground (arith, none_running js)

retry_unfinished-Idle : (now : ℕ) (js : List Job) → all idle (retry_unfinished now js) ≡ true
unfolding retry_unfinished
retry_unfinished-Idle now js =
    all-update_where is_running (λ j. true) idle _ (λ j e. refl) (λ j e t. ground arith) js
      (all-true js)

start_job-Only :
    (kind : JobKind) (now : ℕ) (js : List Job)
    → all idle js ≡ true
    → all (only kind) (start_job kind now js) ≡ true
unfolding start_job
start_job-Only kind now js h =
    all-update_where (named (job_id kind)) idle (only kind) _ (λ j e. ground arith)
      (λ j e i. ground arith) js h

-- The row chosen is a row of the table, and is due.
first_due-IsDue :
    (before : String → String → Bool) (now : ℕ) (best : Option Job) (js : List Job) (j : Job)
    → first_due before now best js ≡ some j
    → (best ≡ some j) ⊎ (any (λ r. named j.id r && leb r.next_run_ms now) js ≡ true)
unfolding first_due
first_due-IsDue before now best [] j h = inl h
first_due-IsDue before now best (r ∷ rs) j h =
    let same = eq_iff r.id r.id in
    elim (first_due-IsDue before now
      (if leb r.next_run_ms now && earlier before r best then some r else best) rs j h) [
        | inr m ↦ inr (ground arith)
        | inl e ↦ elim (Bool-cases (leb r.next_run_ms now && earlier before r best)) [
          | inl taken ↦ let chosen : r ≡ j = ground arith in inr (rw (← chosen) (ground arith))
          | inr passed ↦ inl (ground arith)
        ]
      ]

kind_of-Id :
    (ks : List JobKind) (id : String) (kind : JobKind)
    → kind_of ks id ≡ some kind
    → job_id kind ≡ id
unfolding kind_of
kind_of-Id [] id kind h = ground arith
kind_of-Id (k ∷ ks) id kind h =
    let same = eq_iff (job_id k) id in ground (arith, kind_of-Id ks id kind)

failures_of-Found :
    (id : String) (js : List Job)
    → any (named id) js ≡ true
    → (n : ℕ) × (failures_of id js ≡ some n)
unfolding failures_of
failures_of-Found id [] h = ground arith
failures_of-Found id (j ∷ js) h = elim (Bool-cases (named id j)) [
  | inl e ↦ (j.failures, rw e refl)
  | inr e ↦ rw e (failures_of-Found id js (ground arith))
]

-- The claimed kind has a row in the table, which is due.
abbrev pub has_due : ℕ → Option JobKind → List Job → Bool
has_due now none js = true
has_due now (some kind) js = any (λ j. named (job_id kind) j && leb j.next_run_ms now) js

chosen_due :
    (before : String → String → Bool) (now : ℕ) (js : List Job) (best : Option Job)
    → first_due before now none js ≡ best
    → has_due now (elim best [ none ↦ none | some j ↦ kind_of all_jobs j.id ]) js ≡ true
chosen_due before now js none h = refl
chosen_due before now js (some j) h = elim (Option-cases (kind_of all_jobs j.id)) [
  | inl e ↦ rw e refl
  | inr (kind, e) ↦
      rw (e, kind_of-Id all_jobs j.id kind e)
        (elim (first_due-IsDue before now none js j h) [ inl z ↦ ground arith | inr m ↦ m ])
]

start_job_keeps :
    (kind : JobKind) (now started : ℕ) (js : List Job)
    → has_due now (some kind) js ≡ true
    → any (named (job_id kind)) (start_job kind started js) ≡ true
unfolding start_job update_where
start_job_keeps kind now started [] h = h
start_job_keeps kind now started (j ∷ js) h = elim (Bool-cases (named (job_id kind) j)) [
  | inl e ↦ ground arith
  | inr e ↦ ground (arith, start_job_keeps kind now started js)
]

finished_idle :
    (kind : JobKind) (f : Job → Job) (js : List Job)
    → ((j : Job) → idle (f j) ≡ true)
    → all (only kind) js ≡ true
    → all idle (update_where (named (job_id kind)) f js) ≡ true
finished_idle kind f js h only_kind =
    all-update_where (named (job_id kind)) (only kind) idle f (λ j e. h j) (λ j e o. ground arith)
      js only_kind

-- The call ends, and no row of its table is running.
abbrev pub settled : Option (List Job × (List Run × Bool)) → Bool
settled none = false
settled (some (js, rest)) = all idle js

finish-Settles :
    {E : Type 0} (config : MaintenanceConfig) (started now duration : ℕ) (kind : JobKind)
    (perform : JobKind → Outcome E) (js : List Job) (runs : List Run)
    → all (only kind) js ≡ true
    → any (named (job_id kind)) js ≡ true
    → settled (complete config started now duration perform runs (js, some kind)) ≡ true
unfolding complete finish
finish-Settles config started now duration kind perform js runs one there =
    elim (Result-cases (perform kind)) [
      | inl ((work, (more, message)), e) ↦
          rw (complete, e)
            (finished_idle kind (finished now duration succeeded work _ true message) js (λ j. refl)
              one)
      | inr (failure, e) ↦
          let (failures, found) = failures_of-Found (job_id kind) js there in
          rw (complete, e, finish, found)
            (finished_idle kind (finished now duration error 0 (retry_delay failures) false _) js
              (λ j. refl) one)
    ]

complete-Settles :
    {E : Type 0} (config : MaintenanceConfig) (started now duration : ℕ)
    (perform : JobKind → Outcome E) (js : List Job) (runs : List Run) (o : Option JobKind)
    → all idle js ≡ true
    → has_due started o js ≡ true
    → settled (complete config started now duration perform runs (start_claimed started js o))
      ≡ true
unfolding complete
complete-Settles config started now duration perform js runs none h due = h
complete-Settles config started now duration perform js runs (some kind) h due =
    finish-Settles config started now duration kind perform (start_job kind started js) runs
      (start_job-Only kind started js h) (start_job_keeps kind started started js due)

-- The rows that the claim starts from.
abbrev pub kept : ℕ → List Job → List Job
kept now js = if any is_running js then retry_unfinished now js else js

kept-Idle : (now : ℕ) (js : List Job) → all idle (kept now js) ≡ true
kept-Idle now js = elim (Bool-cases (any is_running js)) [
  | inl e ↦ rw e (retry_unfinished-Idle now js)
  | inr e ↦ rw e (none_running js e)
]

-- Whatever an earlier runner left behind, and whether the job succeeds or fails, one call of the
-- scheduler that owns the admission comes to a result, in whose table no job is running.
pub run_due_maintenance-Settles :
    {E : Type 0} (before : String → String → Bool) (config : MaintenanceConfig)
    (started now duration : ℕ) (perform : JobKind → Outcome E) (js : List Job) (runs : List Run)
    → settled (run_due_maintenance before config started now duration perform js runs) ≡ true
unfolding run_due_maintenance claim
run_due_maintenance-Settles before config started now duration perform js runs =
    complete-Settles config started now duration perform (kept started js) runs _
      (kept-Idle started js) (chosen_due before started (kept started js) _ refl)

-- A claimed kind is the only one that is running, and where none is claimed none is running.
abbrev pub exclusive : List Job × Option JobKind → Bool
exclusive (js, none) = all idle js
exclusive (js, some kind) = all (only kind) js

start_claimed-Exclusive :
    (now : ℕ) (js : List Job) (o : Option JobKind)
    → all idle js ≡ true
    → exclusive (start_claimed now js o) ≡ true
start_claimed-Exclusive now js none h = h
start_claimed-Exclusive now js (some kind) h = start_job-Only kind now js h

-- From any table, a claim leaves no row running but that of the job it claims.
pub claim-Exclusive :
    (before : String → String → Bool) (now : ℕ) (js : List Job)
    → exclusive (claim before now js) ≡ true
unfolding claim
claim-Exclusive before now js = start_claimed-Exclusive now (kept now js) _ (kept-Idle now js)
