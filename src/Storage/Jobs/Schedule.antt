-- ===== src/Storage/Jobs/Schedule.antt =====
-- What registering, claiming and finishing leave in the table of jobs.
use simple_network_monitor.Prelude.{
  ℕ, ◌+◌, ◌≡◌, refl, ◌⊎◌, inl, inr, Bool, true, ◌&&◌, ◌||◌, List, [], ◌∷◌, ◌++◌, arith, leb, eq_iff,
  any, Bool-cases,
}
use simple_network_monitor.Domain.Clock.{as_millis}
use simple_network_monitor.Domain.Maintenance.{
  JobKind, rollup, retention, reclaim, optimize, checkpoint, job_history, MaintenanceConfig,
  all_jobs, job_id, job_interval,
}
use simple_network_monitor.Storage.Jobs.{
  Job, named, update_where, bring_forward, new_job, register_job, register_each, register_jobs,
}

any-update_where :
    (p q : Job → Bool) (f : Job → Job)
    → ((j : Job) → p j ≡ true → q j ≡ true → q (f j) ≡ true)
    → (js : List Job) → any q js ≡ true
    → any q (update_where p f js) ≡ true
unfolding update_where
any-update_where p q f keeps [] h = h
any-update_where p q f keeps (j ∷ js) h = elim (Bool-cases (p j)) [
  | inl e ↦ ground (arith, keeps j, any-update_where p q f keeps js)
  | inr e ↦ ground (arith, any-update_where p q f keeps js)
]

any-updated :
    (p q : Job → Bool) (f : Job → Job)
    → ((j : Job) → p j ≡ true → q (f j) ≡ true)
    → (js : List Job) → any p js ≡ true
    → any q (update_where p f js) ≡ true
unfolding update_where
any-updated p q f reaches [] h = h
any-updated p q f reaches (j ∷ js) h = elim (Bool-cases (p j)) [
  | inl e ↦ ground (arith, reaches j)
  | inr e ↦ ground (arith, any-updated p q f reaches js)
]

any-append :
    (q : Job → Bool) (js ks : List Job) → (any q js || any q ks) ≡ true → any q (js ++ ks) ≡ true
any-append q [] ks h = h
any-append q (j ∷ js) ks h = elim (Bool-cases (q j)) [
  | inl e ↦ ground arith
  | inr e ↦ ground (arith, any-append q js ks)
]

-- The table has a row of the kind that is due no later than one interval from now.
abbrev pub scheduled : MaintenanceConfig → ℕ → JobKind → List Job → Bool
scheduled config now kind =
    any
      (λ j. named (job_id kind) j && leb j.next_run_ms (now + as_millis (job_interval kind config)))

register_job-Schedules :
    (config : MaintenanceConfig) (now : ℕ) (kind : JobKind) (js : List Job)
    → scheduled config now kind (register_job config now kind js) ≡ true
unfolding register_job
register_job-Schedules config now kind js = elim (Bool-cases (any (named (job_id kind)) js)) [
  | inl e ↦ rw e (any-updated _ _ _ (λ j h. ground arith) js e)
  | inr e ↦ rw e (
      any-append _ js (new_job (job_id kind) now ∷ [])
        (let same = eq_iff (job_id kind) (job_id kind) in ground arith))
]

register_job_keeps :
    (config : MaintenanceConfig) (now : ℕ) (kind other : JobKind) (js : List Job)
    → scheduled config now kind js ≡ true
    → scheduled config now kind (register_job config now other js) ≡ true
unfolding register_job
register_job_keeps config now kind other js h = elim (Bool-cases (any (named (job_id other)) js)) [
  | inl e ↦ rw e (
      any-update_where (named (job_id other)) _ (bring_forward config now other)
        (λ j n q. ground arith) js h)
  | inr e ↦ rw e (any-append _ js (new_job (job_id other) now ∷ []) (ground arith))
]

Among : JobKind → List JobKind → Type 0
Among kind [] = ⊥
Among kind (k ∷ ks) = (k ≡ kind) ⊎ Among kind ks

register_each-Schedules :
    (config : MaintenanceConfig) (now : ℕ) (kind : JobKind) (ks : List JobKind) (js : List Job)
    → Among kind ks ⊎ (scheduled config now kind js ≡ true)
    → scheduled config now kind (register_each config now ks js) ≡ true
unfolding Among
register_each-Schedules config now kind [] js (inr h) = h
register_each-Schedules config now kind [] js (inl h) = elim h [ ]
register_each-Schedules config now kind (k ∷ ks) js (inl (inl e)) =
    register_each-Schedules config now kind ks (register_job config now k js)
      (inr (rw e (register_job-Schedules config now kind js)))
register_each-Schedules config now kind (k ∷ ks) js (inl (inr m)) =
    register_each-Schedules config now kind ks (register_job config now k js) (inl m)
register_each-Schedules config now kind (k ∷ ks) js (inr h) =
    register_each-Schedules config now kind ks (register_job config now k js)
      (inr (register_job_keeps config now kind k js h))

all_jobs-IsComplete : (kind : JobKind) → Among kind all_jobs
unfolding Among
all_jobs-IsComplete rollup = inl refl
all_jobs-IsComplete retention = inr (inl refl)
all_jobs-IsComplete reclaim = inr (inr (inl refl))
all_jobs-IsComplete optimize = inr (inr (inr (inl refl)))
all_jobs-IsComplete checkpoint = inr (inr (inr (inr (inl refl))))
all_jobs-IsComplete job_history = inr (inr (inr (inr (inr (inl refl)))))

-- After the jobs are registered, whatever the table held before, each of the six kinds has a row
-- whose next run is no later than one of its intervals from now.
pub register_jobs-Schedules :
    (config : MaintenanceConfig) (now : ℕ) (kind : JobKind) (js : List Job)
    → scheduled config now kind (register_jobs config now js) ≡ true
unfolding register_jobs
register_jobs-Schedules config now kind js =
    register_each-Schedules config now kind all_jobs js (inl (all_jobs-IsComplete kind))
