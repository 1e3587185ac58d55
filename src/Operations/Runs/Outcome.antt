-- ===== src/Operations/Runs/Outcome.antt =====
-- How a job run ends, and what becomes of its lease.
use semiconductor_intelligen.Prelude.{
  ℕ, ◌+◌, ◌≤◌, ◌<◌, String, ◌≡◌, refl, ap, subst, inl, inr, Bool, true, false, not, none, some,
  List, [], ◌∷◌, ◌++◌, arith, ==_iff, Bool-cases, Option-cases, is_some, filter, find, All,
}
use semiconductor_intelligen.Prelude.Rows.{find-true, find-none}
use semiconductor_intelligen.Operations.Lease.{
  OperationalJobType, OperationalTriggerType, OperationalJobStatus, OperationalJobLease,
  OperationalJobRun, Db, LeaseResult, scheduled, running, deferred, skipped, acquired, refused,
  minutes, is_lease_of, add_run, same_token, release, new_lease, acquire,
}
use semiconductor_intelligen.Operations.Lease.Exclusion.{IsValid, acquire_free, acquire_held}
use semiconductor_intelligen.Operations.Runs.{
  SchedulerSettings, Execution, raised, is_run, finish_run, has_token, release_token, run_job,
  retry_job, release_found, run_leased, retry_run,
}

abbrev pub is_terminal : OperationalJobStatus → Bool
is_terminal scheduled = false
is_terminal running = false
is_terminal deferred = false
is_terminal _ = true

All-without :
    (lease : OperationalJobLease) (ls : List OperationalJobLease)
    → All (λ l. has_token lease.lock_token l ≡ false) (filter (λ l. not (same_token lease l)) ls)
All-without lease [] = tt
All-without lease (l ∷ ls) = elim (Bool-cases (same_token lease l)) [
  | inl e ↦ rw e (All-without lease ls)
  | inr e ↦ rw e (e, All-without lease ls)
]

release_token-gone :
    (token : ℕ) (db : Db) → All (λ l. has_token token l ≡ false) (release_token token db).leases
unfolding release_token
release_token-gone token db = elim (Option-cases (find (has_token token) db.leases)) [
  | inl e ↦ rw e (find-none (has_token token) db.leases e)
  | inr (lease, e) ↦
      let same =
        (==_iff lease.lock_token token).0 (find-true (has_token token) db.leases lease e) in
      rw (e, release_found)
        (subst
          (λ t. All (λ l. has_token t l ≡ false) (filter (λ l. not (same_token lease l)) db.leases))
          same (All-without lease db.leases))
]

pub runs-release_token : (token : ℕ) (db : Db) → (release_token token db).runs ≡ db.runs
unfolding release_token
runs-release_token token db = elim (Option-cases (find (has_token token) db.leases)) [
  | inl e ↦ rw e refl
  | inr (lease, e) ↦ rw e refl
]

without_fresh :
    (ls : List OperationalJobLease) (new : OperationalJobLease)
    → All (λ l. l.lock_token < new.lock_token) ls
    → filter (λ l. not (same_token new l)) (ls ++ new ∷ []) ≡ ls
without_fresh [] new h = ground arith
without_fresh (l ∷ ls) new h =
    let other : same_token new l ≡ false = ground (arith, h.0) in
    rw other (ap (λ t. l ∷ t) (without_fresh ls new h.1))

find_fresh :
    (ls : List OperationalJobLease) (new : OperationalJobLease)
    → All (λ l. l.lock_token < new.lock_token) ls
    → find (has_token new.lock_token) (ls ++ new ∷ []) ≡ some new
find_fresh [] new h = ground arith
find_fresh (l ∷ ls) new h =
    let other : has_token new.lock_token l ≡ false = ground (arith, h.0) in
    rw other (find_fresh ls new h.1)

module _ (settings : SchedulerSettings) (execute : Db → Execution × Db) (finished : ℕ)
    (job_type : OperationalJobType) (trigger : OperationalTriggerType) (now : ℕ)
    (owner : String) where
  run_leased-is_terminal :
      (result : LeaseResult) (db : Db)
      → let job = (run_leased settings execute finished job_type trigger now owner result db).0 in
        (is_terminal job.status ≡ true) × (is_some job.finished_at ≡ true)
  unfolding run_leased
  run_leased-is_terminal (refused lease) db = (refl, refl)
  run_leased-is_terminal (acquired lease recovered) db = ground arith

  run_leased-releases :
      (result : LeaseResult) (db : Db) (token : ℕ)
      → (run_leased settings execute finished job_type trigger now owner result db).0.lock_token
        ≡ some token
      → All
          (λ l. has_token token l ≡ false)
          (run_leased settings execute finished job_type trigger now owner result db).1.leases
  unfolding run_leased finish_run
  run_leased-releases (refused lease) db token h = cc
  run_leased-releases (acquired lease recovered) db token h =
      let same : lease.lock_token ≡ token = ground arith in
      subst
        (λ t.
          All (λ l. has_token t l ≡ false)
            (run_leased settings execute finished job_type trigger now owner
              (acquired lease recovered) db).1.leases)
        same (release_token-gone lease.lock_token _)

  -- However the body of the job ends, and whatever other sessions do meanwhile, the run that
  -- `run_job` returns has a terminal status and a finishing time.
  pub run_job-finishes :
      (db : Db)
      → let job = (run_job settings execute finished job_type trigger now owner db).0 in
        (is_terminal job.status ≡ true) × (is_some job.finished_at ≡ true)
  unfolding run_job
  run_job-finishes db =
      let (result, db') = acquire job_type settings.maximum_job_duration_minutes now owner db in
      run_leased-is_terminal result db'

  -- However the body of the job ends, and whatever other sessions do meanwhile, no lease with the
  -- token of the run that `run_job` returns is left behind it.
  pub run_job-releases :
      (db : Db) (token : ℕ)
      → (run_job settings execute finished job_type trigger now owner db).0.lock_token ≡ some token
      → All
          (λ l. has_token token l ≡ false)
          (run_job settings execute finished job_type trigger now owner db).1.leases
  unfolding run_job
  run_job-releases db =
      let (result, db') = acquire job_type settings.maximum_job_duration_minutes now owner db in
      run_leased-releases result db'

  -- While the lease of its type is held and has not expired, a job is skipped: the returned run
  -- has the status `skipped` and no token, and adding it is the only change to the tables.
  pub run_job-skips :
      (db : Db) (held : OperationalJobLease)
      → find (is_lease_of job_type) db.leases ≡ some held
      → now < held.expires_at
      → let (job, db') = run_job settings execute finished job_type trigger now owner db in
        (job.status ≡ skipped) × (job.lock_token ≡ none) × (db' ≡ add_run job db)
  unfolding run_job
  run_job-skips db held e lt =
      rw (acquire_held job_type settings.maximum_job_duration_minutes now owner db held e lt)
        (refl, refl, refl)

-- In a valid table without a lease of its type, a job whose body leaves the two tables alone
-- gives the table of leases back as it found it, whether the body returned or raised.
pub run_job-restores :
    (settings : SchedulerSettings) (execution : Execution) (finished : ℕ)
    (job_type : OperationalJobType) (trigger : OperationalTriggerType) (now : ℕ) (owner : String)
    (db : Db)
    → IsValid db
    → find (is_lease_of job_type) db.leases ≡ none
    → let (job, db') =
        run_job settings (λ d. (execution, d)) finished job_type trigger now owner db in
      (db'.leases ≡ db.leases)
unfolding run_job release_token release
run_job-restores settings execution finished job_type trigger now owner db v e =
    let new = new_lease job_type settings.maximum_job_duration_minutes now owner db.next_token in
    rw (acquire_free job_type settings.maximum_job_duration_minutes now owner db e)
      (rw (find_fresh db.leases new v.issued, release_found) (without_fresh db.leases new v.issued))

-- Whatever attempt a recorded run was, its retry with a body that raises and leaves the tables
-- alone, while no lease of its type is in the table and the settings allow at least one retry,
-- has the next attempt number and a time for a further retry.
pub retry-reschedules :
    (settings : SchedulerSettings) (finished now : ℕ) (owner : String) (db : Db) (id : ℕ)
    (original : OperationalJobRun)
    → find (is_run id) db.runs ≡ some original
    → find (is_lease_of original.job_type) db.leases ≡ none
    → 1 ≤ settings.maximum_automatic_retries
    → (job : OperationalJobRun) × (db' : Db) × (retry_job settings
          (λ d. (raised, d))
          finished
          now
          owner
          id
          db
        ≡ some (job, db'))
      × (job.attempt_number ≡ original.attempt_number + 1)
      × (job.next_retry_at ≡ some (now + minutes settings.retry_delay_minutes))
unfolding retry_job run_job finish_run
retry-reschedules settings finished now owner db id original f e h =
    rw
      (
        f,
        retry_run,
        acquire_free original.job_type settings.maximum_job_duration_minutes now owner db e,
      )
      (_, _, refl, refl, ground arith)
