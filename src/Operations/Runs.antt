-- ===== src/Operations/Runs.antt =====
-- semi_intel/operations/scheduler.py, OperationalScheduler: running one job, retrying it, and
-- reconciling runs that a dead worker left behind.
pub mod Failure
pub mod Outcome
pub mod Reconciled
use semiconductor_intelligen.Prelude.{
  ℕ, ◌+◌, String, Bool, true, false, not, ◌&&◌, Option, none, some, List, [], ◌∷◌, map, leb, ◌==◌,
  if◌then◌else◌, filter, find, contains, update_first, sort_by,
}
use semiconductor_intelligen.Operations.Lease.{
  OperationalJobType, OperationalTriggerType, OperationalJobStatus, OperationalJobLease,
  OperationalJobRun, Db, LeaseResult, retry, running, successful, partial, failed, skipped,
  abandoned, acquired, refused, minutes, new_run, add_run, release, acquire, active,
}

pub record SchedulerSettings : Type 0 where
  pub maximum_job_duration_minutes : ℕ
  pub retry_delay_minutes : ℕ
  pub maximum_automatic_retries : ℕ
  pub stale_run_threshold_minutes : ℕ

-- How the body of a job ends: it returns its `partial` flag, or raises.
pub data Execution : Type 0 where
  returned : Bool → Execution
  raised : Execution

abbrev pub is_run : ℕ → OperationalJobRun → Bool
is_run id run = run.id == id

-- What the `try` statement of `run_job` writes to the row of the job.
unfoldable pub finish_run :
    SchedulerSettings → ℕ → ℕ → Execution → OperationalJobRun → OperationalJobRun
finish_run settings now finished (returned partial_result) job = record job {
  status = if partial_result then partial else successful;
  finished_at = some finished;
}
finish_run settings now finished raised job = record job {
  status = failed;
  next_retry_at =
      if leb job.attempt_number settings.maximum_automatic_retries
      then some (now + minutes settings.retry_delay_minutes)
      else job.next_retry_at;
  finished_at = some finished;
}

-- `finally`: the lease with the job's token is released, if it is still in the table.
abbrev pub has_token : ℕ → OperationalJobLease → Bool
has_token token lease = lease.lock_token == token

release_found : Option OperationalJobLease → Db → Db
release_found none db = db
release_found (some lease) db = release lease db

unfoldable pub release_token : ℕ → Db → Db
unfolding release_found release
release_token token db = release_found (find (has_token token) db.leases) db

-- `execute` is `_execute` with what the job body and other sessions do to the two tables while it
-- runs; `finished` is the clock at the end.
module _ (settings : SchedulerSettings) (execute : Db → Execution × Db) (finished : ℕ)
    (job_type : OperationalJobType) (trigger : OperationalTriggerType) (now : ℕ)
    (owner : String) where
  run_leased : LeaseResult → Db → OperationalJobRun × Db
  unfolding finish_run release_token update_first
  run_leased (refused active_lease) db =
      let job =
        let skip : OperationalJobRun = new_run job_type trigger skipped owner now db.next_id in
        record skip { finished_at = some now } in
      (job, add_run job db)
  run_leased (acquired lease recovered) db =
      let job =
        let start : OperationalJobRun = new_run job_type trigger running owner now db.next_id in
        record start { lock_token = some lease.lock_token } in
      let (execution, db') = execute (add_run job db) in
      let finish = finish_run settings now finished execution in
      (
        finish job,
        release_token lease.lock_token
            (record db' { runs = update_first (is_run job.id) finish db'.runs }),
      )

  unfoldable pub run_job : Db → OperationalJobRun × Db
  unfolding run_leased
  run_job db =
      let (result, db') = acquire job_type settings.maximum_job_duration_minutes now owner db in
      run_leased result db'

-- OperationalScheduler.retry: none is `No operational job with id`.
module _ (settings : SchedulerSettings) (execute : Db → Execution × Db) (finished : ℕ) (now : ℕ)
    (owner : String) where
  retry_run : Option OperationalJobRun → Db → Option (OperationalJobRun × Db)
  unfolding run_job update_first
  retry_run none db = none
  retry_run (some original) db =
      let (job, db') = run_job settings execute finished original.job_type retry now owner db in
      let link = λ (run : OperationalJobRun). record run {
        parent_retry_id = some original.id;
        attempt_number = original.attempt_number + 1;
      } in
      some (link job, record db' { runs = update_first (is_run job.id) link db'.runs })

  unfoldable pub retry_job : ℕ → Db → Option (OperationalJobRun × Db)
  unfolding retry_run
  retry_job job_id db = retry_run (find (is_run job_id) db.runs) db

-- OperationalScheduler.reconcile_stale_runs
abbrev pub is_running : OperationalJobStatus → Bool
is_running running = true
is_running _ = false

module _ (settings : SchedulerSettings) (now : ℕ) where
  -- `started_at <= cutoff`
  abbrev pub is_stale : OperationalJobRun → Bool
  is_stale run =
      is_running run.status
      && leb (run.started_at + minutes settings.stale_run_threshold_minutes) now

  abbrev pub is_protected : List ℕ → OperationalJobRun → Bool
  is_protected active_tokens run = elim run.lock_token [
    | none ↦ false
    | some token ↦ contains active_tokens token
  ]

  abbrev pub active_tokens : Db → List ℕ
  active_tokens db = map (λ lease. lease.lock_token) (active now db)

  abbrev is_orphan : List ℕ → OperationalJobRun → Bool
  is_orphan tokens run = is_stale run && not (is_protected tokens run)

  -- The rows are objects of the session: the loop changes them where they stand in the table.
  abandon : List ℕ → OperationalJobRun → OperationalJobRun
  abandon tokens run =
      if is_orphan tokens run
      then record run { status = abandoned; finished_at = some now }
      else run

  -- The ids that the loop appends, oldest first.
  reconciled_ids : List ℕ → List OperationalJobRun → List ℕ
  reconciled_ids tokens runs =
      map (λ (run : OperationalJobRun). run.id)
        (sort_by (λ (run : OperationalJobRun). run.started_at) (filter (is_orphan tokens) runs))

  drop_expired : List ℕ → Db → Db
  drop_expired [] db = db
  drop_expired (id ∷ ids) db = record db {
    leases = filter (λ lease. not (leb lease.expires_at now)) db.leases;
  }

  unfoldable pub reconcile_stale_runs : Db → List ℕ × Db
  unfolding abandon reconciled_ids drop_expired active
  reconcile_stale_runs db =
      let tokens = active_tokens db in
      let ids = reconciled_ids tokens db.runs in
      (ids, drop_expired ids (record db { runs = map (abandon tokens) db.runs }))
