-- ===== src/Operations/Runs/Failure.antt =====
-- Runs that do not succeed.
use semiconductor_intelligen.Prelude.{
  ℕ, ◌<◌, String, ◌≡◌, refl, sym, ◌∙◌, ◌≢◌, true, false, some, find,
}
use semiconductor_intelligen.Operations.Lease.{
  OperationalJobType, OperationalTriggerType, OperationalJobLease, OperationalJobRun, Db,
  LeaseResult, successful, skipped, acquired, refused, is_lease_of, acquire,
}
use semiconductor_intelligen.Operations.Runs.{
  SchedulerSettings, Execution, returned, raised, finish_run, run_job, run_leased,
}
use semiconductor_intelligen.Operations.Runs.Outcome.{run_job-skips}

skipped≢successful : skipped ≢ successful
skipped≢successful e = cc

-- A body that does not return with `partial` unset makes no successful run.
module _ (settings : SchedulerSettings) (execute : Db → Execution × Db) (finished : ℕ)
    (job_type : OperationalJobType) (trigger : OperationalTriggerType) (now : ℕ)
    (owner : String) where
  finish_run-unsuccessful :
      (execution : Execution) (job : OperationalJobRun)
      → execution ≢ returned false
      → (finish_run settings now finished execution job).status ≢ successful
  unfolding finish_run
  finish_run-unsuccessful (returned true) job h e = cc
  finish_run-unsuccessful (returned false) job h e = h refl
  finish_run-unsuccessful raised job h e = cc

  run_leased-unsuccessful :
      (result : LeaseResult) (db : Db)
      → ((d : Db) → (execute d).0 ≢ returned false)
      → (run_leased settings execute finished job_type trigger now owner result db).0.status
        ≢ successful
  unfolding run_leased
  run_leased-unsuccessful (refused lease) db h e = cc
  run_leased-unsuccessful (acquired lease recovered) db h e = finish_run-unsuccessful _ _ (h _) e

  pub run_job-unsuccessful :
      (db : Db)
      → ((d : Db) → (execute d).0 ≢ returned false)
      → (run_job settings execute finished job_type trigger now owner db).0.status ≢ successful
  unfolding run_job
  run_job-unsuccessful db h =
      let (result, db') = acquire job_type settings.maximum_job_duration_minutes now owner db in
      run_leased-unsuccessful result db' h

  -- Nor does a job whose lease is held.
  pub run_job-held :
      (db : Db) (held : OperationalJobLease)
      → find (is_lease_of job_type) db.leases ≡ some held
      → now < held.expires_at
      → (run_job settings execute finished job_type trigger now owner db).0.status ≢ successful
  run_job-held db held e lt done = skipped≢successful (
      sym (run_job-skips settings execute finished job_type trigger now owner db held e lt).0
      ∙ done)
