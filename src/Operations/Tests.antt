-- ===== src/Operations/Tests.antt =====
-- Concrete runs of semi_intel/operations/scheduler.py and of the clocks.
use semiconductor_intelligen.Prelude.{
  ℕ, ◌+◌, ◌≤◌, ◌≡◌, refl, ◌↔◌, inl, true, false, not, ◌&&◌, none, some, [], ◌∷◌, arith, All,
}
use semiconductor_intelligen.Operations.Lease.{
  OperationalJobLease, OperationalJobRun, Db, pipeline, backup, scheduler, running, refused,
  minutes, new_run, acquire, active,
}
use semiconductor_intelligen.Operations.Lease.Exclusion.{IsValid, acquire-IsValid}
use semiconductor_intelligen.Operations.Lease.Holding.{acquiring, calls, acquire-refused_while_held}
use semiconductor_intelligen.Operations.Runs.{
  SchedulerSettings, returned, raised, has_token, run_job, retry_job, is_stale, is_protected,
  active_tokens, reconcile_stale_runs,
}
use semiconductor_intelligen.Operations.Runs.Outcome.{run_job-releases, retry-reschedules}
use semiconductor_intelligen.Operations.Runs.Reconciled.{reconcile_complete}
use semiconductor_intelligen.Operations.Clock.{Zone}
use semiconductor_intelligen.Operations.Cycle.{CycleSettings, last_completed, pipeline_due, cycle}
use semiconductor_intelligen.Operations.Cycle.Heartbeat.{cycle-heartbeat}
use semiconductor_intelligen.Operations.Cycle.Pacing.{pipeline-paced}
use semiconductor_intelligen.Operations.Automation.{
  TaskStatus, is_healthy, stale_after, effective_automation_state,
}
use semiconductor_intelligen.Operations.Automation.Health.{healthy_iff}

abbrev no_rows : Db
no_rows = record { leases = []; runs = []; next_id = 1; next_token = 1 }

no_rows-IsValid : IsValid no_rows
no_rows-IsValid = record { exclusive = tt; issued = tt }

-- A pipeline that holds its lease until time 600.
abbrev held : OperationalJobLease
held = record {
  job_type = pipeline;
  owner_identity = "worker";
  lock_token = 1;
  acquired_at = 0;
  refreshed_at = 0;
  expires_at = 600;
}

abbrev working : Db
working = record { leases = held ∷ []; runs = []; next_id = 1; next_token = 2 }

working-IsValid : IsValid working
working-IsValid = record { exclusive = (tt, tt); issued = (omega arith, tt) }

-- A run that a dead worker left behind long ago.
abbrev left : Db
left = record {
  leases = [];
  runs = new_run pipeline scheduler running "worker" 0 1 ∷ [];
  next_id = 2;
  next_token = 1;
}

abbrev run_settings : SchedulerSettings
run_settings = record {
  maximum_job_duration_minutes = 30;
  retry_delay_minutes = 5;
  maximum_automatic_retries = 1;
  stale_run_threshold_minutes = 60;
}

abbrev utc_clock : Zone
utc_clock = record { to_local = λ t. t; to_utc = λ t. t }

abbrev cycle_settings : CycleSettings
cycle_settings = record {
  scheduler_enabled = true;
  pipeline_interval_minutes = 60;
  missed_run_warning_minutes = 30;
  digest_enabled = false;
  digest_time = 0;
  backup_enabled = false;
  backup_time = 0;
  maintenance_enabled = false;
  maintenance_time = 0;
  last_scheduler_invocation = none;
  last_successful_job_commit = none;
  last_scheduler_heartbeat = some 5;
}

acquire-refused_while_held_example :
    acquire pipeline 30 500 "other" (calls (acquiring backup 30 100 "third" ∷ []) working)
    ≡ (refused held, calls (acquiring backup 30 100 "third" ∷ []) working)
acquire-refused_while_held_example =
    acquire-refused_while_held held (acquiring backup 30 100 "third" ∷ []) working 30 500 "other"
      working-IsValid refl (omega arith, tt) (omega arith)

-- The lease of the pipeline has expired.
acquire-IsValid_example : IsValid (acquire backup 30 700 "other" working).1
acquire-IsValid_example = acquire-IsValid backup 30 700 "other" working working-IsValid

run_job-releases_example :
    All
      (λ l. has_token 1 l ≡ false)
      (run_job run_settings (λ d. (raised, d)) 20 pipeline scheduler 10 "me" no_rows).1.leases
unfolding run_job acquire
run_job-releases_example =
    run_job-releases run_settings (λ d. (raised, d)) 20 pipeline scheduler 10 "me" no_rows 1 refl

retry-reschedules_example :
    (job : OperationalJobRun) × (db' : Db) × (retry_job run_settings
        (λ d. (raised, d))
        20
        10
        "me"
        1
        left
      ≡ some (job, db'))
    × (job.attempt_number ≡ 2)
    × (job.next_retry_at ≡ some (10 + minutes 5))
retry-reschedules_example =
    retry-reschedules run_settings 20 10 "me" left 1
      (new_run pipeline scheduler running "worker" 0 1) refl refl (omega arith)

reconcile_complete_example :
    let db' = (reconcile_stale_runs run_settings (minutes 100) left).1 in
    (active (minutes 100) db' ≡ active (minutes 100) left)
    × All
        (λ run.
          is_stale run_settings (minutes 100) run
            && not (
                is_protected run_settings
                  (minutes 100)
                  (active_tokens run_settings (minutes 100) db')
                  run)
          ≡ false)
        db'.runs
    × (reconcile_stale_runs run_settings (minutes 100) db' ≡ ([], db'))
reconcile_complete_example = reconcile_complete run_settings (minutes 100) left

cycle-heartbeat_example :
    (cycle run_settings utc_clock (λ t d. (raised, d)) (λ t. 20) 10 "me" cycle_settings no_rows).1
    ≡ record cycle_settings { last_scheduler_invocation = some 10 }
unfolding pipeline_due last_completed
cycle-heartbeat_example =
    cycle-heartbeat run_settings utc_clock (λ t d. (raised, d)) (λ t. 20) 10 "me" cycle_settings
      no_rows refl refl (inl (λ d e. cc))

pipeline-paced_example :
    pipeline_due cycle_settings 100
      (run_job run_settings (λ d. (returned false, d)) 20 pipeline scheduler 10 "me" no_rows).1
    ≡ false
pipeline-paced_example =
    pipeline-paced run_settings cycle_settings false 20 10 100 scheduler "me" no_rows tt refl
      (omega arith)

abbrev task : TaskStatus
task = record {
  supported = true;
  is_installed = true;
  path_exists = true;
  path_matches_current = true;
  action_matches_current = none;
  last_result = some 267009;
}

healthy_iff_example : (is_healthy (effective_automation_state cycle_settings task 10) ≡ true) ↔ (
    (true ≡ true)
    × (true ≡ true)
    × (true ≡ true)
    × (true ≡ true)
    × (true ≡ true)
    × (false ≡ false)
    × (true ≡ true)
    × ((t : ℕ) × (some 5 ≡ some t) × (10 ≤ t + stale_after cycle_settings task 10)))
healthy_iff_example = healthy_iff cycle_settings task 10
