-- ===== src/Operations/Cycle.antt =====
-- semi_intel/operations/scheduler.py, OperationalScheduler.cycle and effective_automation_state.
pub mod Heartbeat
pub mod Pacing
use semiconductor_intelligen.Prelude.{
  ℕ, ◌+◌, String, Bool, true, false, not, ◌&&◌, Option, none, some, List, [], ◌∷◌, ◌++◌, ltb, leb,
  ◌==◌, if◌then◌else◌, all,
}
use semiconductor_intelligen.Operations.Lease.{
  OperationalJobType, OperationalJobStatus, OperationalJobRun, Db, pipeline, daily_digest, backup,
  database_maintenance, scheduler, successful, partial, ordinal, minutes,
}
use semiconductor_intelligen.Operations.Runs.{SchedulerSettings, Execution, run_job}
use semiconductor_intelligen.Operations.Clock.{Zone, most_recent_daily_boundary}

-- The row of `scheduler_settings` that a cycle reads and stamps. The clock texts are times of day.
pub record CycleSettings : Type 0 where
  pub scheduler_enabled : Bool
  pub pipeline_interval_minutes : ℕ
  pub missed_run_warning_minutes : ℕ
  pub digest_enabled : Bool
  pub digest_time : ℕ
  pub backup_enabled : Bool
  pub backup_time : ℕ
  pub maintenance_enabled : Bool
  pub maintenance_time : ℕ
  pub last_scheduler_invocation : Option ℕ
  pub last_successful_job_commit : Option ℕ
  pub last_scheduler_heartbeat : Option ℕ

abbrev pub is_completed : OperationalJobStatus → Bool
is_completed successful = true
is_completed partial = true
is_completed _ = false

abbrev pub is_successful : OperationalJobStatus → Bool
is_successful successful = true
is_successful _ = false

-- The larger of two times that may be missing.
abbrev pub later : Option ℕ → Option ℕ → Option ℕ
later none b = b
later (some a) none = some a
later (some a) (some b) = if ltb a b then some b else some a

abbrev pub counts_for : OperationalJobType → OperationalJobRun → Bool
counts_for job_type run = ordinal run.job_type == ordinal job_type && is_completed run.status

-- `finished_at` of the first row in descending order of `finished_at`.
unfoldable pub last_completed : OperationalJobType → List OperationalJobRun → Option ℕ
last_completed job_type [] = none
last_completed job_type (run ∷ runs) =
    let rest = last_completed job_type runs in
    if counts_for job_type run then later run.finished_at rest else rest

pipeline_over : ℕ → ℕ → Option ℕ → Bool
pipeline_over interval now none = true
pipeline_over interval now (some finished) = leb (finished + minutes interval) now

unfoldable pub pipeline_due : CycleSettings → ℕ → Db → Bool
unfolding pipeline_over
pipeline_due settings now db =
    pipeline_over settings.pipeline_interval_minutes now (last_completed pipeline db.runs)

daily_over : ℕ → Option ℕ → Bool
daily_over boundary none = true
daily_over boundary (some finished) = ltb finished boundary

unfoldable pub daily_job_due : Zone → OperationalJobType → ℕ → ℕ → Db → Bool
unfolding daily_over
daily_job_due zone job_type clock now db =
    daily_over (most_recent_daily_boundary now zone clock) (last_completed job_type db.runs)

-- `max(finished times, default=now)`
latest_finish : List OperationalJobRun → Option ℕ
latest_finish [] = none
latest_finish (job ∷ jobs) = later job.finished_at (latest_finish jobs)

committed_over : ℕ → Option ℕ → ℕ
committed_over now none = now
committed_over now (some t) = t

unfoldable pub committed_at : ℕ → List OperationalJobRun → ℕ
unfolding latest_finish committed_over
committed_at now jobs = committed_over now (latest_finish jobs)

-- `execute` and `finished` are the body and the clock of each job, as in `run_job`.
module _ (run_settings : SchedulerSettings) (zone : Zone)
    (execute : OperationalJobType → Db → Execution × Db) (finished : OperationalJobType → ℕ)
    (now : ℕ) (owner : String) where
  -- The jobs so far, and the tables.
  abbrev pub State : Type 0
  State = List OperationalJobRun × Db

  run_next : OperationalJobType → State → State
  run_next job_type (jobs, db) =
      let (job, db') =
        run_job run_settings (execute job_type) (finished job_type) job_type scheduler now owner
          db in
      (jobs ++ job ∷ [], db')

  run_if : Bool → OperationalJobType → State → State
  unfolding run_next
  run_if due job_type state = if due then run_next job_type state else state

  daily_step : Bool → OperationalJobType → ℕ → State → State
  unfolding run_if
  daily_step enabled job_type clock (jobs, db) =
      run_if (enabled && daily_job_due zone job_type clock now db) job_type (jobs, db)

  unfoldable pub run_due : CycleSettings → Db → State
  unfolding daily_step run_if
  run_due settings db =
      let state = run_if (pipeline_due settings now db) pipeline ([], db) in
      let state = daily_step settings.digest_enabled daily_digest settings.digest_time state in
      let state = daily_step settings.backup_enabled backup settings.backup_time state in
      daily_step settings.maintenance_enabled database_maintenance settings.maintenance_time state

  unfoldable pub stamp_heartbeat : List OperationalJobRun → CycleSettings → CycleSettings
  stamp_heartbeat [] settings = settings
  stamp_heartbeat (job ∷ jobs) settings =
      if all (λ (run : OperationalJobRun). is_successful run.status) (job ∷ jobs)
      then record settings {
        last_successful_job_commit = some (committed_at now (job ∷ jobs));
        last_scheduler_heartbeat = some (committed_at now (job ∷ jobs));
      }
      else settings

  -- The jobs that ran, the settings and the tables.
  unfoldable pub cycle : CycleSettings → Db → List OperationalJobRun × CycleSettings × Db
  cycle settings db =
      if not settings.scheduler_enabled
      then ([], settings, db)
      else let (jobs, db') = run_due settings db in
        (jobs, stamp_heartbeat jobs (record settings { last_scheduler_invocation = some now }), db')
