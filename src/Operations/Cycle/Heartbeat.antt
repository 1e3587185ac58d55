-- ===== src/Operations/Cycle/Heartbeat.antt =====
-- The heartbeat reports success, not liveness.
use semiconductor_intelligen.Prelude.{
  ℕ, ◌<◌, String, ◌≡◌, refl, ap, ◌∙◌, ◌≢◌, ◌⊎◌, inl, inr, Bool, true, false, not, some, List, [],
  ◌∷◌, ◌++◌, arith, Bool-cases, if-false, all, find,
}
use semiconductor_intelligen.Operations.Lease.{
  OperationalJobType, OperationalJobStatus, OperationalJobLease, OperationalJobRun, Db, pipeline,
  daily_digest, backup, database_maintenance, scheduler, successful, is_lease_of,
}
use semiconductor_intelligen.Operations.Runs.{SchedulerSettings, Execution, returned, run_job}
use semiconductor_intelligen.Operations.Runs.Failure.{run_job-unsuccessful, run_job-held}
use semiconductor_intelligen.Operations.Clock.{Zone}
use semiconductor_intelligen.Operations.Cycle.{
  CycleSettings, is_successful, pipeline_due, State, run_due, stamp_heartbeat, cycle, run_next,
  run_if, daily_step,
}

abbrev all_successful : List OperationalJobRun → Bool
all_successful = all (λ (run : OperationalJobRun). is_successful run.status)

all-append :
    (xs ys : List OperationalJobRun) → all_successful xs ≡ false → all_successful (xs ++ ys) ≡ false
all-append [] ys h = cc
all-append (x ∷ xs) ys h = ground (arith, all-append xs ys)

is_successful-other : (s : OperationalJobStatus) → s ≢ successful → is_successful s ≡ false
is_successful-other s h = elim (Bool-cases (is_successful s)) [
  | inl e ↦ absurd (h (only s e))
  | inr e ↦ e
]
  where
    only : (s : OperationalJobStatus) → is_successful s ≡ true → s ≡ successful
    only successful e = refl
    only _ e = cc

module _ (run_settings : SchedulerSettings) (zone : Zone)
    (execute : OperationalJobType → Db → Execution × Db) (finished : OperationalJobType → ℕ)
    (now : ℕ) (owner : String) where
  stamp-keeps :
      (jobs : List OperationalJobRun) (settings : CycleSettings)
      → all_successful jobs ≡ false
      → stamp_heartbeat run_settings zone execute finished now owner jobs settings ≡ settings
  unfolding stamp_heartbeat
  stamp-keeps [] settings h = refl
  stamp-keeps (job ∷ jobs) settings h = rw h refl

  cycle_enabled :
      (settings : CycleSettings) (db : Db)
      → settings.scheduler_enabled ≡ true
      → let (jobs, db') = run_due run_settings zone execute finished now owner settings db in
        cycle run_settings zone execute finished now owner settings db ≡ (
          jobs,
          stamp_heartbeat run_settings zone execute finished now owner jobs
              (record settings { last_scheduler_invocation = some now }),
          db',
        )
  unfolding cycle
  cycle_enabled settings db h = if-false (not settings.scheduler_enabled) _ _ (ap not h)

  abbrev Failed : State run_settings zone execute finished now owner → Type 0
  Failed state = all_successful state.0 ≡ false

  run_if-Failed :
      (due : Bool) (job_type : OperationalJobType)
      (state : State run_settings zone execute finished now owner)
      → Failed state
      → Failed (run_if run_settings zone execute finished now owner due job_type state)
  unfolding run_if run_next
  run_if-Failed true job_type (jobs, db) h = all-append jobs _ h
  run_if-Failed false job_type (jobs, db) h = h

  daily_step-Failed :
      (enabled : Bool) (job_type : OperationalJobType) (clock : ℕ)
      (state : State run_settings zone execute finished now owner)
      → Failed state
      → Failed
          (daily_step run_settings zone execute finished now owner enabled job_type clock state)
  unfolding daily_step
  daily_step-Failed enabled job_type clock (jobs, db) h = run_if-Failed _ job_type (jobs, db) h

  -- A pipeline job that was due and did not succeed is among the jobs of the cycle.
  run_due-Failed :
      (settings : CycleSettings) (db : Db)
      → pipeline_due settings now db ≡ true
      → is_successful
          (run_job run_settings
            (execute pipeline)
            (finished pipeline)
            pipeline
            scheduler
            now
            owner
            db).0.status
        ≡ false
      → Failed (run_due run_settings zone execute finished now owner settings db)
  unfolding run_due run_if run_next
  run_due-Failed settings db due h =
      daily_step-Failed settings.maintenance_enabled database_maintenance settings.maintenance_time
        _
        (daily_step-Failed settings.backup_enabled backup settings.backup_time _ (
          daily_step-Failed settings.digest_enabled daily_digest settings.digest_time _
            (rw due (rw h refl))))

module _ (run_settings : SchedulerSettings) (zone : Zone)
    (execute : OperationalJobType → Db → Execution × Db) (finished : OperationalJobType → ℕ)
    (now : ℕ) (owner : String) (settings : CycleSettings) (db : Db) where
  -- The pipeline cannot succeed: its body never returns with `partial` unset, or its lease is held
  -- and has not expired.
  abbrev pub IsBlocked : Type 0
  IsBlocked =
      ((d : Db) → (execute pipeline d).0 ≢ returned false)
      ⊎ ((held : OperationalJobLease) × (find (is_lease_of pipeline) db.leases ≡ some held)
          × (now < held.expires_at))

  -- An enabled cycle in which the pipeline is due and cannot succeed, since its body always raises
  -- or is partial or since its lease is held and has not expired, stamps the invocation and leaves
  -- all else of the settings, the heartbeat included, as it was, however the other jobs end.
  pub cycle-heartbeat :
      settings.scheduler_enabled ≡ true
      → pipeline_due settings now db ≡ true
      → IsBlocked
      → (cycle run_settings zone execute finished now owner settings db).1
        ≡ record settings { last_scheduler_invocation = some now }
  cycle-heartbeat enabled due blocked =
      let unsuccessful : (run_job run_settings (execute pipeline) (finished pipeline) pipeline
            scheduler now owner db).0.status
          ≢ successful =
        elim blocked [
          | inl fails ↦
              run_job-unsuccessful run_settings (execute pipeline) (finished pipeline) pipeline
                scheduler now owner db fails
          | inr (held, e, lt) ↦
              run_job-held run_settings (execute pipeline) (finished pipeline) pipeline scheduler
                now owner db held e lt
        ] in
      let unfinished =
        run_due-Failed run_settings zone execute finished now owner settings db due
          (is_successful-other _ unsuccessful) in
      ap (λ outcome. outcome.1)
        (cycle_enabled run_settings zone execute finished now owner settings db enabled)
      ∙ stamp-keeps run_settings zone execute finished now owner _ _ unfinished
