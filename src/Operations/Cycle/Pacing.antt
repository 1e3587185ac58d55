-- ===== src/Operations/Cycle/Pacing.antt =====
-- The pipeline does not start again before its interval has passed.
use semiconductor_intelligen.Prelude.{
  ℕ, ◌+◌, ◌≤◌, ◌<◌, String, ◌≡◌, refl, ap, inl, inr, Bool, true, false, Option, none, some, List,
  [], ◌∷◌, ◌++◌, arith, ltb, Bool-cases, find, All, update_first,
}
use semiconductor_intelligen.Operations.Lease.{
  OperationalJobType, OperationalTriggerType, OperationalJobRun, Db, pipeline, ordinal, minutes,
  is_lease_of,
}
use semiconductor_intelligen.Operations.Lease.Exclusion.{acquire_free}
use semiconductor_intelligen.Operations.Runs.{
  SchedulerSettings, returned, is_run, finish_run, run_job,
}
use semiconductor_intelligen.Operations.Runs.Outcome.{runs-release_token}
use semiconductor_intelligen.Operations.Cycle.{
  CycleSettings, later, counts_for, last_completed, pipeline_due, pipeline_over,
}

update-fresh :
    (f : OperationalJobRun → OperationalJobRun) (runs : List OperationalJobRun)
    (new : OperationalJobRun)
    → All (λ (r : OperationalJobRun). r.id < new.id) runs
    → update_first (is_run new.id) f (runs ++ new ∷ []) ≡ runs ++ f new ∷ []
unfolding update_first
update-fresh f [] new h = ground arith
update-fresh f (r ∷ runs) new h =
    let other : is_run new.id r ≡ false = ground (arith, h.0) in
    rw other (ap (λ t. r ∷ t) (update-fresh f runs new h.1))

-- There is a time, and it is not before `t`.
abbrev AtLeast : ℕ → Option ℕ → Type 0
AtLeast t none = ⊥
AtLeast t (some u) = t ≤ u

AtLeast-later : (t : ℕ) (a b : Option ℕ) → AtLeast t b → AtLeast t (later a b)
AtLeast-later t none b h = h
AtLeast-later t (some a) none h = elim h [ ]
AtLeast-later t (some a) (some b) h = elim (Bool-cases (ltb a b)) [
  | inl e ↦ rw e h
  | inr e ↦ rw e (ground arith)
]

last_completed-append :
    (job_type : OperationalJobType) (t : ℕ) (run : OperationalJobRun)
    (runs : List OperationalJobRun)
    → counts_for job_type run ≡ true
    → run.finished_at ≡ some t
    → AtLeast t (last_completed job_type (runs ++ run ∷ []))
unfolding last_completed
last_completed-append job_type t run [] c f = rw (c, f) (omega arith)
last_completed-append job_type t run (r ∷ runs) c f =
    let rest = last_completed-append job_type t run runs c f in
    elim (Bool-cases (counts_for job_type r)) [
      | inl e ↦ rw e (AtLeast-later t r.finished_at _ rest)
      | inr e ↦ rw e rest
    ]

not_over :
    (interval now t : ℕ) (o : Option ℕ)
    → AtLeast t o
    → now < t + minutes interval
    → pipeline_over interval now o ≡ false
unfolding pipeline_over
not_over interval now t none h lt = elim h [ ]
not_over interval now t (some u) h lt = ground arith

last_completed-finish :
    (run_settings : SchedulerSettings) (partial_result : Bool) (finished now : ℕ)
    (start : OperationalJobRun) (runs : List OperationalJobRun)
    → ordinal start.job_type ≡ ordinal pipeline
    → All (λ (r : OperationalJobRun). r.id < start.id) runs
    → AtLeast finished (
        last_completed pipeline (
          update_first
            (is_run start.id)
            (finish_run run_settings now finished (returned partial_result))
            (runs ++ start ∷ [])))
unfolding finish_run
last_completed-finish run_settings partial_result finished now start runs t ids =
    let finish = finish_run run_settings now finished (returned partial_result) in
    rw (update-fresh finish runs start ids)
      (last_completed-append pipeline finished (finish start) runs (ground arith) refl)

-- In a table whose row ids lie below the next one and that has no lease for the pipeline, run a
-- pipeline job whose body returns and leaves the tables alone: the pipeline is not due again
-- before the configured interval has passed since the job finished.
pub pipeline-paced :
    (run_settings : SchedulerSettings) (settings : CycleSettings) (partial_result : Bool)
    (finished now later_now : ℕ) (trigger : OperationalTriggerType) (owner : String) (db : Db)
    → All (λ (r : OperationalJobRun). r.id < db.next_id) db.runs
    → find (is_lease_of pipeline) db.leases ≡ none
    → later_now < finished + minutes settings.pipeline_interval_minutes
    → pipeline_due settings later_now
        (run_job run_settings
          (λ d. (returned partial_result, d))
          finished
          pipeline
          trigger
          now
          owner
          db).1
      ≡ false
unfolding pipeline_due run_job
pipeline-paced run_settings settings partial_result finished now later_now trigger owner db ids e
      lt =
    rw (acquire_free pipeline run_settings.maximum_job_duration_minutes now owner db e) (
      rw runs-release_token (
        not_over settings.pipeline_interval_minutes later_now finished _
          (last_completed-finish run_settings partial_result finished now _ db.runs refl ids) lt))
