-- ===== src/Operations/Lease.antt =====
-- semi_intel/operations/scheduler.py, LeaseManager, over the tables `operational_job_leases` and
-- `operational_job_runs`. A time is a number of microseconds.
pub mod Exclusion
pub mod Holding
use semiconductor_intelligen.Prelude.{
  ℕ, suc, ◌+◌, ◌*◌, String, Bool, not, Option, none, some, List, [], ◌∷◌, ◌++◌, ltb, ◌==◌,
  if◌then◌else◌, filter, find, update_first,
}

pub data OperationalJobType : Type 0 where
  pipeline notification_generation daily_digest delivery_retry : OperationalJobType
  backup database_maintenance retention_cleanup health_check : OperationalJobType

-- The position in the enumeration, by which two members are compared.
abbrev pub ordinal : OperationalJobType → ℕ
ordinal pipeline = 0
ordinal notification_generation = 1
ordinal daily_digest = 2
ordinal delivery_retry = 3
ordinal backup = 4
ordinal database_maintenance = 5
ordinal retention_cleanup = 6
ordinal health_check = 7

pub data OperationalTriggerType : Type 0 where
  manual_cli manual_gui scheduler startup_catchup retry test : OperationalTriggerType

pub data OperationalJobStatus : Type 0 where
  scheduled running successful partial failed deferred skipped abandoned : OperationalJobStatus

pub record OperationalJobLease : Type 0 where
  pub job_type : OperationalJobType
  pub owner_identity : String
  pub lock_token : ℕ
  pub acquired_at : ℕ
  pub refreshed_at : ℕ
  pub expires_at : ℕ

pub record OperationalJobRun : Type 0 where
  pub id : ℕ
  pub job_type : OperationalJobType
  pub trigger_type : OperationalTriggerType
  pub status : OperationalJobStatus
  pub owner_identity : String
  pub lock_token : Option ℕ
  pub started_at : ℕ
  pub finished_at : Option ℕ
  pub attempt_number : ℕ
  pub parent_retry_id : Option ℕ
  pub next_retry_at : Option ℕ

-- The two tables, and the next row id and lock token (`uuid4`), which are never handed out twice.
pub record Db : Type 0 where
  pub leases : List OperationalJobLease
  pub runs : List OperationalJobRun
  pub next_id : ℕ
  pub next_token : ℕ

-- dt.timedelta(minutes=n)
abbrev pub minutes : ℕ → ℕ
minutes n = n * 60000000

abbrev pub is_lease_of : OperationalJobType → OperationalJobLease → Bool
is_lease_of job_type lease = ordinal lease.job_type == ordinal job_type

-- The columns that the callers do not give are null or the table's defaults.
abbrev pub new_run :
    OperationalJobType
    → OperationalTriggerType
    → OperationalJobStatus
    → String
    → ℕ
    → ℕ
    → OperationalJobRun
new_run job_type trigger status owner now id = record {
  id = id;
  job_type = job_type;
  trigger_type = trigger;
  status = status;
  owner_identity = owner;
  lock_token = none;
  started_at = now;
  finished_at = none;
  attempt_number = 1;
  parent_retry_id = none;
  next_retry_at = none;
}

abbrev pub add_run : OperationalJobRun → Db → Db
add_run run db = record db { runs = db.runs ++ run ∷ []; next_id = suc db.next_id }

-- LeaseResult: acquired with the lease and the recovered owner, or refused with the active lease.
pub data LeaseResult : Type 0 where
  acquired : OperationalJobLease → Option String → LeaseResult
  refused : OperationalJobLease → LeaseResult

abbrev pub same_token : OperationalJobLease → OperationalJobLease → Bool
same_token lease other = other.lock_token == lease.lock_token

-- `session.delete(lease)`: the row with its (unique) lock token.
unfoldable pub release : OperationalJobLease → Db → Db
release lease db = record db { leases = filter (λ other. not (same_token lease other)) db.leases }

module _ (job_type : OperationalJobType) (duration_minutes now : ℕ) (owner : String) where
  abbrev pub new_lease : ℕ → OperationalJobLease
  new_lease token = record {
    job_type = job_type;
    owner_identity = owner;
    lock_token = token;
    acquired_at = now;
    refreshed_at = now;
    expires_at = now + minutes duration_minutes;
  }

  insert_lease : Option String → Db → LeaseResult × Db
  insert_lease recovered db =
      let lease = new_lease db.next_token in
      (
        acquired lease recovered,
        record db { leases = db.leases ++ lease ∷ []; next_token = suc db.next_token },
      )

  abbrev abandoned_run : String → ℕ → OperationalJobRun
  abandoned_run recovered id = record (new_run job_type scheduler abandoned recovered now id) {
    finished_at = some now;
  }

  -- One session at a time: the insert finds no row of the same job type, as `IntegrityError` would
  -- report, since the row that the query found is deleted first.
  acquire_over : Option OperationalJobLease → Db → LeaseResult × Db
  unfolding insert_lease release
  acquire_over none db = insert_lease none db
  acquire_over (some existing) db =
      if ltb now existing.expires_at
      then (refused existing, db)
      else insert_lease (some existing.owner_identity)
          (add_run (abandoned_run existing.owner_identity db.next_id) (release existing db))

  unfoldable pub acquire : Db → LeaseResult × Db
  unfolding acquire_over
  acquire db = acquire_over (find (is_lease_of job_type) db.leases) db

unfoldable pub refresh : ℕ → ℕ → OperationalJobLease → Db → Db
unfolding update_first
refresh duration_minutes now lease db = record db {
  leases =
      update_first (same_token lease)
        (λ row. record row { refreshed_at = now; expires_at = now + minutes duration_minutes })
        db.leases;
}

unfoldable pub active : ℕ → Db → List OperationalJobLease
active now db = filter (λ lease. ltb now lease.expires_at) db.leases
