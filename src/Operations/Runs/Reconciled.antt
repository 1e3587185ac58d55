-- ===== src/Operations/Runs/Reconciled.antt =====
-- What reconciling stale runs leaves behind.
use semiconductor_intelligen.Prelude.{
  ℕ, ◌≡◌, refl, ap, inl, inr, Bool, true, false, not, ◌&&◌, List, [], ◌∷◌, map, arith, ltb, leb,
  Bool-cases, filter, All, sort_by,
}
use semiconductor_intelligen.Operations.Lease.{OperationalJobRun, Db, active}
use semiconductor_intelligen.Operations.Runs.{
  SchedulerSettings, is_stale, is_protected, active_tokens, reconcile_stale_runs, is_orphan,
  abandon, reconciled_ids, drop_expired,
}

filter-filter_same {ℓ} :
    {A : Type ℓ} (p q : A → Bool) (xs : List A)
    → ((x : A) → p x ≡ true → q x ≡ true)
    → filter p (filter q xs) ≡ filter p xs
filter-filter_same p q [] h = refl
filter-filter_same p q (x ∷ xs) h = ground (arith, h x, filter-filter_same p q xs h)

filter_absent {ℓ} :
    {A : Type ℓ} (p : A → Bool) (xs : List A) → All (λ x. p x ≡ false) xs → filter p xs ≡ []
filter_absent p [] h = refl
filter_absent p (x ∷ xs) h = rw h.0 (filter_absent p xs h.1)

absent_of_filter {ℓ} :
    {A : Type ℓ} (p : A → Bool) (xs : List A) → filter p xs ≡ [] → All (λ x. p x ≡ false) xs
absent_of_filter p [] h = tt
absent_of_filter p (x ∷ xs) h = elim (Bool-cases (p x)) [
  | inl e ↦ ground arith
  | inr e ↦ (e, absent_of_filter p xs (rw e at h))
]

module _ (settings : SchedulerSettings) (now : ℕ) where
  drop_expired-active :
      (ids : List ℕ) (db : Db) → active now (drop_expired settings now ids db) ≡ active now db
  unfolding drop_expired active
  drop_expired-active [] db = refl
  drop_expired-active (id ∷ ids) db =
      filter-filter_same (λ lease. ltb now lease.expires_at)
        (λ lease. not (leb lease.expires_at now)) db.leases (λ lease h. ground arith)

  drop_expired-runs : (ids : List ℕ) (db : Db) → (drop_expired settings now ids db).runs ≡ db.runs
  unfolding drop_expired
  drop_expired-runs [] db = refl
  drop_expired-runs (id ∷ ids) db = refl

  abandon-not_orphan :
      (tokens : List ℕ) (run : OperationalJobRun)
      → is_orphan settings now tokens (abandon settings now tokens run) ≡ false
  unfolding abandon
  abandon-not_orphan tokens run = elim (Bool-cases (is_orphan settings now tokens run)) [
    | inl e ↦ rw e refl
    | inr e ↦ rw e e
  ]

  All-abandoned :
      (tokens : List ℕ) (runs : List OperationalJobRun)
      → All
          (λ run. is_orphan settings now tokens run ≡ false)
          (map (abandon settings now tokens) runs)
  All-abandoned tokens [] = tt
  All-abandoned tokens (run ∷ runs) = (abandon-not_orphan tokens run, All-abandoned tokens runs)

  map-abandon_same :
      (tokens : List ℕ) (runs : List OperationalJobRun)
      → All (λ run. is_orphan settings now tokens run ≡ false) runs
      → map (abandon settings now tokens) runs ≡ runs
  unfolding abandon
  map-abandon_same tokens [] h = refl
  map-abandon_same tokens (run ∷ runs) h =
      rw h.0 (ap (λ t. run ∷ t) (map-abandon_same tokens runs h.1))

  reconciled_ids_nil :
      (tokens : List ℕ) (runs : List OperationalJobRun)
      → All (λ run. is_orphan settings now tokens run ≡ false) runs
      → reconciled_ids settings now tokens runs ≡ []
  unfolding reconciled_ids sort_by
  reconciled_ids_nil tokens runs h = rw (filter_absent (is_orphan settings now tokens) runs h)

  runs-reconcile :
      (db : Db)
      → (reconcile_stale_runs settings now db).1.runs
        ≡ map (abandon settings now (active_tokens settings now db)) db.runs
  unfolding reconcile_stale_runs
  runs-reconcile db = drop_expired-runs _ _

  reconcile_clean :
      (d : Db)
      → All (λ run. is_orphan settings now (active_tokens settings now d) run ≡ false) d.runs
      → reconcile_stale_runs settings now d ≡ ([], d)
  unfolding reconcile_stale_runs
  reconcile_clean d clean =
      let tokens = active_tokens settings now d in
      rw
        (reconciled_ids_nil tokens d.runs clean, map-abandon_same tokens d.runs clean, drop_expired)
        refl

  active-reconcile : (db : Db) → active now (reconcile_stale_runs settings now db).1 ≡ active now db
  unfolding reconcile_stale_runs
  active-reconcile db =
      let tokens = active_tokens settings now db in
      let marked : Db = record db { runs = map (abandon settings now tokens) db.runs } in
      drop_expired-active (reconciled_ids settings now tokens db.runs) marked

  -- Reconciling touches no active lease, leaves no run that is still marked as running beyond the
  -- threshold without an active lease, and is done: again at the same time it finds no run and
  -- changes nothing.
  pub reconcile_complete :
      (db : Db)
      → let db' = (reconcile_stale_runs settings now db).1 in
        (active now db' ≡ active now db)
        × All
            (λ run.
              is_stale settings now run
                && not (is_protected settings now (active_tokens settings now db') run)
              ≡ false)
            db'.runs
        × (reconcile_stale_runs settings now db' ≡ ([], db'))
  reconcile_complete db =
      let db' = (reconcile_stale_runs settings now db).1 in
      let tokens = active_tokens settings now db in
      let same : active now db' ≡ active now db = active-reconcile db in
      let clean : All (λ run. is_orphan settings now (active_tokens settings now db') run ≡ false)
          db'.runs =
        rw (same, runs-reconcile db) (All-abandoned tokens db.runs) in
      (same, clean, reconcile_clean db' clean)
