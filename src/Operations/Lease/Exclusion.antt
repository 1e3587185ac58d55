-- ===== src/Operations/Lease/Exclusion.antt =====
-- At most one lease for each job type, and what it means to hold one.
use semiconductor_intelligen.Prelude.{
  ℕ, suc, ◌<◌, String, ◌≡◌, ◌≢◌, inl, inr, Bool, false, not, Option, none, some, List, [], ◌∷◌,
  ◌++◌, arith, ltb, lt→ltb, Bool-cases, Option-cases, filter, find, All,
}
use semiconductor_intelligen.Prelude.Rows.{All-append, All-filter, All-mp, find-none, All-mp2}
use semiconductor_intelligen.Operations.Lease.{
  OperationalJobType, OperationalJobLease, Db, acquired, refused, ordinal, is_lease_of, add_run,
  same_token, release, new_lease, acquire, insert_lease, abandoned_run, acquire_over,
}

-- Two rows are for different job types and have different tokens.
abbrev Apart : OperationalJobLease → OperationalJobLease → Type 0
Apart l m = (ordinal l.job_type ≢ ordinal m.job_type) × (l.lock_token ≢ m.lock_token)

abbrev pub Exclusive : List OperationalJobLease → Type 0
Exclusive [] = Unit
Exclusive (l ∷ ls) = All (Apart l) ls × Exclusive ls

-- The table's unique constraints, and tokens that were handed out.
pub record IsValid (db : Db) : Type 0 where
  pub exclusive : Exclusive db.leases
  pub issued : All (λ l. l.lock_token < db.next_token) db.leases

Exclusive-filter :
    (p : OperationalJobLease → Bool) (ls : List OperationalJobLease)
    → Exclusive ls
    → Exclusive (filter p ls)
Exclusive-filter p [] h = tt
Exclusive-filter p (l ∷ ls) h = elim (Bool-cases (p l)) [
  | inl e ↦ rw e (All-filter (Apart l) p ls h.0, Exclusive-filter p ls h.1)
  | inr e ↦ rw e (Exclusive-filter p ls h.1)
]

Exclusive-append :
    (new : OperationalJobLease) (ls : List OperationalJobLease)
    → All (λ l. Apart l new) ls
    → Exclusive ls
    → Exclusive (ls ++ new ∷ [])
Exclusive-append new [] a h = (tt, tt)
Exclusive-append new (l ∷ ls) a h =
    (All-append (Apart l) ls (new ∷ []) h.0 (a.0, tt), Exclusive-append new ls a.1 h.1)

-- Without the row that the query found there is none left for its job type.
pub others_differ :
    (t : OperationalJobType) (ls : List OperationalJobLease) (e : OperationalJobLease)
    → find (is_lease_of t) ls ≡ some e
    → Exclusive ls
    → All (λ l. is_lease_of t l ≡ false) (filter (λ other. not (same_token e other)) ls)
others_differ t [] e f h = cc
others_differ t (l ∷ ls) e f h = elim (Bool-cases (is_lease_of t l)) [
  | inl p ↦
      let same : l ≡ e = ground arith in
      let dropped : not (same_token e l) ≡ false = rw same (ground arith) in
      rw dropped (
        All-filter (λ m. is_lease_of t m ≡ false) (λ other. not (same_token e other)) ls
          (All-mp ls (λ m apart. ground arith) h.0))
  | inr p ↦
      let rest = others_differ t ls e (rw p at f) h.1 in
      elim (Bool-cases (not (same_token e l))) [ inl k ↦ rw k (p, rest) | inr k ↦ rw k rest ]
]

-- Giving a lease back keeps the table's constraints.
pub release-IsValid :
    (lease : OperationalJobLease) (db : Db) → IsValid db → IsValid (release lease db)
unfolding release
release-IsValid lease db v = record {
  exclusive = Exclusive-filter (λ other. not (same_token lease other)) db.leases v.exclusive;
  issued =
      All-filter (λ l. l.lock_token < db.next_token) (λ other. not (same_token lease other))
        db.leases v.issued;
}

module _ (job_type : OperationalJobType) (duration now : ℕ) (owner : String) where
  insert-IsValid :
      (recovered : Option String) (db : Db)
      → IsValid db
      → All (λ l. is_lease_of job_type l ≡ false) db.leases
      → IsValid (insert_lease job_type duration now owner recovered db).1
  unfolding insert_lease
  insert-IsValid recovered db v free =
      let new = new_lease job_type duration now owner db.next_token in
      record {
        exclusive =
            Exclusive-append new db.leases
              (All-mp2 db.leases (λ l f lt. (ground arith, omega arith)) free v.issued) v.exclusive;
        issued =
            All-append (λ l. l.lock_token < suc db.next_token) db.leases (new ∷ [])
              (All-mp db.leases (λ l h. omega arith) v.issued) (omega arith, tt);
      }

  -- Acquiring keeps a table of leases valid: at most one lease for each job type, distinct
  -- tokens, and only tokens that were handed out.
  pub acquire-IsValid : (db : Db) → IsValid db → IsValid (acquire job_type duration now owner db).1
  unfolding acquire
  acquire-IsValid db v = elim (Option-cases (find (is_lease_of job_type) db.leases)) [
    | inl e ↦ rw e (insert-IsValid none db v (find-none (is_lease_of job_type) db.leases e))
    | inr (old, e) ↦ elim (Bool-cases (ltb now old.expires_at)) [
      | inl t ↦ rw (e, acquire_over, t) v
      | inr t ↦
          rw (e, acquire_over, t)
            (let freed = release-IsValid old db v in
              insert-IsValid (some old.owner_identity)
                (add_run (abandoned_run job_type duration now owner old.owner_identity db.next_id)
                  (release old db))
                (record { exclusive = freed.exclusive; issued = freed.issued })
                (others_differ job_type db.leases old e v.exclusive))
    ]
  ]

  -- The two plain branches, as equations.
  pub acquire_free :
      (db : Db)
      → find (is_lease_of job_type) db.leases ≡ none
      → acquire job_type duration now owner db ≡ (
        acquired (new_lease job_type duration now owner db.next_token) none,
        record db {
          leases = db.leases ++ new_lease job_type duration now owner db.next_token ∷ [];
          next_token = suc db.next_token;
        },
      )
  unfolding acquire acquire_over insert_lease
  acquire_free db e = rw (e, acquire_over)

  pub acquire_held :
      (db : Db) (held : OperationalJobLease)
      → find (is_lease_of job_type) db.leases ≡ some held
      → now < held.expires_at
      → acquire job_type duration now owner db ≡ (refused held, db)
  unfolding acquire acquire_over
  acquire_held db held e lt = rw (e, acquire_over, lt→ltb _ _ lt)
