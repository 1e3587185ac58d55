-- ===== src/Operations/Lease/Holding.antt =====
-- Holding a lease: no other caller gets the job type before the lease expires.
use mathlib.Core.List.{append-nil}
use semiconductor_intelligen.Prelude.{
  ℕ, ◌≤◌, ◌<◌, String, ◌≡◌, refl, sym, ◌∙◌, subst, ◌≢◌, inl, inr, true, false, not, Option, none,
  some, List, [], ◌∷◌, ◌++◌, arith, ltb, ◌==◌, lt→ltb, ==_iff, Bool-cases, Option-cases, find, All,
  find-append,
}
use semiconductor_intelligen.Prelude.Rows.{All-find, find_absent, find-filter, find-append_some}
use semiconductor_intelligen.Operations.Lease.{
  OperationalJobType, OperationalJobLease, OperationalJobRun, Db, scheduler, abandoned, acquired,
  refused, ordinal, is_lease_of, new_run, same_token, release, new_lease, acquire, insert_lease,
  acquire_over,
}
use semiconductor_intelligen.Operations.Lease.Exclusion.{
  IsValid, Exclusive, others_differ, release-IsValid, acquire-IsValid,
}

-- What other callers do meanwhile.
pub data Call : Type 0 where
  acquiring : OperationalJobType → ℕ → ℕ → String → Call
  releasing : OperationalJobLease → Call

unfoldable pub call : Call → Db → Db
call (acquiring job_type duration now owner) db = (acquire job_type duration now owner db).1
call (releasing lease) db = release lease db

unfoldable pub calls : List Call → Db → Db
calls [] db = db
calls (c ∷ cs) db = calls cs (call c db)

-- The calls that do not concern the holder: acquiring before the lease expires, and giving back
-- another lease.
abbrev pub LeavesAlone : OperationalJobLease → Call → Type 0
LeavesAlone lease (acquiring job_type duration now owner) = now < lease.expires_at
LeavesAlone lease (releasing other) = other.lock_token ≢ lease.lock_token

tokens_differ_of_type :
    (t : OperationalJobType) (l : OperationalJobLease) (ls : List OperationalJobLease)
    (e : OperationalJobLease)
    → find (is_lease_of t) ls ≡ some e
    → All (λ m. (ordinal l.job_type ≢ ordinal m.job_type) × (l.lock_token ≢ m.lock_token)) ls
    → l.lock_token ≢ e.lock_token
tokens_differ_of_type t l ls e f h =
    (All-find (λ m. (ordinal l.job_type ≢ ordinal m.job_type) × (l.lock_token ≢ m.lock_token))
      (is_lease_of t) ls e f h).1

-- Rows found for two job types are two rows.
tokens_differ :
    (t u : OperationalJobType) (ls : List OperationalJobLease) (l m : OperationalJobLease)
    → (ordinal t == ordinal u) ≡ false
    → find (is_lease_of t) ls ≡ some l
    → find (is_lease_of u) ls ≡ some m
    → Exclusive ls
    → l.lock_token ≢ m.lock_token
tokens_differ t u [] l m d f g h = cc
tokens_differ t u (x ∷ ls) l m d f g h = elim (Bool-cases (is_lease_of t x)) [
  | inl p ↦
      let same : x ≡ l = ground arith in
      let other : is_lease_of u x ≡ false = ground arith in
      let found : find (is_lease_of u) ls ≡ some m = rw other at g in
      rw same at (tokens_differ_of_type u x ls m found h.0)
  | inr p ↦ elim (Bool-cases (is_lease_of u x)) [
    | inl q ↦
        let same : x ≡ m = ground arith in
        let found : find (is_lease_of t) ls ≡ some l = rw p at f in
        let apart = tokens_differ_of_type t x ls l found h.0 in λ e. (rw same at apart) (sym e)
    | inr q ↦ tokens_differ t u ls l m d (rw p at f) (rw q at g) h.1
  ]
]

-- The owner of a lease, and the record of its abandoned run.
abbrev pub owner_of : Option OperationalJobLease → Option String
owner_of none = none
owner_of (some old) = some old.owner_identity

abbrev pub abandoned_of :
    OperationalJobType → ℕ → ℕ → Option OperationalJobLease → List OperationalJobRun
abandoned_of t now id none = []
abandoned_of t now id (some old) =
    record (new_run t scheduler abandoned old.owner_identity now id) { finished_at = some now } ∷ []

module _ (lease : OperationalJobLease) where
  abbrev pub Held : Db → Type 0
  Held db = find (is_lease_of lease.job_type) db.leases ≡ some lease

  release-Held :
      (other : OperationalJobLease) (db : Db)
      → other.lock_token ≢ lease.lock_token
      → Held db
      → Held (release other db)
  unfolding release
  release-Held other db ne h =
      find-filter (is_lease_of lease.job_type) (λ l. not (same_token other l)) db.leases lease h
        (ground arith)

  acquire-refused :
      (duration now : ℕ) (owner : String) (db : Db)
      → Held db
      → now < lease.expires_at
      → acquire lease.job_type duration now owner db ≡ (refused lease, db)
  unfolding acquire acquire_over
  acquire-refused duration now owner db h lt = rw (h, acquire_over, lt→ltb _ _ lt)

  acquire_same-Held :
      (t : OperationalJobType) (duration now : ℕ) (owner : String) (db : Db)
      → (ordinal lease.job_type == ordinal t) ≡ true
      → Held db
      → now < lease.expires_at
      → Held (acquire t duration now owner db).1
  unfolding acquire acquire_over
  acquire_same-Held t duration now owner db same h lt =
      let found : find (is_lease_of t) db.leases ≡ some lease =
        subst (λ o. find (λ l. ordinal l.job_type == o) db.leases ≡ some lease)
          ((==_iff (ordinal lease.job_type) (ordinal t)).0 same) h in
      rw (found, acquire_over, lt→ltb _ _ lt) h

  acquire_other-Held :
      (t : OperationalJobType) (duration now : ℕ) (owner : String) (db : Db)
      → (ordinal lease.job_type == ordinal t) ≡ false
      → IsValid db
      → Held db
      → Held (acquire t duration now owner db).1
  unfolding acquire acquire_over insert_lease
  acquire_other-Held t duration now owner db d v h =
      let new = new_lease t duration now owner db.next_token in
      elim (Option-cases (find (is_lease_of t) db.leases)) [
        | inl e ↦ rw e (find-append_some (is_lease_of lease.job_type) db.leases (new ∷ []) lease h)
        | inr (old, e) ↦ elim (Bool-cases (ltb now old.expires_at)) [
          | inl p ↦ rw (e, acquire_over, p) h
          | inr p ↦
              rw (e, acquire_over, p)
                (find-append_some (is_lease_of lease.job_type) (release old db).leases (new ∷ [])
                  lease
                  (release-Held old db
                    (λ same.
                      tokens_differ lease.job_type t db.leases lease old d h e v.exclusive
                        (sym same))
                    h))
        ]
      ]

  call-Held : (c : Call) (db : Db) → LeavesAlone lease c → IsValid db → Held db → Held (call c db)
  unfolding call
  call-Held (acquiring t duration now owner) db ok v h =
      elim (Bool-cases (ordinal lease.job_type == ordinal t)) [
        | inl e ↦ acquire_same-Held t duration now owner db e h ok
        | inr e ↦ acquire_other-Held t duration now owner db e v h
      ]
  call-Held (releasing other) db ok v h = release-Held other db ok h

  call-IsValid : (c : Call) (db : Db) → IsValid db → IsValid (call c db)
  unfolding call
  call-IsValid (acquiring t duration now owner) db v = acquire-IsValid t duration now owner db v
  call-IsValid (releasing other) db v = release-IsValid other db v

  calls-Held :
      (cs : List Call) (db : Db)
      → All (LeavesAlone lease) cs
      → IsValid db
      → Held db
      → Held (calls cs db)
  unfolding calls
  calls-Held [] db ok v h = h
  calls-Held (c ∷ cs) db ok v h =
      calls-Held cs (call c db) ok.1 (call-IsValid c db v) (call-Held c db ok.0 v h)

-- Mutual exclusion. While a lease is in a table that meets its constraints, and whatever the other
-- callers acquire before it expires or give back of theirs, an attempt to acquire its job type at
-- a time before it expires is refused with that lease and changes nothing.
pub acquire-refused_while_held :
    (lease : OperationalJobLease) (cs : List Call) (db : Db) (duration now : ℕ) (owner : String)
    → IsValid db
    → find (is_lease_of lease.job_type) db.leases ≡ some lease
    → All (LeavesAlone lease) cs
    → now < lease.expires_at
    → acquire lease.job_type duration now owner (calls cs db) ≡ (refused lease, calls cs db)
acquire-refused_while_held lease cs db duration now owner v h ok lt =
    acquire-refused lease duration now owner (calls cs db) (calls-Held lease cs db ok v h) lt

-- In a valid table without an unexpired lease of the job type, acquiring succeeds: the caller's
-- new lease, with the next token, is the one that the table holds for the job type; the owner of
-- an expired lease is reported, and its run is recorded as abandoned.
pub acquire-takes :
    (t : OperationalJobType) (duration now : ℕ) (owner : String) (db : Db)
    → IsValid db
    → ((old : OperationalJobLease)
        → find (is_lease_of t) db.leases ≡ some old
        → old.expires_at ≤ now)
    → (find (is_lease_of t) (acquire t duration now owner db).1.leases
        ≡ some (new_lease t duration now owner db.next_token))
      × ((acquire t duration now owner db).0
          ≡ acquired
              (new_lease t duration now owner db.next_token)
              (owner_of (find (is_lease_of t) db.leases)))
      × ((acquire t duration now owner db).1.runs
          ≡ db.runs ++ abandoned_of t now db.next_id (find (is_lease_of t) db.leases))
unfolding acquire acquire_over insert_lease
acquire-takes t duration now owner db v expired =
    let new = new_lease t duration now owner db.next_token in
    elim (Option-cases (find (is_lease_of t) db.leases)) [
      | inl e ↦
          rw (e, acquire_over)
            (
              find-append (is_lease_of t) db.leases new e ∙ ground arith,
              refl,
              sym (append-nil db.runs),
            )
      | inr (old, e) ↦
          let late : ltb now old.expires_at ≡ false = ground (arith, expired old e) in
          rw (e, acquire_over, late)
            (
              find-append (is_lease_of t) (release old db).leases new (
                    find_absent (is_lease_of t) (release old db).leases
                      (others_differ t db.leases old e v.exclusive))
                  ∙ ground arith,
              refl,
              refl,
            )
    ]
