-- ===== src/Radar/RunLock/Reclaim.antt =====
-- Taking over a lock whose process is dead.
use semiconductor_intelligen.Prelude.{
  ℕ, zero, suc, ◌≡◌, refl, sym, ◌≢◌, Bool, true, false, ◌&&◌, Option, none, some, List, [], ◌∷◌,
  arith, ◌==◌, if◌then◌else◌,
}
use semiconductor_intelligen.Radar.RunLock.{
  LockFile, Phase, System, starting, holding, refused, create, write, pid_alive, after_parse,
  step_at, step, run,
}

-- Every process is about to start, with this file at the path.
abbrev pub idle : Option LockFile → System
idle file = record { file = file; phase = λ q. starting }

-- The file is that of a process that died.
abbrev pub stale : ℕ → System
stale dead = idle (some (record { creator = dead; pid = some dead }))

same : (p : ℕ) → (p == p) ≡ true
same p = ground arith

differs : (p q : ℕ) → p ≢ q → (p == q) ≡ false
differs p q d = ground arith

module _ (probe : ℕ → Option Bool) (dead : ℕ) (is_dead : pid_alive probe dead ≡ some false) where
  -- For any two processes that start on the removable lock file of a dead one there is an order
  -- of their steps after which both hold the lock.
  pub acquire-both :
      (p q : ℕ)
      → p ≢ q
      → (ps : List ℕ) × ((run probe true ps (stale dead)).phase p ≡ holding)
        × ((run probe true ps (stale dead)).phase q ≡ holding)
  unfolding run step step_at create write after_parse
  acquire-both p q d = (
    p ∷ q ∷ p ∷ q ∷ p ∷ p ∷ p ∷ q ∷ q ∷ q ∷ [],
    simp (same p, same q, differs p q d, differs q p (λ e. d (sym e)), is_dead),
    simp (same p, same q, differs p q d, differs q p (λ e. d (sym e)), is_dead),
  )

-- The lock can be taken where there is no file, or a file that names a dead process and can be
-- unlinked.
abbrev is_dead_answer : Option Bool → Bool
is_dead_answer (some false) = true
is_dead_answer _ = false

abbrev pub names_dead : (ℕ → Option Bool) → Option ℕ → Bool
unfolding pid_alive
names_dead probe none = false
names_dead probe (some pid) = is_dead_answer (pid_alive probe pid)

abbrev pub is_available : (ℕ → Option Bool) → Bool → Option LockFile → Bool
is_available probe unlinks none = true
is_available probe unlinks (some file) = unlinks && names_dead probe file.pid

abbrev is_settled : Phase → Bool
is_settled holding = true
is_settled refused = true
is_settled _ = false

module _ (probe : ℕ → Option Bool) (unlinks : Bool) where
  -- `acquire` without interruption: the process steps until it holds the lock or is refused.
  unfoldable pub acquire : ℕ → ℕ → System → System
  unfolding step
  acquire p zero s = s
  acquire p (suc n) s =
      let rest = acquire p n (step probe unlinks p s) in if is_settled (s.phase p) then s else rest

  abbrev Outcome : ℕ → Option LockFile → Type 0
  Outcome p file =
      ((acquire p 6 (idle file)).phase p
        ≡ (if is_available probe unlinks file then holding else refused))
      × ((acquire p 6 (idle file)).file ≡ (
          if is_available probe unlinks file
          then some (record { creator = p; pid = some p })
          else file))

acquire-outcome_judged :
    (probe : ℕ → Option Bool) (unlinks : Bool) (p creator pid : ℕ) (answer : Option Bool)
    → pid_alive probe pid ≡ answer
    → Outcome probe unlinks p (some (record { creator = creator; pid = some pid }))
unfolding acquire step step_at create write after_parse names_dead
acquire-outcome_judged probe true p creator pid none e = (simp (same p, e), simp (same p, e))
acquire-outcome_judged probe true p creator pid (some true) e = (simp (same p, e), simp (same p, e))
acquire-outcome_judged probe true p creator pid (some false) e =
    (simp (same p, e), simp (same p, e))
acquire-outcome_judged probe false p creator pid none e = (simp (same p, e), simp (same p, e))
acquire-outcome_judged probe false p creator pid (some true) e =
    (simp (same p, e), simp (same p, e))
acquire-outcome_judged probe false p creator pid (some false) e =
    (simp (same p, e), simp (same p, e))

acquire-outcome_parsed :
    (probe : ℕ → Option Bool) (unlinks : Bool) (p creator : ℕ) (pid : Option ℕ)
    → Outcome probe unlinks p (some (record { creator = creator; pid = pid }))
unfolding acquire step step_at create write after_parse names_dead
acquire-outcome_parsed probe true p creator none = (simp (same p), simp (same p))
acquire-outcome_parsed probe false p creator none = (simp (same p), simp (same p))
acquire-outcome_parsed probe unlinks p creator (some pid) =
    acquire-outcome_judged probe unlinks p creator pid (pid_alive probe pid) refl

module _ (probe : ℕ → Option Bool) (unlinks : Bool) where
  -- While no other process has begun, an uninterrupted `acquire` of the run lock ends within six
  -- steps: where there is no file, or one that names a dead process and can be unlinked, the
  -- process holds the lock and the file names it; otherwise it is refused and the file is as it
  -- was.
  pub acquire-outcome : (p : ℕ) (file : Option LockFile) → Outcome probe unlinks p file
  unfolding acquire step step_at create write after_parse names_dead
  acquire-outcome p none = (simp (same p), simp (same p))
  acquire-outcome p (some file) = acquire-outcome_parsed probe unlinks p file.creator file.pid
