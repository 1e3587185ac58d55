-- ===== src/Radar/RunLock/Exclusion.antt =====
-- At most one process holds the lock, as long as no lock is stale.
use semiconductor_intelligen.Prelude.{
  ℕ, ◌≡◌, refl, sym, ap, ◌∙◌, subst, ◌≢◌, ◌⊎◌, inl, inr, Bool, true, false, Option, none, some,
  List, [], ◌∷◌, arith, ◌==◌, if◌then◌else◌, All,
}
use semiconductor_intelligen.Radar.RunLock.{
  LockFile, Phase, System, starting, writing, reading, reclaiming, retrying, holding, releasing,
  released, refused, set_phase, create, write, after_probe, pid_alive, after_parse, after_read,
  after_release_read, step_at, step, run,
}

module _ (probe : ℕ → Option Bool) (unlinks : Bool) where
  -- What a process's phase says of the file.
  abbrev pub Owns : ℕ → Phase → Option LockFile → Type 0
  Owns p writing file = file ≡ some (record { creator = p; pid = none })
  Owns p holding file = file ≡ some (record { creator = p; pid = some p })
  Owns p releasing file = file ≡ some (record { creator = p; pid = some p })
  Owns p reclaiming file = ⊥
  Owns p retrying file = ⊥
  Owns p _ file = Unit

  -- The file is empty or names a live process.
  abbrev pub IsLive : Option LockFile → Type 0
  IsLive none = Unit
  IsLive (some file) =
      (file.pid ≡ none) ⊎ ((pid : ℕ) × (file.pid ≡ some pid) × (pid_alive probe pid ≡ some true))

  pub record IsExclusive (s : System) : Type 0 where
    pub live : IsLive s.file
    pub owns : (p : ℕ) → Owns p (s.phase p) s.file

  after_read-IsLive : (file : Option LockFile) → IsLive file → after_read probe file ≡ refused
  unfolding after_parse
  after_read-IsLive none h = refl
  after_read-IsLive (some file) (inl e) = ap (after_parse probe) e
  after_read-IsLive (some file) (inr (pid, e, a)) = ap (after_parse probe) e ∙ ap (after_probe) a

  -- The other processes' phases bear the file that a step leaves.
  Others : ℕ → System → Option LockFile → Type 0
  Others p s file = (q : ℕ) → (p ≡ q → ⊥) → Owns q (s.phase q) s.file → Owns q (s.phase q) file

  Owns-if :
      (q : ℕ) (b : Bool) (phase old : Phase) (file : Option LockFile)
      → (b ≡ true → Owns q phase file)
      → (b ≡ false → Owns q old file)
      → Owns q (if b then phase else old) file
  Owns-if q true phase old file f g = f refl
  Owns-if q false phase old file f g = g refl

  moved :
      (p : ℕ) (phase : Phase) (file : Option LockFile) (s : System)
      → IsExclusive s
      → IsLive file
      → Owns p phase file
      → Others p s file
      → IsExclusive (set_phase p phase (record s { file = file }))
  unfolding Others
  moved p phase file s ok live own others = record {
    live = live;
    owns = λ q.
        Owns-if q (q == p) phase (s.phase q) file
          (λ e. let same : p ≡ q = ground arith in rw same at own)
          (λ e. others q (λ same. ground arith) (ok.owns q));
  }

  -- A process that owns no file bears any change.
  Owns-none :
      (q : ℕ) (phase : Phase) (file : Option LockFile) → Owns q phase none → Owns q phase file
  Owns-none q starting file h = tt
  Owns-none q writing file h = cc
  Owns-none q reading file h = tt
  Owns-none q reclaiming file h = h
  Owns-none q retrying file h = h
  Owns-none q holding file h = cc
  Owns-none q releasing file h = cc
  Owns-none q released file h = tt
  Owns-none q refused file h = tt

  -- Nor does one whose file another process created.
  Owns-other :
      (p q : ℕ) (phase : Phase) (owned : LockFile) (file : Option LockFile)
      → (p ≡ q → ⊥)
      → owned.creator ≡ p
      → Owns q phase (some owned)
      → Owns q phase file
  Owns-other p q starting owned file d e h = tt
  Owns-other p q writing owned file d e h = absurd (d (ground arith))
  Owns-other p q reading owned file d e h = tt
  Owns-other p q reclaiming owned file d e h = h
  Owns-other p q retrying owned file d e h = h
  Owns-other p q holding owned file d e h = absurd (d (ground arith))
  Owns-other p q releasing owned file d e h = absurd (d (ground arith))
  Owns-other p q released owned file d e h = tt
  Owns-other p q refused owned file d e h = tt

  -- Two owners are one.
  Others-owned :
      (p : ℕ) (s : System) (owned : LockFile) (file : Option LockFile)
      → s.file ≡ some owned
      → owned.creator ≡ p
      → Others p s file
  unfolding Others
  Others-owned p s owned file e c q d h =
      Owns-other p q (s.phase q) owned file d c (subst (Owns q (s.phase q)) e h)

  create-IsExclusive :
      (p : ℕ) (otherwise : Phase) (s : System) (file : Option LockFile)
      → s.file ≡ file
      → Owns p otherwise s.file
      → IsExclusive s
      → IsExclusive (create p otherwise file s)
  unfolding create Others
  create-IsExclusive p otherwise s none e own ok =
      moved p writing (some (record { creator = p; pid = none })) s ok (inl refl) refl (λ q d h.
        Owns-none q (s.phase q) (some (record { creator = p; pid = none }))
          (subst (Owns q (s.phase q)) e h))
  create-IsExclusive p otherwise s (some file) e own ok =
      moved p otherwise s.file s ok ok.live own (λ q d h. h)

  IsLive-if : (b : Bool) (file : Option LockFile) → IsLive file → IsLive (if b then none else file)
  IsLive-if true file h = tt
  IsLive-if false file h = h

  write-own :
      (p : ℕ) (file : Option LockFile)
      → file ≡ some (record { creator = p; pid = none })
      → write p file ≡ some (record { creator = p; pid = some p })
  unfolding write
  write-own p none e = cc
  write-own p (some file) e = ground arith

  after_release_read-own :
      (p : ℕ) (file : Option LockFile)
      → file ≡ some (record { creator = p; pid = some p })
      → after_release_read p file ≡ releasing
  after_release_read-own p file e = ap (after_release_read p) e ∙ ground arith

  step_at-IsExclusive :
      (p : ℕ) (s : System)
      → pid_alive probe p ≡ some true
      → IsExclusive s
      → (phase : Phase) → Owns p phase s.file
      → s.phase p ≡ phase
      → IsExclusive (step_at probe unlinks p phase s)
  unfolding step_at Others
  step_at-IsExclusive p s alive ok starting own e = create-IsExclusive p reading s s.file refl tt ok
  step_at-IsExclusive p s alive ok writing own e =
      let written = write-own p s.file own in
      moved p holding (write p s.file) s ok (subst IsLive (sym written) (inr (p, refl, alive)))
        written (Others-owned p s _ _ own refl)
  step_at-IsExclusive p s alive ok reading own e =
      rw (after_read-IsLive s.file ok.live) (moved p refused s.file s ok ok.live tt (λ q d h. h))
  step_at-IsExclusive p s alive ok reclaiming own e = absurd own
  step_at-IsExclusive p s alive ok retrying own e = absurd own
  step_at-IsExclusive p s alive ok holding own e =
      rw (after_release_read-own p s.file own)
        (moved p releasing s.file s ok ok.live own (λ q d h. h))
  step_at-IsExclusive p s alive ok releasing own e =
      moved p released (if unlinks then none else s.file) s ok (IsLive-if unlinks s.file ok.live) tt
        (Others-owned p s _ _ own refl)
  step_at-IsExclusive p s alive ok released own e = ok
  step_at-IsExclusive p s alive ok refused own e = ok

  run-IsExclusive :
      (ps : List ℕ) (s : System)
      → All (λ p. pid_alive probe p ≡ some true) ps
      → IsExclusive s
      → IsExclusive (run probe unlinks ps s)
  unfolding run step
  run-IsExclusive [] s h ok = ok
  run-IsExclusive (p ∷ ps) s h ok =
      run-IsExclusive ps _ h.1 (step_at-IsExclusive p s h.0 ok (s.phase p) (ok.owns p) refl)

  -- No process has begun.
  abbrev pub IsIdle : System → Type 0
  IsIdle s = (p : ℕ) → s.phase p ≡ starting

  -- From a state in which no process has begun and the file, if there is one, cannot be parsed or
  -- names a live process, and in whatever order live processes take their steps: while one
  -- process holds the lock, no other does.
  pub run-excludes :
      (ps : List ℕ) (s : System) (p q : ℕ)
      → All (λ p. pid_alive probe p ≡ some true) ps
      → IsLive s.file
      → IsIdle s
      → p ≢ q
      → (run probe unlinks ps s).phase p ≡ holding
      → (run probe unlinks ps s).phase q ≢ holding
  run-excludes ps s p q alive live idle apart hp hq =
      let end =
        run-IsExclusive ps s alive
          (record { live = live; owns = λ r. subst (λ ph. Owns r ph s.file) (sym (idle r)) tt }) in
      let op : Owns p holding (run probe unlinks ps s).file =
        subst (λ ph. Owns p ph (run probe unlinks ps s).file) hp (end.owns p) in
      let oq : Owns q holding (run probe unlinks ps s).file =
        subst (λ ph. Owns q ph (run probe unlinks ps s).file) hq (end.owns q) in
      apart (ground arith)
