-- ===== src/Radar/RunLock.antt =====
-- src/oem_radar/core/run_lock.py: the lock file of one-shot crawls, as processes that take one
-- file-system call at a time. A process that is stepped while it holds the lock has finished its
-- crawl and calls `release`.
pub mod Exclusion
pub mod Reclaim
use semiconductor_intelligen.Prelude.{
  ℕ, Bool, true, false, Option, none, some, List, [], ◌∷◌, ◌==◌, if◌then◌else◌,
}

-- The inode at the lock's path: the process whose descriptor writes it, and the pid that reading it
-- gives, if it parses. `existing.get("pid") or 0` is 0 for a file that names no pid.
pub record LockFile : Type 0 where
  pub creator : ℕ
  pub pid : Option ℕ

-- Where a process stands in `acquire`, `_handle_existing` and `release`.
pub data Phase : Type 0 where
  -- before the exclusive create
  starting : Phase
  -- the file is created and not yet written
  writing : Phase
  -- the create failed: in `_handle_existing`, before the file is read
  reading : Phase
  -- the recorded process is dead: before the unlink
  reclaiming : Phase
  -- the stale file is unlinked: before the second create
  retrying : Phase
  -- `_held` is true
  holding : Phase
  -- in `release`, the file names this process: before the unlink
  releasing : Phase
  released : Phase
  -- LockError was raised
  refused : Phase

pub record System : Type 0 where
  pub file : Option LockFile
  pub phase : ℕ → Phase

abbrev pub set_phase : ℕ → Phase → System → System
set_phase p phase s = record s { phase = λ q. if q == p then phase else s.phase q }

-- os.open with O_CREAT | O_EXCL
unfoldable pub create : ℕ → Phase → Option LockFile → System → System
create p otherwise none s =
    set_phase p writing (record s { file = some (record { creator = p; pid = none }) })
create p otherwise (some file) s = set_phase p otherwise s

-- os.write to the descriptor of the file that the process created, which the path may no longer
-- name.
unfoldable pub write : ℕ → Option LockFile → Option LockFile
write p none = none
write p (some file) = if file.creator == p then some (record file { pid = some p }) else some file

abbrev pub after_probe : Option Bool → Phase
after_probe none = refused
after_probe (some true) = refused
after_probe (some false) = reclaiming

-- `probe` is the operating system's answer on a pid: alive, dead, or undetermined.
module _ (probe : ℕ → Option Bool) where
  unfoldable pub pid_alive : ℕ → Option Bool
  pid_alive pid = if pid == 0 then some false else probe pid

  abbrev pub after_parse : Option ℕ → Phase
  unfolding pid_alive
  after_parse none = refused
  after_parse (some pid) = after_probe (pid_alive pid)

  -- A file that vanished cannot be read either.
  abbrev pub after_read : Option LockFile → Phase
  after_read none = refused
  after_read (some file) = after_parse file.pid

abbrev pub after_owner : ℕ → Option ℕ → Phase
after_owner p none = released
after_owner p (some pid) = if pid == p then releasing else released

abbrev pub after_release_read : ℕ → Option LockFile → Phase
after_release_read p none = released
after_release_read p (some file) = after_owner p file.pid

abbrev pub unlink : Bool → System → System
unlink unlinks s = record s { file = if unlinks then none else s.file }

-- `unlinks` tells whether the operating system lets the path be unlinked.
module _ (probe : ℕ → Option Bool) (unlinks : Bool) where
  unfoldable pub step_at : ℕ → Phase → System → System
  unfolding create write
  step_at p starting s = create p reading s.file s
  step_at p writing s = set_phase p holding (record s { file = write p s.file })
  step_at p reading s = set_phase p (after_read probe s.file) s
  step_at p reclaiming s = set_phase p (if unlinks then retrying else refused) (unlink unlinks s)
  step_at p retrying s = create p refused s.file s
  step_at p holding s = set_phase p (after_release_read p s.file) s
  step_at p releasing s = set_phase p released (unlink unlinks s)
  step_at p released s = s
  step_at p refused s = s

  unfoldable pub step : ℕ → System → System
  unfolding step_at
  step p s = step_at p (s.phase p) s

  -- The processes step in the order of a schedule.
  unfoldable pub run : List ℕ → System → System
  run [] s = s
  run (p ∷ ps) s = run ps (step p s)
