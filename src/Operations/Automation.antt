-- ===== src/Operations/Automation.antt =====
-- semi_intel/operations/scheduler.py, effective_automation_state: what the operator is told of the
-- automation. The explanations that go with the states are left out.
pub mod Health
use semiconductor_intelligen.Prelude.{
  ℕ, ◌+◌, Bool, true, false, not, Option, none, some, [], ◌∷◌, ltb, if◌then◌else◌, contains,
}
use semiconductor_intelligen.Operations.Lease.{minutes}
use semiconductor_intelligen.Operations.Cycle.{CycleSettings}

-- The dict that describes the Windows task; a missing flag is false, and a missing
-- `action_matches_current` or `last_result` is none.
pub record TaskStatus : Type 0 where
  pub supported : Bool
  pub is_installed : Bool
  pub path_exists : Bool
  pub path_matches_current : Bool
  pub action_matches_current : Option Bool
  pub last_result : Option ℕ

pub data AutomationState : Type 0 where
  disabled task_status_unavailable task_not_installed task_path_invalid : AutomationState
  task_path_mismatch task_action_mismatch task_last_run_failed : AutomationState
  task_never_ran heartbeat_stale running_normally : AutomationState

-- `value is False`
abbrev pub is_false : Option Bool → Bool
is_false (some false) = true
is_false _ = false

-- `last_result in (None, 0, 0x41300, 0x41301, 0x41303)`
abbrev pub is_benign : Option ℕ → Bool
is_benign none = true
is_benign (some code) = contains (0 ∷ 267008 ∷ 267009 ∷ 267011 ∷ []) code

-- The entry `healthy`.
abbrev pub is_healthy : AutomationState → Bool
is_healthy running_normally = true
is_healthy _ = false

module _ (settings : CycleSettings) (task : TaskStatus) (now : ℕ) where
  abbrev pub stale_after : ℕ
  stale_after = minutes (settings.pipeline_interval_minutes + settings.missed_run_warning_minutes)

  -- heartbeat < now - stale_after
  unfoldable pub heartbeat_state : Option ℕ → AutomationState
  heartbeat_state none = task_never_ran
  heartbeat_state (some heartbeat) =
      if ltb (heartbeat + stale_after) now then heartbeat_stale else running_normally

  unfoldable pub effective_automation_state : AutomationState
  unfolding heartbeat_state
  effective_automation_state =
      if not settings.scheduler_enabled
      then disabled
      else if not task.supported
      then task_status_unavailable
      else if not task.is_installed
      then task_not_installed
      else if not task.path_exists
      then task_path_invalid
      else if not task.path_matches_current
      then task_path_mismatch
      else if is_false task.action_matches_current
      then task_action_mismatch
      else if not (is_benign task.last_result)
      then task_last_run_failed
      else heartbeat_state settings.last_scheduler_heartbeat
