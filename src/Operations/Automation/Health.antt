-- ===== src/Operations/Automation/Health.antt =====
-- When the automation is reported healthy.
use semiconductor_intelligen.Prelude.{
  ℕ, ◌+◌, ◌≤◌, ◌≡◌, refl, ◌↔◌, Bool, true, false, not, Option, none, some, arith, if◌then◌else◌,
}
use semiconductor_intelligen.Operations.Cycle.{CycleSettings}
use semiconductor_intelligen.Operations.Automation.{
  TaskStatus, AutomationState, is_false, is_benign, is_healthy, stale_after, heartbeat_state,
  effective_automation_state,
}

heartbeat_state_lem :
    (settings : CycleSettings) (task : TaskStatus) (now : ℕ) (heartbeat : Option ℕ)
    → (is_healthy (heartbeat_state settings task now heartbeat) ≡ true)
      ↔ ((t : ℕ) × (heartbeat ≡ some t) × (now ≤ t + stale_after settings task now))
unfolding heartbeat_state
heartbeat_state_lem settings task now none = (λ h. cc, λ (t, e, le). cc)
heartbeat_state_lem settings task now (some t) =
    (λ h. (t, refl, ground arith), λ (u, e, le). ground arith)

-- A rung of the ladder that reports no health.
rung :
    (b : Bool) (fault rest : AutomationState)
    → is_healthy fault ≡ false
    → is_healthy (if not b then fault else rest) ≡ true
    → (b ≡ true) × (is_healthy rest ≡ true)
rung true fault rest f h = (refl, h)
rung false fault rest f h = absurd (ground arith)

rung_unless :
    (b : Bool) (fault rest : AutomationState)
    → is_healthy fault ≡ false
    → is_healthy (if b then fault else rest) ≡ true
    → (b ≡ false) × (is_healthy rest ≡ true)
rung_unless false fault rest f h = (refl, h)
rung_unless true fault rest f h = absurd (ground arith)

module _ (settings : CycleSettings) (task : TaskStatus) (now : ℕ) where
  -- The automation is reported healthy exactly when the scheduler is enabled, the task is
  -- supported and installed, its path exists and is this executable, its action is not known to
  -- be wrong, its last run did not fail, and the heartbeat is at most the pipeline's interval and
  -- the tolerated delay old.
  pub healthy_iff : (is_healthy (effective_automation_state settings task now) ≡ true) ↔ (
      (settings.scheduler_enabled ≡ true)
      × (task.supported ≡ true)
      × (task.is_installed ≡ true)
      × (task.path_exists ≡ true)
      × (task.path_matches_current ≡ true)
      × (is_false task.action_matches_current ≡ false)
      × (is_benign task.last_result ≡ true)
      × ((t : ℕ) × (settings.last_scheduler_heartbeat ≡ some t)
          × (now ≤ t + stale_after settings task now)))
  unfolding effective_automation_state
  healthy_iff = (
    λ h.
        let (enabled, h) = rung _ _ _ refl h in
        let (supported, h) = rung _ _ _ refl h in
        let (installed, h) = rung _ _ _ refl h in
        let (exists, h) = rung _ _ _ refl h in
        let (current, h) = rung _ _ _ refl h in
        let (action, h) = rung_unless _ _ _ refl h in
        let (benign, h) = rung _ _ _ refl h in
        (
          enabled,
          supported,
          installed,
          exists,
          current,
          action,
          benign,
          (heartbeat_state_lem settings task now settings.last_scheduler_heartbeat).0 h,
        ),
    λ (enabled, supported, installed, exists, current, action, benign, fresh).
        rw (enabled, supported, installed, exists, current, action, benign)
          ((heartbeat_state_lem settings task now settings.last_scheduler_heartbeat).1 fresh),
  )
