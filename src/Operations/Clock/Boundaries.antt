-- ===== src/Operations/Clock/Boundaries.antt =====
-- The daily times and the end of the quiet hours are where the local clock says.
use semiconductor_intelligen.Prelude.{ℕ, ◌+◌, ◌-◌, ◌%◌, ◌≤◌, ◌<◌, ◌≡◌, some, arith, ltb, is_some}
use semiconductor_intelligen.Operations.Clock.{
  Zone, IsFixed, day, combine, daily_due, most_recent_daily_boundary, quiet_hours_end,
}

module _ (zone : Zone) (fixed : IsFixed zone) (now clock : ℕ) (in_day : clock < day) where
  -- In a zone without clock changes the next daily time is the first time after now, at most a day
  -- ahead, at which the local clock shows the given time of day.
  pub daily_due_lem :
      (zone.to_local now < zone.to_local (daily_due now zone clock))
      × (zone.to_local (daily_due now zone clock) ≤ zone.to_local now + day)
      × (zone.to_local (daily_due now zone clock) % day ≡ clock)
  unfolding daily_due
  daily_due_lem = simp fixed.local_utc (ground arith)

  -- In a zone without clock changes, and from the second day on, the most recent daily time is the
  -- last time up to now, less than a day ago, at which the local clock shows the given time of day.
  pub most_recent_daily_boundary_lem :
      day ≤ zone.to_local now
      → (zone.to_local (most_recent_daily_boundary now zone clock) ≤ zone.to_local now)
        × (zone.to_local now < zone.to_local (most_recent_daily_boundary now zone clock) + day)
        × (zone.to_local (most_recent_daily_boundary now zone clock) % day ≡ clock)
  unfolding most_recent_daily_boundary
  most_recent_daily_boundary_lem h = simp fixed.local_utc (ground arith)

-- The microseconds since the last time that the local clock showed `start`.
abbrev pub since : ℕ → ℕ → ℕ
since start time = (time + day - start) % day

module _ (zone : Zone) (now start end : ℕ) (start_in_day : start < day)
    (end_in_day : end < day) where
  -- It is quiet exactly when less time has passed since the local clock showed `start` than lies
  -- between `start` and `end`, around midnight where `end` is the smaller.
  pub quiet_hours_end-is_some :
      is_some (quiet_hours_end now zone start end)
      ≡ ltb (since start (zone.to_local now % day)) (since start end)
  unfolding quiet_hours_end
  quiet_hours_end-is_some = ground arith

  -- In a zone without clock changes the quiet time ends after now and at most a day ahead, when the
  -- local clock shows `end`.
  pub quiet_hours_end_lem :
      IsFixed zone
      → (until : ℕ) → quiet_hours_end now zone start end ≡ some until
      → (zone.to_local now < zone.to_local until)
        × (zone.to_local until ≤ zone.to_local now + day)
        × (zone.to_local until % day ≡ end)
  unfolding quiet_hours_end
  quiet_hours_end_lem fixed until h =
      let target = combine (zone.to_local now) end in
      ground (
        arith,
        fixed.local_utc target,
        fixed.local_utc (target + 0),
        fixed.local_utc (target + day),
      )
