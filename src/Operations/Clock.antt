-- ===== src/Operations/Clock.antt =====
-- Times of day in the operator's time zone: semi_intel/operations/scheduler.py, _daily_due and
-- most_recent_daily_boundary; semi_intel/notifications/delivery.py, quiet_hours_end.
pub mod Boundaries
use semiconductor_intelligen.Prelude.{
  ℕ, ◌+◌, ◌-◌, ◌*◌, ◌/◌, ◌%◌, ◌≡◌, ◌&&◌, ◌||◌, Option, none, some, ltb, leb, ◌==◌, if◌then◌else◌,
}

abbrev pub day : ℕ
day = 86400000000

-- A zone of the tz database: local wall-clock time for a UTC time, and back. Both are microseconds.
pub record Zone : Type 0 where
  pub to_local : ℕ → ℕ
  pub to_utc : ℕ → ℕ

-- A zone without clock changes.
pub record IsFixed (zone : Zone) : Type 0 where
  pub local_utc : (t : ℕ) → zone.to_local (zone.to_utc t) ≡ t

-- `dt.datetime.combine(local.date(), clock)`
abbrev pub combine : ℕ → ℕ → ℕ
combine local clock = local / day * day + clock

unfoldable pub daily_due : ℕ → Zone → ℕ → ℕ
daily_due now zone clock =
    let local = zone.to_local now in
    let candidate = combine local clock in
    zone.to_utc (if leb candidate local then candidate + day else candidate)

unfoldable pub most_recent_daily_boundary : ℕ → Zone → ℕ → ℕ
most_recent_daily_boundary now zone clock =
    let local = zone.to_local now in
    let candidate = combine local clock in
    zone.to_utc (if ltb local candidate then candidate - day else candidate)

-- `start` and `end` are times of day; the quiet time ends at the returned UTC time.
unfoldable pub quiet_hours_end : ℕ → Zone → ℕ → ℕ → Option ℕ
quiet_hours_end now zone start end =
    let local = zone.to_local now in
    let time = local % day in
    if start == end
    then none
    else if ltb start end
    then (if leb start time && ltb time end then some (zone.to_utc (combine local end)) else none)
    else if leb start time || ltb time end
    then some (zone.to_utc (combine local end + (if leb start time then day else 0)))
    else none
