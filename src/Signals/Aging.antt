-- ===== src/Signals/Aging.antt =====
-- semi_intel/signals/aging.py: CandidateAgingService. Times are microseconds in UTC; the rounded age
-- in days and the texts are left out, and a reason is its parts.
pub mod Current
pub mod Copies
use semiconductor_intelligen.Prelude.{
  ℕ, ◌+◌, ◌-◌, ◌*◌, ◌/◌, Bool, true, false, ◌&&◌, Option, none, some, List, [], ◌∷◌, ltb, leb,
  if◌then◌else◌, length, concat_map, contains, sort_by,
}

-- The two times of a member's signal item.
pub record Observation : Type 0 where
  pub posted_at : Option ℕ
  pub collected_at : Option ℕ

-- The columns of the candidate, the members of its independence groups, and its members.
pub record Aged : Type 0 where
  pub latest_observed_at : Option ℕ
  pub first_observed_at : Option ℕ
  pub created_at : ℕ
  pub groups : List (List Observation)
  pub members : List Observation

pub record CandidateAge : Type 0 where
  pub is_current : Bool
  pub activity_at : ℕ
  pub elapsed : ℕ
  pub whole_days : ℕ
  pub used_collection_fallback : Bool
  pub grouping_fallback : Bool
  pub reactivated : Bool
  pub meaningful_group_count : ℕ

abbrev pub supported_age_windows : List ℕ
supported_age_windows = 3 ∷ 7 ∷ 14 ∷ 30 ∷ []

abbrev pub day : ℕ
day = 86400000000

-- (posted_at or collected_at, posted_at is None), where there is a time.
abbrev pub stamp_of : Option ℕ → Option ℕ → List (ℕ × Bool)
stamp_of (some posted) collected = (posted, false) ∷ []
stamp_of none (some collected) = (collected, true) ∷ []
stamp_of none none = []

abbrev pub stamps : List Observation → List (ℕ × Bool)
stamps = concat_map (λ o. stamp_of o.posted_at o.collected_at)

-- min(members, key=lambda row: row[0]), the first of equal ones
abbrev pub least : ℕ × Bool → List (ℕ × Bool) → ℕ × Bool
least m [] = m
least m (r ∷ rows) = least (if ltb r.0 m.0 then r else m) rows

-- A group without a time has no entry.
abbrev pub first_report : List (ℕ × Bool) → List (ℕ × Bool)
first_report [] = []
first_report (m ∷ rows) = least m rows ∷ []

-- latest_observed_at or first_observed_at or created_at
abbrev pub stored_time : Option ℕ → Option ℕ → ℕ → ℕ
stored_time (some latest) first created = latest
stored_time none (some first) created = first
stored_time none none created = created

abbrev pub or_stored : Aged → List (ℕ × Bool) → List (ℕ × Bool)
or_stored c [] = (stored_time c.latest_observed_at c.first_observed_at c.created_at, true) ∷ []
or_stored c (m ∷ rows) = m ∷ rows

-- The conservative fallback, where no group has a time.
abbrev pub or_members : Aged → List (ℕ × Bool) → List (ℕ × Bool)
or_members c [] = or_stored c (first_report (stamps c.members))
or_members c (m ∷ rows) = m ∷ rows

abbrev pub grouped_reports : Aged → List (ℕ × Bool)
grouped_reports c = concat_map (λ g. first_report (stamps g)) c.groups

abbrev pub per_group : Aged → List (ℕ × Bool)
per_group c = or_members c (grouped_reports c)

abbrev pub is_empty {ℓ} : {A : Type ℓ} → List A → Bool
is_empty [] = true
is_empty (x ∷ xs) = false

-- per_group[-1], and per_group[-2] where there is one
abbrev pub last_two {ℓ} : {A : Type ℓ} → A → Option A → List A → A × Option A
last_two x previous [] = (x, previous)
last_two x previous (y ∷ ys) = last_two y (some x) ys

abbrev pub ends {ℓ} : {A : Type ℓ} → List A → Option (A × Option A)
ends [] = none
ends (x ∷ xs) = some (last_two x none xs)

-- A gap longer than the window before the newest report.
abbrev pub is_gap : ℕ → ℕ → Option (ℕ × Bool) → Bool
is_gap window activity_at none = false
is_gap window activity_at (some previous) = ltb window (activity_at - previous.0)

-- activity_at >= now - window
abbrev pub is_within : ℕ → ℕ → ℕ × Bool → Bool
is_within now window report = leb now (report.0 + window)

abbrev pub age_of : ℕ → ℕ → Aged → Option ((ℕ × Bool) × Option (ℕ × Bool)) → Option CandidateAge
age_of now window c none = none
age_of now window c (some (report, previous)) = some (record {
  is_current = is_within now window report;
  activity_at = report.0;
  elapsed = now - report.0;
  whole_days = (now - report.0) / day;
  used_collection_fallback = report.1;
  grouping_fallback = is_empty (grouped_reports c);
  reactivated = is_within now window report && is_gap window report.0 previous;
  meaningful_group_count = length (per_group c);
})

-- classify_many for one candidate; none is the ValueError of validate_window.
unfoldable pub classify : ℕ → ℕ → Aged → Option CandidateAge
classify now age_days c =
    let age = age_of now (age_days * day) c (ends (sort_by (λ report. report.0) (per_group c))) in
    if contains supported_age_windows age_days then age else none
