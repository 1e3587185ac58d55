-- ===== src/Signals/Aging/Copies.antt =====
-- semi_intel/signals/aging.py: later copies of a report.
use semiconductor_intelligen.Prelude.{
  ℕ, ◌-◌, ◌*◌, ◌/◌, ◌≤◌, ◌≡◌, refl, sym, ap, ◌∙◌, Bool, false, ◌&&◌, Option, none, some, List, [],
  ◌∷◌, ◌++◌, arith, ltb, if◌then◌else◌, if-false, length, concat_map, contains, sort_by,
}
use semiconductor_intelligen.Signals.Aging.{
  Observation, Aged, supported_age_windows, day, stamp_of, stamps, least, first_report, or_members,
  grouped_reports, per_group, is_empty, ends, is_gap, is_within, age_of, classify,
}

least_later :
    (m : ℕ × Bool) (rows : List (ℕ × Bool)) (late : ℕ × Bool)
    → (least m rows).0 ≤ late.0
    → least m (rows ++ late ∷ []) ≡ least m rows
least_later m [] late e = if-false (ltb late.0 m.0) late m (ground arith)
least_later m (r ∷ rows) late e = least_later (if ltb r.0 m.0 then r else m) rows late e

-- The time of a group's first report is at most that of another one.
abbrev pub IsLate : List (ℕ × Bool) → ℕ → Type 0
IsLate [] t = ⊥
IsLate (m ∷ rows) t = (least m rows).0 ≤ t

first_report_later :
    (rows : List (ℕ × Bool)) (late : ℕ × Bool)
    → IsLate rows late.0
    → first_report (rows ++ late ∷ []) ≡ first_report rows
first_report_later [] late e = absurd e
first_report_later (m ∷ rows) late e = ap (λ (r : ℕ × Bool). r ∷ []) (least_later m rows late e)

stamps-append : (xs ys : List Observation) → stamps (xs ++ ys) ≡ stamps xs ++ stamps ys
stamps-append [] ys = refl
stamps-append (x ∷ xs) ys =
    ap (λ rest. stamp_of x.posted_at x.collected_at ++ rest) (stamps-append xs ys)
    ∙ regroup x.posted_at x.collected_at (stamps xs) (stamps ys)
  where
    regroup :
        (p c : Option ℕ) (as_ bs : List (ℕ × Bool))
        → stamp_of p c ++ (as_ ++ bs) ≡ (stamp_of p c ++ as_) ++ bs
    regroup (some t) c as_ bs = refl
    regroup none (some t) as_ bs = refl
    regroup none none as_ bs = refl

abbrev reports_of : List (List Observation) → List (ℕ × Bool)
reports_of = concat_map (λ g. first_report (stamps g))

reports_of_later :
    (before after : List (List Observation)) (g : List Observation) (o : Observation)
    (report : ℕ × Bool)
    → stamp_of o.posted_at o.collected_at ≡ report ∷ []
    → IsLate (stamps g) report.0
    → reports_of (before ++ (g ++ o ∷ []) ∷ after) ≡ reports_of (before ++ g ∷ after)
reports_of_later [] after g o report e late =
    let grown : stamps (g ++ o ∷ []) ≡ stamps g ++ report ∷ [] =
      stamps-append g (o ∷ []) ∙ ap (λ rs. stamps g ++ (rs ++ [])) e in
    ap (λ rs. rs ++ reports_of after)
      (ap first_report grown ∙ first_report_later (stamps g) report late)
reports_of_later (b ∷ before) after g o report e late =
    ap (λ rs. first_report (stamps b) ++ rs) (reports_of_later before after g o report e late)

is_empty-append : (xs ys : List (ℕ × Bool)) → is_empty ys ≡ false → is_empty (xs ++ ys) ≡ false
is_empty-append [] ys e = e
is_empty-append (x ∷ xs) ys e = refl

is_empty-reports_of :
    (before after : List (List Observation)) (g : List Observation) (t : ℕ)
    → IsLate (stamps g) t
    → is_empty (reports_of (before ++ g ∷ after)) ≡ false
is_empty-reports_of [] after g t late = filled (stamps g) late
  where
    filled :
        (rows : List (ℕ × Bool))
        → IsLate rows t
        → is_empty (first_report rows ++ reports_of after) ≡ false
    filled [] e = absurd e
    filled (m ∷ rows) e = refl
is_empty-reports_of (b ∷ before) after g t late =
    is_empty-append (first_report (stamps b)) (reports_of (before ++ g ∷ after))
      (is_empty-reports_of before after g t late)

or_members-filled :
    (c : Aged) (rows : List (ℕ × Bool)) → is_empty rows ≡ false → or_members c rows ≡ rows
or_members-filled c [] e = cc
or_members-filled c (m ∷ rows) e = refl

age_of_same :
    (now window : ℕ) (c k : Aged) (o : Option ((ℕ × Bool) × Option (ℕ × Bool)))
    → grouped_reports k ≡ grouped_reports c
    → per_group k ≡ per_group c
    → age_of now window k o ≡ age_of now window c o
age_of_same now window c k none e h = refl
age_of_same now window c k (some (report, previous)) e h = λ i. some (record {
  is_current = is_within now window report;
  activity_at = report.0;
  elapsed = now - report.0;
  whole_days = (now - report.0) / day;
  used_collection_fallback = report.1;
  grouping_fallback = is_empty (e i);
  reactivated = is_within now window report && is_gap window report.0 previous;
  meaningful_group_count = length (h i);
})

-- Where a group gains a copy that is not earlier than its first report, the candidate's age stays
-- the same for every window, whatever else of the candidate changes but its other groups.
pub classify-copies :
    (now age_days : ℕ) (c k : Aged) (before after : List (List Observation)) (g : List Observation)
    (o : Observation) (report : ℕ × Bool)
    → c.groups ≡ before ++ g ∷ after
    → k.groups ≡ before ++ (g ++ o ∷ []) ∷ after
    → stamp_of o.posted_at o.collected_at ≡ report ∷ []
    → IsLate (stamps g) report.0
    → classify now age_days k ≡ classify now age_days c
unfolding classify
classify-copies now age_days c k before after g o report had has e late =
    let reports : grouped_reports k ≡ grouped_reports c =
      ap reports_of has
      ∙ reports_of_later before after g o report e late
      ∙ ap reports_of (sym had) in
    let filled : is_empty (grouped_reports c) ≡ false =
      ap (λ gs. is_empty (reports_of gs)) had ∙ is_empty-reports_of before after g report.0 late in
    let groups : per_group k ≡ per_group c =
      or_members-filled k (grouped_reports k) (ap is_empty reports ∙ filled)
      ∙ reports
      ∙ sym (or_members-filled c (grouped_reports c) filled) in
    ap (λ age. if contains supported_age_windows age_days then age else none)
      (ap (λ rs. age_of now (age_days * day) k (ends (sort_by (λ report. report.0) rs))) groups
        ∙ age_of_same now (age_days * day) c k (ends (sort_by (λ report. report.0) (per_group c)))
            reports groups)
