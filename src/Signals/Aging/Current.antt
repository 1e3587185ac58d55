-- ===== src/Signals/Aging/Current.antt =====
-- semi_intel/signals/aging.py: what makes a candidate current.
use semiconductor_intelligen.Prelude.{
  ℕ, suc, ◌*◌, ◌≤◌, ◌≡◌, refl, sym, ◌∙◌, Bool, true, false, ◌||◌, Option, none, some, List, [], ◌∷◌,
  arith, length, any, contains, sort_by, length-sort_by, Ascends, Ascends-sort_by, any-sort_by,
}
use semiconductor_intelligen.Signals.Aging.{
  Aged, CandidateAge, supported_age_windows, day, stamps, first_report, or_stored, or_members,
  grouped_reports, per_group, is_empty, last_two, ends, is_within, age_of, classify,
}

abbrev key : ℕ × Bool → ℕ
key report = report.0

-- The largest key of an ascending list stands at its end.
last_two_above :
    (x : ℕ × Bool) (previous : Option (ℕ × Bool)) (xs : List (ℕ × Bool))
    → Ascends key (key x) xs
    → key x ≤ key (last_two x previous xs).0
last_two_above x previous [] h = omega arith
last_two_above x previous (y ∷ ys) h = omega (arith, h.0, last_two_above y (some x) ys h.1)

any-last_two :
    (p : ℕ × Bool → Bool)
    → ((a b : ℕ × Bool) → key a ≤ key b → p a ≡ true → p b ≡ true)
    → (x : ℕ × Bool) (previous : Option (ℕ × Bool)) (xs : List (ℕ × Bool)) → Ascends key (key x) xs
    → (p x || any p xs) ≡ p (last_two x previous xs).0
any-last_two p up x previous [] h = ground arith
any-last_two p up x previous (y ∷ ys) h =
    let rest = any-last_two p up y (some x) ys h.1 in
    let above = last_two_above y (some x) ys h.1 in
    let raised = up x (last_two y (some x) ys).0 (omega (arith, h.0, above)) in
    ground (arith, rest, raised)

per_group-is_empty : (c : Aged) → is_empty (per_group c) ≡ false
per_group-is_empty c = members (grouped_reports c)
  where
    stored : (rows : List (ℕ × Bool)) → is_empty (or_stored c rows) ≡ false
    stored [] = refl
    stored (m ∷ rows) = refl

    members : (rows : List (ℕ × Bool)) → is_empty (or_members c rows) ≡ false
    members [] = stored (first_report (stamps c.members))
    members (m ∷ rows) = refl

-- The age that the last two reports give.
age_of-current :
    (now window : ℕ) (c : Aged) (reports : List (ℕ × Bool))
    → is_empty reports ≡ false
    → Ascends key 0 reports
    → (age : CandidateAge) × (age_of now window c (ends reports) ≡ some age)
      × (age.is_current ≡ any (is_within now window) reports)
age_of-current now window c [] e h = cc
age_of-current now window c (x ∷ xs) e h = (
  _,
  refl,
  sym (any-last_two (is_within now window) (λ a b less within. ground (arith, less)) x none xs h.1),
)

is_empty-of_length : (n : ℕ) (ys : List (ℕ × Bool)) → length ys ≡ suc n → is_empty ys ≡ false
is_empty-of_length n [] e = absurd (omega arith)
is_empty-of_length n (y ∷ ys) e = refl

is_empty-sort_by :
    (rows : List (ℕ × Bool)) → is_empty rows ≡ false → is_empty (sort_by key rows) ≡ false
is_empty-sort_by [] e = cc
is_empty-sort_by (r ∷ rows) e =
    is_empty-of_length (length rows) (sort_by key (r ∷ rows)) (length-sort_by key (r ∷ rows))

-- For a supported window a candidate has an age, and it is current exactly if the first report of
-- one of its groups, or the fallback where no group has a time, lies at most the window before now.
pub classify-current :
    (now age_days : ℕ) (c : Aged)
    → contains supported_age_windows age_days ≡ true
    → (age : CandidateAge) × (classify now age_days c ≡ some age)
      × (age.is_current ≡ any (is_within now (age_days * day)) (per_group c))
unfolding classify
classify-current now age_days c supported =
    let reports = sort_by key (per_group c) in
    let filled : is_empty reports ≡ false = is_empty-sort_by (per_group c) (per_group-is_empty c) in
    let (age, answer, current) =
      age_of-current now (age_days * day) c reports filled (Ascends-sort_by key (per_group c)) in
    (
      age,
      rw supported answer,
      current ∙ any-sort_by key (is_within now (age_days * day)) (per_group c),
    )
