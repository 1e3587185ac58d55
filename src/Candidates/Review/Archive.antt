-- ===== src/Candidates/Review/Archive.antt =====
-- One review for each candidate, and its corrections.
use semiconductor_intelligen.Prelude.{
  ℕ, ◌+◌, ◌≤◌, String, ◌≡◌, refl, sym, subst, inl, inr, Bool, true, false, Option, none, some, List,
  [], ◌∷◌, ◌++◌, arith, if◌then◌else◌, ==_iff, Bool-cases, length, any, filter, find, update_first,
}
use semiconductor_intelligen.Candidates.State.{SignalCandidate}
use semiconductor_intelligen.Candidates.Review.{
  CandidateReviewDisposition, CandidateReview, reviews, same_disposition, overwrite, give_reason,
  correct, new_review, store, insert_raced, submit_found, submit_candidate_review,
}

-- How many reviews a candidate has.
abbrev pub count : ℕ → List CandidateReview → ℕ
count id rows = length (filter (reviews id) rows)

-- uq_candidate_review_candidate_id
abbrev pub IsUnique : List CandidateReview → Type 0
IsUnique rows = (id : ℕ) → count id rows ≤ 1

count-append :
    (id : ℕ) (xs ys : List CandidateReview) → count id (xs ++ ys) ≡ count id xs + count id ys
count-append id [] ys = omega arith
count-append id (x ∷ xs) ys = ground (arith, count-append id xs ys)

any-count :
    (id : ℕ) (rows : List CandidateReview) → any (reviews id) rows ≡ false → count id rows ≡ 0
any-count id [] h = refl
any-count id (x ∷ rows) h = ground (arith, any-count id rows)

pub correct-id :
    (d : CandidateReviewDisposition) (reason : Option String) (now : ℕ) (r : CandidateReview)
    → (correct d reason now r).candidate_id ≡ r.candidate_id
unfolding correct
correct-id d reason now r = go (same_disposition r.disposition d)
  where
    go :
        (b : Bool)
        → (give_reason reason (if b then r else overwrite d now r)).candidate_id ≡ r.candidate_id
    go true = refl
    go false = refl

count-update_first :
    (p : CandidateReview → Bool) (f : CandidateReview → CandidateReview) (id : ℕ)
    → ((r : CandidateReview) → (f r).candidate_id ≡ r.candidate_id)
    → (rows : List CandidateReview) → count id (update_first p f rows) ≡ count id rows
unfolding update_first
count-update_first p f id same [] = refl
count-update_first p f id same (x ∷ rows) =
    ground (arith, same x, count-update_first p f id same rows)

find-any :
    (p : CandidateReview → Bool) (rows : List CandidateReview)
    → any p rows ≡ true
    → (r : CandidateReview) × (find p rows ≡ some r)
find-any p [] h = cc
find-any p (x ∷ rows) h = elim (Bool-cases (p x)) [
  | inl e ↦ (x, rw e refl)
  | inr e ↦ let rest = find-any p rows (rw e at h) in (rest.0, rw e rest.1)
]

pub any-find :
    (p : CandidateReview → Bool) (rows : List CandidateReview)
    → any p rows ≡ false
    → find p rows ≡ none
any-find p [] h = refl
any-find p (x ∷ rows) h = ground (arith, any-find p rows)

module _ (candidate : SignalCandidate) (disposition : CandidateReviewDisposition)
    (reason : Option String) (now : ℕ) where
  count-store-some :
      (id : ℕ) (existing : CandidateReview) (rows : List CandidateReview)
      → count id (store candidate disposition reason now (some existing) rows) ≡ count id rows
  unfolding store
  count-store-some id existing rows =
      count-update_first (reviews candidate.id) (correct disposition reason now) id
        (correct-id disposition reason now) rows

  count-store-none :
      (id : ℕ) (rows : List CandidateReview)
      → any (reviews candidate.id) rows ≡ false
      → count id rows ≤ 1
      → count id (store candidate disposition reason now none rows) ≤ 1
  unfolding store
  count-store-none id rows h u =
      let added = count-append id rows (new_review candidate disposition reason now ∷ []) in
      let absent = any-count id rows in
      let same = (==_iff candidate.id id).0 in
      let moved = λ (e : candidate.id ≡ id). subst (λ k. any (reviews k) rows ≡ false) e h in
      ground (arith, added, absent, same, moved)

  insert_raced-IsUnique :
      (others rows : List CandidateReview)
      → IsUnique (rows ++ others)
      → IsUnique (insert_raced candidate disposition reason now others rows)
  unfolding insert_raced
  insert_raced-IsUnique others rows h id =
      elim (Bool-cases (any (reviews candidate.id) (rows ++ others))) [
        | inl e ↦
            let found = find-any (reviews candidate.id) (rows ++ others) e in
            rw (e, found.1, count-store-some id found.0 (rows ++ others)) (h id)
        | inr e ↦ rw e (count-store-none id (rows ++ others) e (h id))
      ]

  submit_found-IsUnique :
      (found : Option CandidateReview) (others rows : List CandidateReview)
      → IsUnique (rows ++ others)
      → IsUnique (submit_found candidate disposition reason now found others rows)
  unfolding submit_found
  submit_found-IsUnique (some existing) others rows h = λ id.
      let joined = count-append id rows others in
      rw
        (
          count-append id (store candidate disposition reason now (some existing) rows) others,
          count-store-some id existing rows,
          sym joined,
        )
        (h id)
  submit_found-IsUnique none others rows h = insert_raced-IsUnique others rows h

  -- A submission keeps at most one review for each candidate, even where other sessions commit
  -- reviews between the query and the insertion, as long as the table with their rows has at most
  -- one for each.
  pub submit-IsUnique :
      (others rows : List CandidateReview)
      → IsUnique (rows ++ others)
      → IsUnique (submit_candidate_review candidate disposition reason now others rows)
  unfolding submit_candidate_review
  submit-IsUnique others rows h =
      submit_found-IsUnique (find (reviews candidate.id) rows) others rows h
