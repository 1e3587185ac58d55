-- ===== src/Candidates/Review/Verdict.antt =====
-- The review that a submission leaves.
use mathlib.Core.Option
use semiconductor_intelligen.Prelude.{
  ℕ, String, ◌≡◌, refl, sym, ap, ◌∙◌, ◌≢◌, inl, inr, Bool, true, false, Option, none, some, List,
  [], ◌∷◌, ◌++◌, arith, ◌==◌, if◌then◌else◌, Bool-cases, is_some, any, find, find-update_first,
  find-update_first_ne, find-append,
}
use semiconductor_intelligen.Prelude.Rows.{find-append_some}
use semiconductor_intelligen.Candidates.State.{SignalCandidate}
use semiconductor_intelligen.Candidates.Review.{
  CandidateReviewDisposition, CandidateReview, useful, not_useful, false_positive, duplicate, value,
  reviews, same_disposition, overwrite, give_reason, correct, new_review, store, insert_raced,
  submit_found, submit_candidate_review,
}
use semiconductor_intelligen.Candidates.Review.Archive.{correct-id, any-find}

same_disposition-eq : (a b : CandidateReviewDisposition) → same_disposition a b ≡ true → a ≡ b
same_disposition-eq useful useful h = refl
same_disposition-eq useful not_useful h = cc
same_disposition-eq useful false_positive h = cc
same_disposition-eq useful duplicate h = cc
same_disposition-eq not_useful useful h = cc
same_disposition-eq not_useful not_useful h = refl
same_disposition-eq not_useful false_positive h = cc
same_disposition-eq not_useful duplicate h = cc
same_disposition-eq false_positive useful h = cc
same_disposition-eq false_positive not_useful h = cc
same_disposition-eq false_positive false_positive h = refl
same_disposition-eq false_positive duplicate h = cc
same_disposition-eq duplicate useful h = cc
same_disposition-eq duplicate not_useful h = cc
same_disposition-eq duplicate false_positive h = cc
same_disposition-eq duplicate duplicate h = refl

correct-disposition :
    (d : CandidateReviewDisposition) (reason : Option String) (now : ℕ) (r : CandidateReview)
    → (correct d reason now r).disposition ≡ d
unfolding correct
correct-disposition d reason now r = go (same_disposition r.disposition d) refl
  where
    go :
        (b : Bool)
        → same_disposition r.disposition d ≡ b
        → (give_reason reason (if b then r else overwrite d now r)).disposition ≡ d
    go true e = same_disposition-eq r.disposition d e
    go false e = refl

history-if :
    (b : Bool) (old new : CandidateReview)
    → (if b then old else new).correction_history
      ≡ (if b then old.correction_history else new.correction_history)
history-if true old new = refl
history-if false old new = refl

find-append_or :
    (p : CandidateReview → Bool) (xs ys : List CandidateReview)
    → find p (xs ++ ys) ≡ (if is_some (find p xs) then find p xs else find p ys)
find-append_or p [] ys = refl
find-append_or p (x ∷ xs) ys = ground (arith, find-append_or p xs ys)

module _ (candidate : SignalCandidate) (disposition : CandidateReviewDisposition)
    (reason : Option String) (now : ℕ) where
  correct-reviews :
      (id : ℕ) (r : CandidateReview) → reviews id (correct disposition reason now r) ≡ reviews id r
  correct-reviews id r = ap (λ i. i == id) (correct-id disposition reason now r)

  store-recorded :
      (rows : List CandidateReview) (found : Option CandidateReview)
      → find (reviews candidate.id) rows ≡ found
      → (review : CandidateReview) × (find
            (reviews candidate.id)
            (store candidate disposition reason now found rows)
          ≡ some review)
        × (review.disposition ≡ disposition)
  unfolding store
  store-recorded rows (some old) e = (
    correct disposition reason now old,
    find-update_first (reviews candidate.id) (correct disposition reason now)
          (correct-reviews candidate.id) rows
        ∙ ap (Option.map (correct disposition reason now)) e,
    correct-disposition disposition reason now old,
  )
  store-recorded rows none e = (
    new_review candidate disposition reason now,
    find-append (reviews candidate.id) rows _ e ∙ ground arith,
    refl,
  )

  insert_raced-recorded :
      (others rows : List CandidateReview)
      → (review : CandidateReview) × (find
            (reviews candidate.id)
            (insert_raced candidate disposition reason now others rows)
          ≡ some review)
        × (review.disposition ≡ disposition)
  unfolding insert_raced
  insert_raced-recorded others rows =
      elim (Bool-cases (any (reviews candidate.id) (rows ++ others))) [
        | inl e ↦ rw e (store-recorded (rows ++ others) _ refl)
        | inr e ↦ rw e (store-recorded (rows ++ others) none (any-find (reviews candidate.id) _ e))
      ]

  submit_found-recorded :
      (others rows : List CandidateReview) (found : Option CandidateReview)
      → find (reviews candidate.id) rows ≡ found
      → (review : CandidateReview) × (find
            (reviews candidate.id)
            (submit_found candidate disposition reason now found others rows)
          ≡ some review)
        × (review.disposition ≡ disposition)
  unfolding submit_found
  submit_found-recorded others rows (some old) e =
      let r = store-recorded rows (some old) e in
      (r.0, find-append_some (reviews candidate.id) _ others r.0 r.1, r.2)
  submit_found-recorded others rows none e = insert_raced-recorded others rows

  -- After a submission, raced or not, the candidate has a review, and it gives the disposition that
  -- was submitted.
  pub submit-recorded :
      (others rows : List CandidateReview)
      → (review : CandidateReview) × (find
            (reviews candidate.id)
            (submit_candidate_review candidate disposition reason now others rows)
          ≡ some review)
        × (review.disposition ≡ disposition)
  unfolding submit_candidate_review
  submit-recorded others rows = submit_found-recorded others rows _ refl

  -- The correction history only grows: a review that is on file keeps its corrections in front, and
  -- gains one, with the disposition that it had, exactly where that differs from the new one.
  pub submit-history :
      (others rows : List CandidateReview) (old : CandidateReview)
      → find (reviews candidate.id) rows ≡ some old
      → (review : CandidateReview) × (find
            (reviews candidate.id)
            (submit_candidate_review candidate disposition reason now others rows)
          ≡ some review)
        × (review.correction_history ≡ (
            if same_disposition old.disposition disposition
            then old.correction_history
            else old.correction_history
              ++ record {
                previous_disposition = value old.disposition;
                previous_reviewed_at = old.reviewed_at;
                corrected_at = now;
              }
                ∷ []))
  unfolding submit_candidate_review submit_found store
  submit-history others rows old e = rw e (
    correct disposition reason now old,
    find-append_some (reviews candidate.id) _ others _ (
        find-update_first (reviews candidate.id) (correct disposition reason now)
          (correct-reviews candidate.id) rows
        ∙ ap (Option.map (correct disposition reason now)) e),
    history-if (same_disposition old.disposition disposition) old _,
  )

  store-others :
      (id : ℕ) (rows : List CandidateReview) (found : Option CandidateReview)
      → candidate.id ≢ id
      → find (reviews id) (store candidate disposition reason now found rows)
        ≡ find (reviews id) rows
  unfolding store
  store-others id rows (some old) d =
      find-update_first_ne (reviews candidate.id) (correct disposition reason now) (reviews id)
        (λ r h. ground (arith, d)) (λ r h. correct-reviews id r ∙ ground (arith, d)) rows
  store-others id rows none d = find-append_or (reviews id) rows _ ∙ ground (arith, d)

  submit_found-others :
      (others rows : List CandidateReview) (id : ℕ) (found : Option CandidateReview)
      → candidate.id ≢ id
      → find (reviews id) (submit_found candidate disposition reason now found others rows)
        ≡ find (reviews id) (rows ++ others)
  unfolding submit_found insert_raced
  submit_found-others others rows id (some old) d =
      find-append_or (reviews id) _ others
      ∙ ap (λ f. if is_some f then f else find (reviews id) others)
          (store-others id rows (some old) d)
      ∙ sym (find-append_or (reviews id) rows others)
  submit_found-others others rows id none d =
      elim (Bool-cases (any (reviews candidate.id) (rows ++ others))) [
        | inl e ↦ rw e (store-others id (rows ++ others) _ d)
        | inr e ↦ rw e (store-others id (rows ++ others) none d)
      ]

  -- A submission leaves the reviews of other candidates as they are.
  pub submit-others :
      (others rows : List CandidateReview) (id : ℕ)
      → candidate.id ≢ id
      → find (reviews id) (submit_candidate_review candidate disposition reason now others rows)
        ≡ find (reviews id) (rows ++ others)
  unfolding submit_candidate_review
  submit-others others rows id d =
      submit_found-others others rows id (find (reviews candidate.id) rows) d
