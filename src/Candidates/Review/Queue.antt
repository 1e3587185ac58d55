-- ===== src/Candidates/Review/Queue.antt =====
-- The queue of candidates that have no review.
use semiconductor_intelligen.Prelude.{
  ℕ, String, ◌≡◌, refl, sym, ap, ◌∙◌, subst, inl, inr, Bool, not, ◌||◌, Option, some, List, [], ◌∷◌,
  ◌++◌, arith, ◌==◌, ==_iff, Bool-cases, is_some, any, filter, find,
}
use semiconductor_intelligen.Candidates.State.{SignalCandidate}
use semiconductor_intelligen.Candidates.Review.{
  CandidateReviewDisposition, CandidateReview, CandidateQueueFilters, reviews,
  submit_candidate_review, is_unreviewed, base_unreviewed_query,
}
use semiconductor_intelligen.Candidates.Review.Verdict.{submit-recorded, submit-others}

any-is_some :
    (p : CandidateReview → Bool) (rows : List CandidateReview) → any p rows ≡ is_some (find p rows)
any-is_some p [] = refl
any-is_some p (x ∷ rows) = ground (arith, any-is_some p rows)

module _ (candidate : SignalCandidate) (disposition : CandidateReviewDisposition)
    (reason : Option String) (now : ℕ) where
  reviewed :
      (others rows : List CandidateReview) (id : ℕ)
      → any (reviews id) (submit_candidate_review candidate disposition reason now others rows)
        ≡ (candidate.id == id || any (reviews id) (rows ++ others))
  reviewed others rows id =
      let own = submit-recorded candidate disposition reason now others rows in
      let other = submit-others candidate disposition reason now others rows id in
      let after =
        any-is_some (reviews id)
          (submit_candidate_review candidate disposition reason now others rows) in
      elim (Bool-cases (candidate.id == id)) [
        | inl e ↦
            let same : candidate.id ≡ id = (==_iff candidate.id id).0 e in
            rw e (
              after
              ∙ ap is_some (
                  subst
                    (λ k.
                      find (reviews k)
                        (submit_candidate_review candidate disposition reason now others rows)
                      ≡ some own.0)
                    same own.1))
        | inr e ↦ rw e (
            after
            ∙ ap is_some (other (λ same. ground arith))
            ∙ sym (any-is_some (reviews id) (rows ++ others)))
      ]

  -- A submission takes its candidate off every queue and leaves the rest of the queue, in order.
  pub submit-queue :
      (others rows : List CandidateReview) (filters : CandidateQueueFilters) (topics : List (ℕ × ℕ))
      (candidates : List SignalCandidate)
      → base_unreviewed_query filters topics
          (submit_candidate_review candidate disposition reason now others rows)
          candidates
        ≡ filter
            (λ (c : SignalCandidate). not (candidate.id == c.id))
            (base_unreviewed_query filters topics (rows ++ others) candidates)
  unfolding base_unreviewed_query is_unreviewed
  submit-queue others rows filters topics [] = refl
  submit-queue others rows filters topics (c ∷ candidates) =
      ground (arith, reviewed others rows c.id, submit-queue others rows filters topics candidates)
