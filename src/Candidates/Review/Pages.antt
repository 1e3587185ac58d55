-- ===== src/Candidates/Review/Pages.antt =====
-- semi_intel/signals/candidate_qc.py: the pages of the queue and of the review history.
pub mod Cursor
use semiconductor_intelligen.Prelude.{
  ℕ, zero, suc, Bool, true, not, ◌&&◌, ◌||◌, Option, none, some, List, [], ◌∷◌, ltb, ◌==◌,
  if◌then◌else◌, filter,
}
use semiconductor_intelligen.Candidates.State.{SignalCandidate}
use semiconductor_intelligen.Candidates.Review.{
  CandidateReviewDisposition, CandidateReview, CandidateQueueFilters, same_disposition,
  base_unreviewed_query,
}

-- `LIMIT n`
abbrev pub limit {ℓ} : {A : Type ℓ} → ℕ → List A → List A
limit zero xs = []
limit (suc n) [] = []
limit (suc n) (x ∷ xs) = x ∷ limit n xs

-- ORDER BY, with the rows that come first by this test first.
module _ {ℓ} {A : Type ℓ} (first : A → A → Bool) where
  unfoldable pub insert_row : A → List A → List A
  insert_row a [] = a ∷ []
  insert_row a (x ∷ xs) = let rest = insert_row a xs in if first a x then a ∷ x ∷ xs else x ∷ rest

  unfoldable pub order_rows : List A → List A
  unfolding insert_row
  order_rows [] = []
  order_rows (x ∷ xs) = insert_row x (order_rows xs)

-- desc(attention_score), desc(id)
abbrev pub by_score : SignalCandidate → SignalCandidate → Bool
by_score a b =
    ltb b.attention_score a.attention_score
    || (a.attention_score == b.attention_score && ltb b.id a.id)

-- `row.id < before_id`, where there is a cursor.
abbrev pub is_before : Option ℕ → ℕ → Bool
is_before none id = true
is_before (some before_id) id = ltb id before_id

unfoldable pub fetch_candidate_review_queue_page :
    CandidateQueueFilters
    → List (ℕ × ℕ)
    → List CandidateReview
    → Option ℕ
    → ℕ
    → List SignalCandidate
    → List SignalCandidate
unfolding base_unreviewed_query order_rows
fetch_candidate_review_queue_page filters topics rows before_id size candidates = limit size (
    order_rows by_score (
      filter (λ (c : SignalCandidate). is_before before_id c.id)
        (base_unreviewed_query filters topics rows candidates)))

-- A row of the archive with its key.
pub record ArchiveRow : Type 0 where
  pub id : ℕ
  pub review : CandidateReview

abbrev pub has_disposition : Option CandidateReviewDisposition → CandidateReview → Bool
has_disposition none review = true
has_disposition (some disposition) review = same_disposition review.disposition disposition

unfoldable pub fetch_review_history_page :
    Option CandidateReviewDisposition → Bool → Option ℕ → ℕ → List ArchiveRow → List ArchiveRow
unfolding order_rows
fetch_review_history_page disposition include_corrected before_id size rows = limit size (
    order_rows (λ (a b : ArchiveRow). ltb b.id a.id)
      (filter
        (λ (row : ArchiveRow).
          (include_corrected || not row.review.is_corrected)
          && has_disposition disposition row.review
          && is_before before_id row.id)
        rows))
