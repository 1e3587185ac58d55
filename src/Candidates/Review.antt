-- ===== src/Candidates/Review.antt =====
-- semi_intel/signals/candidate_qc.py: the operator's review of a candidate, and the queue of
-- candidates without one.
pub mod Archive
pub mod Verdict
pub mod Queue
pub mod Pages
use semiconductor_intelligen.Prelude.{
  ℕ, String, Bool, true, false, not, ◌&&◌, Option, none, some, List, [], ◌∷◌, ◌++◌, str_eq, leb,
  ◌==◌, if◌then◌else◌, length, any, filter, find, update_first,
}
use semiconductor_intelligen.Candidates.State.{SignalCandidate, is_active}

pub data CandidateReviewDisposition : Type 0 where
  useful not_useful false_positive duplicate : CandidateReviewDisposition

-- `disposition.value`
abbrev pub value : CandidateReviewDisposition → String
value useful = "useful"
value not_useful = "not_useful"
value false_positive = "false_positive"
value duplicate = "duplicate"

-- An entry of review_metadata["correction_history"].
pub record Correction : Type 0 where
  pub previous_disposition : String
  pub previous_reviewed_at : ℕ
  pub corrected_at : ℕ

-- The JSON of `review_metadata` holds the correction history alone.
pub record CandidateReview : Type 0 where
  pub candidate_id : ℕ
  pub candidate_title : String
  pub attention_score_at_review : ℕ
  pub item_count_at_review : ℕ
  pub disposition : CandidateReviewDisposition
  pub reason : Option String
  pub correction_history : List Correction
  pub is_corrected : Bool
  pub reviewed_at : ℕ

abbrev pub reviews : ℕ → CandidateReview → Bool
reviews id review = review.candidate_id == id

abbrev pub same_disposition : CandidateReviewDisposition → CandidateReviewDisposition → Bool
same_disposition useful useful = true
same_disposition not_useful not_useful = true
same_disposition false_positive false_positive = true
same_disposition duplicate duplicate = true
same_disposition _ _ = false

-- reason or existing.reason
abbrev pub reason_or : Option String → Option String → Option String
reason_or none old = old
reason_or (some text) old = if str_eq text "" then old else some text

abbrev pub overwrite : CandidateReviewDisposition → ℕ → CandidateReview → CandidateReview
overwrite disposition now existing = record existing {
  correction_history =
      existing.correction_history
      ++ record {
        previous_disposition = value existing.disposition;
        previous_reviewed_at = existing.reviewed_at;
        corrected_at = now;
      }
        ∷ [];
  disposition = disposition;
  is_corrected = true;
}

abbrev pub give_reason : Option String → CandidateReview → CandidateReview
give_reason reason existing = record existing { reason = reason_or reason existing.reason }

-- The branch of a review that exists.
unfoldable pub correct :
    CandidateReviewDisposition → Option String → ℕ → CandidateReview → CandidateReview
correct disposition reason now existing = give_reason reason (
    if same_disposition existing.disposition disposition
    then existing
    else overwrite disposition now existing)

abbrev pub new_review :
    SignalCandidate → CandidateReviewDisposition → Option String → ℕ → CandidateReview
new_review candidate disposition reason now = record {
  candidate_id = candidate.id;
  candidate_title = candidate.title;
  attention_score_at_review = candidate.attention_score;
  item_count_at_review = candidate.item_count;
  disposition = disposition;
  reason = reason;
  correction_history = [];
  is_corrected = false;
  reviewed_at = now;
}

module _ (candidate : SignalCandidate) (disposition : CandidateReviewDisposition)
    (reason : Option String) (now : ℕ) where
  -- What a submission does to the table where it finds this review: the correction of it. Where it
  -- finds none, the row is inserted.
  unfoldable pub store : Option CandidateReview → List CandidateReview → List CandidateReview
  unfolding correct
  store (some existing) rows =
      update_first (reviews candidate.id) (correct disposition reason now) rows
  store none rows = rows ++ new_review candidate disposition reason now ∷ []

  -- `others` are the rows that other sessions commit between the query and the insertion. Where
  -- one of them is for the candidate, the unique constraint refuses the insertion, and after the
  -- rollback the submission is made again, on the table with those rows.
  unfoldable pub insert_raced : List CandidateReview → List CandidateReview → List CandidateReview
  unfolding store
  insert_raced others rows =
      if any (reviews candidate.id) (rows ++ others)
      then store (find (reviews candidate.id) (rows ++ others)) (rows ++ others)
      else store none (rows ++ others)

  -- The table after a submission.
  unfoldable pub submit_found :
      Option CandidateReview → List CandidateReview → List CandidateReview → List CandidateReview
  unfolding store insert_raced
  submit_found (some existing) others rows = store (some existing) rows ++ others
  submit_found none others rows = insert_raced others rows

  unfoldable pub submit_candidate_review :
      List CandidateReview → List CandidateReview → List CandidateReview
  unfolding submit_found
  submit_candidate_review others rows = submit_found (find (reviews candidate.id) rows) others rows

pub record CandidateQueueFilters : Type 0 where
  pub topic_id : Option ℕ
  pub min_score : ℕ

-- `topics` are the pairs of a candidate and a topic in CandidateTopicMatch.
abbrev pub has_topic : List (ℕ × ℕ) → Option ℕ → ℕ → Bool
has_topic topics none id = true
has_topic topics (some topic_id) id = any (λ (row : ℕ × ℕ). row.0 == id && row.1 == topic_id) topics

unfoldable pub is_unreviewed :
    CandidateQueueFilters → List (ℕ × ℕ) → List CandidateReview → SignalCandidate → Bool
is_unreviewed filters topics rows candidate =
    not (any (reviews candidate.id) rows)
    && is_active candidate.state
    && leb filters.min_score candidate.attention_score
    && has_topic topics filters.topic_id candidate.id

unfoldable pub base_unreviewed_query :
    CandidateQueueFilters
    → List (ℕ × ℕ)
    → List CandidateReview
    → List SignalCandidate
    → List SignalCandidate
base_unreviewed_query filters topics rows candidates =
    filter (is_unreviewed filters topics rows) candidates

unfoldable pub unreviewed_candidate_count :
    CandidateQueueFilters → List (ℕ × ℕ) → List CandidateReview → List SignalCandidate → ℕ
unfolding base_unreviewed_query
unreviewed_candidate_count filters topics rows candidates =
    length (base_unreviewed_query filters topics rows candidates)
