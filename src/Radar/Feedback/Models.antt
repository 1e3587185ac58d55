-- ===== src/Radar/Feedback/Models.antt =====
-- src/oem_radar/core/feedback.py: the validators of AlertReview and RuleSuggestion. `strip` is
-- Python's. Of the errors of several fields the first is given; a list of codes that is None is
-- validated as the empty one; the two estimates of a suggestion are left out.
pub mod Accepted
pub mod Settled
use semiconductor_intelligen.Prelude.{
  ℕ, String, Option, none, some, List, str_eq, ltb, if◌then◌else◌,
}
use semiconductor_intelligen.Radar.Feedback.{
  Result, invalid_reason_code, too_long, required, ok, error, includes, normalize_reason_codes,
  validate_outcome, validate_rule_status,
}
use semiconductor_intelligen.Radar.Feedback.{reason_codes}
use Prim.Native.String.{count}

abbrev pub max_reviewer_len : ℕ
max_reviewer_len = 64

abbrev pub max_note_len : ℕ
max_note_len = 2000

abbrev pub max_suggested_rule_len : ℕ
max_suggested_rule_len = 2000

abbrev pub max_collector_len : ℕ
max_collector_len = 128

abbrev pub max_alert_type_len : ℕ
max_alert_type_len = 64

abbrev pub and_then {ℓ κ} : {A : Type ℓ} {B : Type κ} → Result A → (A → Result B) → Result B
and_then (ok a) f = f a
and_then (error e) f = error e

unfoldable pub clip : (String → String) → ℕ → String → Option String → Result (Option String)
clip strip max_len field none = ok none
clip strip max_len field (some s) =
    if str_eq (strip s) ""
    then ok none
    else if ltb max_len (count (strip s))
    then error (too_long field max_len)
    else ok (some (strip s))

pub record AlertReview : Type 0 where
  pub id : Option ℕ
  pub alert_id : ℕ
  pub outcome : String
  pub reason_codes : List String
  pub reviewer_note : Option String
  pub reviewed_at : Option ℕ
  pub reviewer : Option String
  pub created_at : Option ℕ
  pub updated_at : Option ℕ

-- The review that validation makes of the values given.
unfoldable pub alert_review : (String → String) → AlertReview → Result AlertReview
alert_review strip given = and_then (validate_outcome given.outcome) (λ outcome.
    and_then (normalize_reason_codes (some given.reason_codes)) (λ codes.
      and_then (clip strip max_note_len "reviewer_note" given.reviewer_note) (λ note.
        and_then (clip strip max_reviewer_len "reviewer" given.reviewer) (λ reviewer.
          ok (record given {
            outcome = outcome;
            reason_codes = codes;
            reviewer_note = note;
            reviewer = reviewer;
          })))))

pub record RuleSuggestion : Type 0 where
  pub id : Option ℕ
  pub collector : String
  pub alert_type : String
  pub reason_code : Option String
  pub suggested_rule : String
  pub supporting_alert_count : ℕ
  pub status : String
  pub created_at : Option ℕ
  pub updated_at : Option ℕ

abbrev pub or_required : String → Option String → Result String
or_required field none = error (required field)
or_required field (some s) = ok s

unfoldable pub require : (String → String) → ℕ → String → String → Result String
require strip max_len field s = and_then (clip strip max_len field (some s)) (or_required field)

unfoldable pub validate_reason_code : Option String → Result (Option String)
validate_reason_code none = ok none
validate_reason_code (some code) =
    if str_eq code ""
    then ok none
    else if includes reason_codes code
    then ok (some code)
    else error (invalid_reason_code code)

unfoldable pub rule_suggestion : (String → String) → RuleSuggestion → Result RuleSuggestion
rule_suggestion strip given =
    and_then (require strip max_collector_len "collector" given.collector) (λ collector.
      and_then (require strip max_alert_type_len "alert_type" given.alert_type) (λ alert_type.
        and_then (validate_reason_code given.reason_code) (λ reason_code.
          and_then (require strip max_suggested_rule_len "suggested_rule" given.suggested_rule)
            (λ suggested_rule. and_then (validate_rule_status given.status) (λ status.
              ok (record given {
                collector = collector;
                alert_type = alert_type;
                reason_code = reason_code;
                suggested_rule = suggested_rule;
                status = status;
              }))))))
