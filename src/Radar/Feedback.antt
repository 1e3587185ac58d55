-- ===== src/Radar/Feedback.antt =====
-- src/oem_radar/core/feedback.py: the vocabulary of alert reviews and of rule suggestions. A
-- FeedbackError is a value. Arguments that are not texts are not modelled.
pub mod Models
pub mod Reasons
pub mod Statuses
use semiconductor_intelligen.Prelude.{
  ℕ, String, Bool, not, Option, none, some, List, [], ◌∷◌, str_eq, if◌then◌else◌, any, filter,
}
use semiconductor_intelligen.Prelude.Dict.{Dict, get}

pub data FeedbackError : Type 0 where
  invalid_reason_code : String → FeedbackError
  invalid_outcome : String → FeedbackError
  invalid_status : String → FeedbackError
  illegal_transition : String → String → FeedbackError
  too_long : String → ℕ → FeedbackError
  required : String → FeedbackError

pub data Result {ℓ} (A : Type ℓ) : Type ℓ where
  ok : A → Result A
  error : FeedbackError → Result A

abbrev pub reason_codes : List String
reason_codes =
    "ROUTINE_IMAGE_CHANGE" ∷ "MARKETING_ASSET_REFRESH" ∷ "CDN_URL_CHURN" ∷ "MINOR_PRICE_FLUCTUATION"
    ∷ "TEMPORARY_404" ∷ "TEMPORARY_STOCK_CHANGE" ∷ "DUPLICATE_SKU" ∷ "REGIONAL_DUPLICATE"
    ∷ "UNCHANGED_DOCUMENT" ∷ "DOCUMENT_METADATA_ONLY" ∷ "SPEC_FORMATTING_ONLY"
    ∷ "IRRELEVANT_PRODUCT" ∷ "OLD_PRODUCT_REDISCOVERED" ∷ "ACCESSORY_OR_COMPONENT" ∷ "PARSER_ERROR"
    ∷ "ENTITY_MATCH_ERROR" ∷ "BAD_BASELINE" ∷ "DUPLICATE_ALERT" ∷ "LOW_EDITORIAL_VALUE"
    ∷ "VALID_BUT_TOO_EARLY" ∷ "VALID_CONFIRMATION_SIGNAL" ∷ "OTHER" ∷ []

abbrev pub outcomes : List String
outcomes = "HIT" ∷ "INTERESTING" ∷ "NOISE" ∷ "BUG" ∷ []

abbrev pub rule_statuses : List String
rule_statuses = "PROPOSED" ∷ "ACCEPTED" ∷ "REJECTED" ∷ "IMPLEMENTED" ∷ "REVERTED" ∷ []

-- `x in xs`
abbrev pub includes : List String → String → Bool
includes xs c = any (λ x. str_eq x c) xs

abbrev pub also_seen : String → Result (List String) → Result (List String)
also_seen c (ok seen) = ok (c ∷ seen)
also_seen c (error e) = error e

-- The codes seen, or the error for the first that is unknown.
unfoldable pub check_codes : List String → Result (List String)
check_codes [] = ok []
check_codes (c ∷ codes) =
    let rest = check_codes codes in
    if not (includes reason_codes c) then error (invalid_reason_code c) else also_seen c rest

-- In taxonomy order, not input order.
abbrev pub in_order : List String → Result (List String) → Result (List String)
in_order taxonomy (ok seen) = ok (filter (includes seen) taxonomy)
in_order taxonomy (error e) = error e

unfoldable pub normalize_reason_codes : Option (List String) → Result (List String)
unfolding check_codes
normalize_reason_codes none = ok []
normalize_reason_codes (some codes) = in_order reason_codes (check_codes codes)

unfoldable pub validate_outcome : String → Result String
validate_outcome outcome =
    if includes outcomes outcome then ok outcome else error (invalid_outcome outcome)

unfoldable pub validate_rule_status : String → Result String
validate_rule_status status =
    if includes rule_statuses status then ok status else error (invalid_status status)

abbrev pub legal_status_transitions : Dict (List String)
legal_status_transitions =
    ("PROPOSED", "ACCEPTED" ∷ "REJECTED" ∷ [])
    ∷ ("ACCEPTED", "IMPLEMENTED" ∷ "REJECTED" ∷ [])
    ∷ ("IMPLEMENTED", "REVERTED" ∷ [])
    ∷ ("REVERTED", "ACCEPTED" ∷ [])
    ∷ ("REJECTED", [])
    ∷ []

-- LEGAL_STATUS_TRANSITIONS.get(current, set())
abbrev pub allowed_of : Option (List String) → List String
allowed_of none = []
allowed_of (some allowed) = allowed

abbrev pub then_check : Result String → Result String → Result String → Result String
then_check (error e) _ _ = error e
then_check (ok _) (error e) _ = error e
then_check (ok _) (ok _) result = result

unfoldable pub validate_status_transition : String → String → Result String
unfolding validate_rule_status get
validate_status_transition current new =
    let allowed = allowed_of (get current legal_status_transitions) in
    then_check (validate_rule_status new) (validate_rule_status current) (
      if str_eq new current
      then ok new
      else if not (includes allowed new)
      then error (illegal_transition current new)
      else ok new)
