-- ===== src/Signals/Source.antt =====
-- semi_intel/signals/source_lifecycle.py: a source, its JSON metadata and the watermarks kept there.
-- A time is the number of microseconds of a naive UTC datetime.
use semiconductor_intelligen.Prelude.{
  ℕ, String, Bool, true, false, not, ◌&&◌, ◌||◌, Option, none, some, [], str_eq, if◌then◌else◌,
  is_some,
}
use semiconductor_intelligen.Prelude.Dict.{Dict, get, pop, put}

-- A decoded JSON value. A text that `datetime.fromisoformat` accepts (after the strip and the
-- change of a final Z) is `stamp`, at the naive UTC time that it reads as; any other text is `text`.
-- Numbers, lists and objects are `other`, with their truth value.
pub data Value : Type 0 where
  null : Value
  bool : Bool → Value
  stamp : ℕ → Value
  text : String → Value
  other : Bool → Value

-- The column `Source.provider_metadata`: no text, a text that is no JSON object, or an object.
pub data Metadata : Type 0 where
  absent malformed : Metadata
  object : Dict Value → Metadata

pub record Source : Type 0 where
  pub id : ℕ
  pub name : String
  pub provider : String
  pub provider_key : String
  pub enabled : Bool
  pub polling_enabled : Bool
  pub muted : Bool
  pub last_success_at : Option ℕ
  pub provider_metadata : Metadata

abbrev pub maturity_experimental : String
maturity_experimental = "experimental"

abbrev pub maturity_admitted : String
maturity_admitted = "admitted"

abbrev pub metadata_platform : String
metadata_platform = "platform"

abbrev pub metadata_maturity : String
metadata_maturity = "maturity"

abbrev pub metadata_subreddit : String
metadata_subreddit = "subreddit"

abbrev pub metadata_baseline_at : String
metadata_baseline_at = "baseline_completed_at"

abbrev pub metadata_delivery_admitted_at : String
metadata_delivery_admitted_at = "delivery_admitted_at"

abbrev pub metadata_delivery_admission_required : String
metadata_delivery_admission_required = "delivery_admission_required"

-- Malformed or unusable values give none.
unfoldable pub parse_iso : Option Value → Option ℕ
parse_iso (some (stamp t)) = some t
parse_iso _ = none

-- Python's truth value of `meta.get(key)`.
abbrev pub truthy : Option Value → Bool
truthy none = false
truthy (some null) = false
truthy (some (bool b)) = b
truthy (some (stamp t)) = true
truthy (some (text s)) = not (str_eq s "")
truthy (some (other b)) = b

-- `value is True`
abbrev pub is_true : Option Value → Bool
is_true (some (bool b)) = b
is_true _ = false

-- `value == s`
abbrev pub is_text : String → Option Value → Bool
is_text s (some (text t)) = str_eq t s
is_text s _ = false

metadata_of : Metadata → Dict Value
metadata_of absent = []
metadata_of malformed = []
metadata_of (object meta) = meta

unfoldable pub source_metadata : Source → Dict Value
unfolding metadata_of
source_metadata source = metadata_of source.provider_metadata

unfoldable pub write_source_metadata : Dict Value → Source → Source
write_source_metadata meta source = record source { provider_metadata = object meta }

unfoldable pub source_baseline_completed_at : Source → Option ℕ
source_baseline_completed_at source = parse_iso (get metadata_baseline_at (source_metadata source))

unfoldable pub source_delivery_admitted_at : Source → Option ℕ
source_delivery_admitted_at source =
    parse_iso (get metadata_delivery_admitted_at (source_metadata source))

-- `str(value) if value else None`, compared with the maturity `experimental`: of the values, only
-- the text itself prints as that.
unfoldable pub source_maturity_is : String → Source → Bool
source_maturity_is maturity source =
    let value = get metadata_maturity (source_metadata source) in
    truthy value && is_text maturity value

unfoldable pub source_requires_delivery_admission : Source → Bool
source_requires_delivery_admission source =
    is_true (get metadata_delivery_admission_required (source_metadata source))

unfoldable pub source_delivery_blocked : Source → Bool
source_delivery_blocked source =
    source.muted
    || (source_requires_delivery_admission source
        && not (is_some (source_delivery_admitted_at source)))

unfoldable pub ensure_delivery_admission_required : Source → Source
ensure_delivery_admission_required source =
    let meta = source_metadata source in
    if is_true (get metadata_delivery_admission_required meta)
    then source
    else write_source_metadata (put metadata_delivery_admission_required (bool true) meta) source

unfoldable pub source_uses_silent_baseline : Source → Bool
source_uses_silent_baseline source =
    source.muted
    || source_maturity_is maturity_experimental source
    || source_requires_delivery_admission source

-- The source after the call, and whether this run is the first-populate baseline.
unfoldable pub stamp_first_success_baseline : ℕ → Source → Source × Bool
stamp_first_success_baseline now source =
    let meta = source_metadata source in
    if is_some source.last_success_at
    then (source, false)
    else if not (source_uses_silent_baseline source)
    then (source, false)
    else if truthy (get metadata_baseline_at meta)
    then (source, false)
    else (write_source_metadata (put metadata_baseline_at (stamp now) meta) source, true)

unfoldable pub clear_collection_identity_watermarks : Source → Source
clear_collection_identity_watermarks source =
    write_source_metadata
      (pop metadata_delivery_admitted_at (pop metadata_baseline_at (source_metadata source))) source

-- The metadata that `admit_source_for_delivery` writes.
unfoldable pub admitted_metadata : ℕ → Source → Dict Value
admitted_metadata now source =
    let required = put metadata_delivery_admission_required (bool true) (source_metadata source) in
    let maturity = get metadata_maturity required in
    let matured =
      if is_text maturity_experimental maturity || not (truthy maturity)
      then put metadata_maturity (text maturity_admitted) required
      else required in
    if is_some (source_delivery_admitted_at source)
    then matured
    else put metadata_delivery_admitted_at (stamp now) matured

unfoldable pub admit_source_for_delivery : ℕ → Source → Source
admit_source_for_delivery now source =
    write_source_metadata (admitted_metadata now source) (record source { muted = false })
