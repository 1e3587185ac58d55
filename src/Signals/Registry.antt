-- ===== src/Signals/Registry.antt =====
-- semi_intel/signals/source_lifecycle.py, register_reddit_hardware, over the table `sources`.
pub mod Idempotence
use semiconductor_intelligen.Prelude.{
  ℕ, String, Bool, true, false, ◌&&◌, Option, none, some, List, [], ◌∷◌, ◌++◌, str_eq, find,
  update_first,
}
use semiconductor_intelligen.Signals.Source.{
  Source, bool, text, object, maturity_experimental, metadata_platform, metadata_maturity,
  metadata_subreddit, metadata_delivery_admission_required, ensure_delivery_admission_required,
}

abbrev pub hardware_feed_url : String
hardware_feed_url = "https://www.reddit.com/r/hardware/.rss"

abbrev pub hardware_source_name : String
hardware_source_name = "Reddit r/hardware"

abbrev pub hardware_subreddit : String
hardware_subreddit = "hardware"

-- The table and the source with the flag `created`, or SourceRegistrationConflict.
pub data Registration : Type 0 where
  registered : List Source → Source → Bool → Registration
  conflict : Source → Registration

abbrev pub is_hardware : Source → Bool
is_hardware source = str_eq source.provider "rss" && str_eq source.provider_key hardware_feed_url

abbrev pub has_hardware_name : Source → Bool
has_hardware_name source = str_eq source.name hardware_source_name

-- `id` is the key that the database gives to the new row.
abbrev pub hardware_source : ℕ → Source
hardware_source id = record {
  id = id;
  name = hardware_source_name;
  provider = "rss";
  provider_key = hardware_feed_url;
  enabled = true;
  polling_enabled = false;
  muted = true;
  last_success_at = none;
  provider_metadata = object (
      (metadata_platform, text "reddit")
      ∷ (metadata_maturity, text maturity_experimental)
      ∷ (metadata_subreddit, text hardware_subreddit)
      ∷ (metadata_delivery_admission_required, bool true)
      ∷ []);
}

register_new : ℕ → List Source → Option Source → Registration
register_new id sources (some existing_name) = conflict existing_name
register_new id sources none =
    registered (sources ++ hardware_source id ∷ []) (hardware_source id) true

register : ℕ → List Source → Option Source → Registration
unfolding register_new update_first
register id sources (some existing) =
    registered (update_first is_hardware ensure_delivery_admission_required sources)
      (ensure_delivery_admission_required existing) false
register id sources none = register_new id sources (find has_hardware_name sources)

unfoldable pub register_reddit_hardware : ℕ → List Source → Registration
unfolding register
register_reddit_hardware id sources = register id sources (find is_hardware sources)
