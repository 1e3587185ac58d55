-- ===== src/Signals/Lifecycle/Watermarks.antt =====
-- What each call does to the watermarks, the sticky contract flag and the mute.
use semiconductor_intelligen.Prelude.{
  ℕ, String, ◌≡◌, refl, Bool, true, false, Option, none, some, arith, str_eq, if◌then◌else◌,
  is_some,
}
use semiconductor_intelligen.Prelude.Dict.{dict_laws, Dict, get, put}
use semiconductor_intelligen.Signals.Source.{
  Value, Source, bool, stamp, metadata_baseline_at, metadata_delivery_admitted_at,
  metadata_delivery_admission_required, parse_iso, source_metadata, write_source_metadata,
  source_baseline_completed_at, source_delivery_admitted_at, source_requires_delivery_admission,
  ensure_delivery_admission_required, stamp_first_success_baseline,
  clear_collection_identity_watermarks, admitted_metadata, admit_source_for_delivery,
}

source_metadata-write :
    (meta : Dict Value) (s : Source) → source_metadata (write_source_metadata meta s) ≡ meta
unfolding source_metadata write_source_metadata
source_metadata-write meta s = refl

source_metadata-muted :
    (b : Bool) (s : Source) → source_metadata (record s { muted = b }) ≡ source_metadata s
unfolding source_metadata
source_metadata-muted b s = refl

source_metadata-success :
    (t : Option ℕ) (s : Source)
    → source_metadata (record s { last_success_at = t }) ≡ source_metadata s
unfolding source_metadata
source_metadata-success t s = refl

ruleset metadata_laws =
    (dict_laws, source_metadata-write, source_metadata-muted, source_metadata-success)

get-write_put :
    (k j : String) (v : Value) (s : Source)
    → get j (source_metadata (write_source_metadata (put k v (source_metadata s)) s))
      ≡ (if str_eq k j then some v else get j (source_metadata s))
get-write_put k j v s = simp metadata_laws

module _ (now : ℕ) (s : Source) where
  pub admitted_at-admit : source_delivery_admitted_at (admit_source_for_delivery now s) ≡ (
      if is_some (source_delivery_admitted_at s) then source_delivery_admitted_at s else some now)
  unfolding source_delivery_admitted_at admit_source_for_delivery admitted_metadata parse_iso
  admitted_at-admit = simp metadata_laws (ground arith)

  pub baseline-admit :
      source_baseline_completed_at (admit_source_for_delivery now s)
      ≡ source_baseline_completed_at s
  unfolding source_baseline_completed_at admit_source_for_delivery admitted_metadata
  baseline-admit = simp metadata_laws (ground arith)

  pub requires-admit : source_requires_delivery_admission (admit_source_for_delivery now s) ≡ true
  unfolding source_requires_delivery_admission admit_source_for_delivery admitted_metadata
  requires-admit = simp metadata_laws (ground arith)

  pub muted-admit : (admit_source_for_delivery now s).muted ≡ false
  unfolding admit_source_for_delivery write_source_metadata
  muted-admit = refl

  pub admitted_at-stamp :
      source_delivery_admitted_at (stamp_first_success_baseline now s).0
      ≡ source_delivery_admitted_at s
  unfolding source_delivery_admitted_at stamp_first_success_baseline
  admitted_at-stamp =
      ground (arith, get-write_put metadata_baseline_at metadata_delivery_admitted_at (stamp now) s)

  pub requires-stamp :
      source_requires_delivery_admission (stamp_first_success_baseline now s).0
      ≡ source_requires_delivery_admission s
  unfolding source_requires_delivery_admission stamp_first_success_baseline
  requires-stamp =
      ground (
        arith,
        get-write_put metadata_baseline_at metadata_delivery_admission_required (stamp now) s,
      )

  pub baseline-stamp :
      (stamp_first_success_baseline now s).1 ≡ true
      → source_baseline_completed_at (stamp_first_success_baseline now s).0 ≡ some now
  unfolding source_baseline_completed_at stamp_first_success_baseline parse_iso
  baseline-stamp h =
      ground (arith, get-write_put metadata_baseline_at metadata_baseline_at (stamp now) s)

  pub stamp_again :
      (later : ℕ)
      → (stamp_first_success_baseline now s).1 ≡ true
      → (stamp_first_success_baseline later (stamp_first_success_baseline now s).0).1 ≡ false
  unfolding stamp_first_success_baseline
  stamp_again later h =
      ground (arith, get-write_put metadata_baseline_at metadata_baseline_at (stamp now) s)

  pub admitted_at-succeed :
      source_delivery_admitted_at (record s { last_success_at = some now })
      ≡ source_delivery_admitted_at s
  unfolding source_delivery_admitted_at source_metadata
  admitted_at-succeed = refl

  pub requires-succeed :
      source_requires_delivery_admission (record s { last_success_at = some now })
      ≡ source_requires_delivery_admission s
  unfolding source_requires_delivery_admission source_metadata
  requires-succeed = refl

module _ (s : Source) where
  pub admitted_at-set_muted :
      (b : Bool)
      → source_delivery_admitted_at (record s { muted = b }) ≡ source_delivery_admitted_at s
  unfolding source_delivery_admitted_at source_metadata
  admitted_at-set_muted b = refl

  pub requires-set_muted :
      (b : Bool)
      → source_requires_delivery_admission (record s { muted = b })
        ≡ source_requires_delivery_admission s
  unfolding source_requires_delivery_admission source_metadata
  requires-set_muted b = refl

  pub admitted_at-clear :
      source_delivery_admitted_at (clear_collection_identity_watermarks s) ≡ none
  unfolding source_delivery_admitted_at clear_collection_identity_watermarks parse_iso
  admitted_at-clear = simp metadata_laws

  pub requires-clear :
      source_requires_delivery_admission (clear_collection_identity_watermarks s)
      ≡ source_requires_delivery_admission s
  unfolding source_requires_delivery_admission clear_collection_identity_watermarks
  requires-clear = simp metadata_laws

  pub admitted_at-ensure :
      source_delivery_admitted_at (ensure_delivery_admission_required s)
      ≡ source_delivery_admitted_at s
  unfolding source_delivery_admitted_at ensure_delivery_admission_required
  admitted_at-ensure = ground (
    arith,
    get-write_put metadata_delivery_admission_required metadata_delivery_admitted_at (bool true) s,
  )

  pub requires-ensure :
      source_requires_delivery_admission (ensure_delivery_admission_required s) ≡ true
  unfolding source_requires_delivery_admission ensure_delivery_admission_required
  requires-ensure = ground (
    arith,
    get-write_put metadata_delivery_admission_required metadata_delivery_admission_required
        (bool true) s,
  )
