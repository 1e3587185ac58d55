-- ===== src/Signals/Registry/Idempotence.antt =====
-- Registering twice is registering once.
use semiconductor_intelligen.Prelude.{
  ℕ, ◌≡◌, refl, inl, inr, Bool, true, false, none, some, List, [], ◌∷◌, ◌++◌, arith, Option-cases,
  find, update_first, find-update_first, find-append,
}
use semiconductor_intelligen.Prelude.Dict.{get, get-put}
use semiconductor_intelligen.Signals.Source.{
  Source, bool, metadata_delivery_admission_required, source_metadata, write_source_metadata,
  source_requires_delivery_admission, ensure_delivery_admission_required,
}
use semiconductor_intelligen.Signals.Registry.{
  registered, is_hardware, hardware_source, register_reddit_hardware, register_new, register,
}
use semiconductor_intelligen.Signals.Lifecycle.Watermarks.{requires-ensure}

is_hardware-ensure :
    (s : Source) → is_hardware (ensure_delivery_admission_required s) ≡ is_hardware s
unfolding ensure_delivery_admission_required write_source_metadata
is_hardware-ensure s = ground arith

ensure_twice :
    (s : Source)
    → ensure_delivery_admission_required (ensure_delivery_admission_required s)
      ≡ ensure_delivery_admission_required s
unfolding ensure_delivery_admission_required write_source_metadata source_metadata
ensure_twice s = ground (
  arith,
  get-put metadata_delivery_admission_required metadata_delivery_admission_required (bool true)
      (source_metadata s),
)

update_twice :
    (sources : List Source)
    → update_first is_hardware ensure_delivery_admission_required
        (update_first is_hardware ensure_delivery_admission_required sources)
      ≡ update_first is_hardware ensure_delivery_admission_required sources
unfolding update_first
update_twice [] = refl
update_twice (s ∷ sources) =
    ground (arith, is_hardware-ensure s, ensure_twice s, update_twice sources)

ensure-hardware_source :
    (id : ℕ) → ensure_delivery_admission_required (hardware_source id) ≡ hardware_source id
unfolding ensure_delivery_admission_required source_metadata get
ensure-hardware_source id = refl

requires-hardware_source : (id : ℕ) → source_requires_delivery_admission (hardware_source id) ≡ true
unfolding source_requires_delivery_admission source_metadata get
requires-hardware_source id = refl

update-created :
    (id : ℕ) (sources : List Source)
    → find is_hardware sources ≡ none
    → update_first is_hardware ensure_delivery_admission_required
        (sources ++ hardware_source id ∷ [])
      ≡ sources ++ hardware_source id ∷ []
unfolding update_first
update-created id [] h = rw (ensure-hardware_source id)
update-created id (s ∷ sources) h = ground (arith, update-created id sources)

-- A registration that succeeds yields a source with the feed's identity under the sticky contract,
-- and registering again, under any new row id, yields the same table and the same source, not
-- created anew.
pub register_again :
    (id id' : ℕ) (sources table : List Source) (s : Source) (created : Bool)
    → register_reddit_hardware id sources ≡ registered table s created
    → (register_reddit_hardware id' table ≡ registered table s false)
      × (source_requires_delivery_admission s ≡ true)
      × (find is_hardware table ≡ some s)
unfolding register_reddit_hardware register register_new
register_again id id' sources table s created h = elim (Option-cases (find is_hardware sources)) [
  | inl missing ↦ ground (
    arith,
    find-append is_hardware sources (hardware_source id) missing,
    update-created id sources missing,
    ensure-hardware_source id,
    requires-hardware_source id,
  )
  | inr (e, present) ↦ ground (
    arith,
    find-update_first is_hardware ensure_delivery_admission_required is_hardware-ensure sources,
    update_twice sources,
    ensure_twice e,
    requires-ensure e,
  )
]
