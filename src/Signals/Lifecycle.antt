-- ===== src/Signals/Lifecycle.antt =====
-- semi_intel/signals/source_lifecycle.py: the life of one source, as a run of the calls that change
-- it. `set_muted` is the operator's switch (web/app.py), `succeed` the assignment of
-- `last_success_at` behind a collection (signals/collection.py).
pub mod Watermarks
pub mod Gate
use semiconductor_intelligen.Prelude.{ℕ, Bool, true, false, some, List, [], ◌∷◌}
use semiconductor_intelligen.Signals.Source.{
  Source, ensure_delivery_admission_required, stamp_first_success_baseline,
  clear_collection_identity_watermarks, admit_source_for_delivery,
}

pub data Operation : Type 0 where
  ensure clear : Operation
  first_success succeed admit : ℕ → Operation
  set_muted : Bool → Operation

unfoldable pub apply : Operation → Source → Source
apply ensure source = ensure_delivery_admission_required source
apply clear source = clear_collection_identity_watermarks source
apply (first_success now) source = (stamp_first_success_baseline now source).0
apply (succeed now) source = record source { last_success_at = some now }
apply (admit now) source = admit_source_for_delivery now source
apply (set_muted b) source = record source { muted = b }

unfoldable pub run : List Operation → Source → Source
run [] source = source
run (op ∷ ops) source = run ops (apply op source)

abbrev pub is_admit : Operation → Bool
is_admit (admit now) = true
is_admit _ = false
