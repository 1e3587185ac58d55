-- ===== src/Signals/Watermark/Consumed.antt =====
-- The snapshot and the gate together.
use semiconductor_intelligen.Prelude.{
  ℕ, String, ◌≡◌, ◌∙◌, true, false, List, [], ◌∷◌, ◌++◌, map, arith, any, All, contains, sorted,
  contains-sorted,
}
use semiconductor_intelligen.Signals.Admission.{
  Rows, row_is_controlled, candidate_transition_has_admitted_material,
}
use semiconductor_intelligen.Signals.Admission.Transition.{row_id, NotAdmitted, transition-consumed}
use semiconductor_intelligen.Signals.Watermark.{
  NotificationEventState, read_candidate_seen_item_ids, write_candidate_seen_item_ids,
}
use semiconductor_intelligen.Signals.Watermark.Isolation.{read-write_self}

-- Every member is in a set that holds the ids of the members.
contains-ids :
    (seen : List ℕ) (rows : Rows)
    → ((b : ℕ) → contains (map row_id rows) b ≡ true → contains seen b ≡ true)
    → All (λ row. contains seen (row_id row) ≡ true) rows
contains-ids seen [] h = tt
contains-ids seen ((item, source) ∷ rows) h =
    (h item.id (ground arith), contains-ids seen rows (λ b p. h b (ground arith)))

-- After an authority has recorded a candidate's members, a candidate under admission control that
-- gains only members that are not admitted authorises no transition of that authority.
pub snapshot-consumes :
    (key : String) (candidate_id : ℕ) (rows more : Rows) (states : List NotificationEventState)
    → any row_is_controlled (rows ++ more) ≡ true
    → All NotAdmitted more
    → candidate_transition_has_admitted_material
        (read_candidate_seen_item_ids key candidate_id
          (write_candidate_seen_item_ids key candidate_id true (map row_id rows) states))
        (rows ++ more)
      ≡ false
snapshot-consumes key c rows more states h experimental =
    rw (read-write_self key c true (map row_id rows) states) (
      transition-consumed (sorted (map row_id rows)) rows more h
        (contains-ids (sorted (map row_id rows)) rows
          (λ b p. contains-sorted b (map row_id rows) ∙ p))
        experimental)
