-- ===== src/Signals/Watermark/Isolation.antt =====
-- Snapshots are read back as they were written, and the authorities do not disturb one another.
use mathlib.Core.Option
use semiconductor_intelligen.Prelude.{
  ℕ, String, ◌≡◌, refl, sym, ◌∙◌, subst, inl, inr, Bool, true, false, ◌&&◌, ◌||◌, Option, none,
  some, List, [], ◌∷◌, ◌++◌, arith, str_eq, eq_refl, ◌==◌, if◌then◌else◌, ==_iff, Bool-cases,
  is_some, any, find, All, sorted, update_first, find-update_first, find-update_first_ne,
  find-append,
}
use semiconductor_intelligen.Prelude.Dict.{get, get-put}
use semiconductor_intelligen.Signals.Watermark.{
  NotificationEventType, NotificationEventState, high_attention, score_increase,
  independent_corroboration, promotion_ready, ordinal, candidate_snapshot_types, is_state,
  read_candidate_seen_item_ids, fresh_state, write_candidate_seen_item_ids, read_state, record_ids,
  write_types,
}

module _ (key : String) (candidate_id : ℕ) (recorded : List ℕ) where
  abbrev updated : NotificationEventType → List NotificationEventState → List NotificationEventState
  updated t = update_first (is_state t candidate_id) (record_ids key candidate_id recorded)

  abbrev at : ℕ → NotificationEventState → Bool
  at o state =
      ordinal state.event_type == o
      && str_eq state.subject_kind "candidate"
      && state.subject_id == candidate_id

  at_ne :
      (o o' : ℕ) (state : NotificationEventState)
      → (o' == o) ≡ false
      → at o' state ≡ true
      → at o state ≡ false
  at_ne o o' state e h = ground arith

  find-update_at :
      (o o' : ℕ) (states : List NotificationEventState)
      → find (at o) (update_first (at o') (record_ids key candidate_id recorded) states) ≡ (
          if o' == o
          then Option.map (record_ids key candidate_id recorded) (find (at o) states)
          else find (at o) states)
  find-update_at o o' states =
      let put_ids = record_ids key candidate_id recorded in
      elim (Bool-cases (o' == o)) [
        | inl e ↦ rw e (
            subst
              (λ k.
                find (at o) (update_first (at k) put_ids states)
                ≡ Option.map put_ids (find (at o) states))
              (sym ((==_iff o' o).0 e)) (find-update_first (at o) put_ids (λ x. refl) states))
        | inr e ↦ rw e (
            find-update_first_ne (at o') put_ids (at o) (λ x. at_ne o o' x e) (λ x. at_ne o o' x e)
              states)
      ]

  find-updated :
      (t t' : NotificationEventType) (states : List NotificationEventState)
      → find (is_state t candidate_id) (updated t' states) ≡ (
          if ordinal t' == ordinal t
          then Option.map
              (record_ids key candidate_id recorded)
              (find (is_state t candidate_id) states)
          else find (is_state t candidate_id) states)
  find-updated t t' states = find-update_at (ordinal t) (ordinal t') states

  -- The rows that a query by type finds after the loop.
  find-write_types :
      (states : List NotificationEventState)
      → All
          (λ t.
            find
              (is_state t candidate_id)
              (write_types key candidate_id recorded candidate_snapshot_types states).0
            ≡ Option.map
                (record_ids key candidate_id recorded)
                (find (is_state t candidate_id) states))
          candidate_snapshot_types
  unfolding write_types
  find-write_types states =
      (simp find-updated, (simp find-updated, (simp find-updated, (simp find-updated, tt))))

  wrote_lem :
      (states : List NotificationEventState)
      → (write_types key candidate_id recorded candidate_snapshot_types states).1
        ≡ any (λ t. is_some (find (is_state t candidate_id) states)) candidate_snapshot_types
  unfolding write_types
  wrote_lem states = simp find-updated

  read_recorded :
      (state : Option NotificationEventState)
      → read_state key candidate_id (Option.map (record_ids key candidate_id recorded) state)
        ≡ (if is_some state then some recorded else none)
  unfolding read_state
  read_recorded none = refl
  read_recorded (some state) = simp (get-put, eq_refl)

  read_other :
      (other : String)
      → str_eq key other ≡ false
      → (state : Option NotificationEventState)
      → read_state other candidate_id (Option.map (record_ids key candidate_id recorded) state)
        ≡ read_state other candidate_id state
  unfolding read_state
  read_other other e none = refl
  read_other other e (some state) = get-put key other recorded state.snapshots ∙ rw e

  read-write_types :
      (states : List NotificationEventState)
      → read_candidate_seen_item_ids key candidate_id
          (write_types key candidate_id recorded candidate_snapshot_types states).0
        ≡ (if any (λ t. is_some (find (is_state t candidate_id) states)) candidate_snapshot_types
            then some recorded
            else none)
  unfolding read_candidate_seen_item_ids
  read-write_types states =
      let finds = find-write_types states in
      simp (finds.0, finds.1.0, finds.1.1.0, finds.1.1.1.0, read_recorded) (ground arith)

  other-write_types :
      (other : String)
      → str_eq key other ≡ false
      → (states : List NotificationEventState)
      → read_candidate_seen_item_ids other candidate_id
          (write_types key candidate_id recorded candidate_snapshot_types states).0
        ≡ read_candidate_seen_item_ids other candidate_id states
  unfolding read_candidate_seen_item_ids
  other-write_types other e states =
      let finds = find-write_types states in
      simp (finds.0, finds.1.0, finds.1.1.0, finds.1.1.1.0, read_other other e)

  -- Where the loop found no state, none of the four queries finds one.
  none_found :
      (states : List NotificationEventState)
      → any (λ t. is_some (find (is_state t candidate_id) states)) candidate_snapshot_types ≡ false
      → All
          (λ t.
            find
              (is_state t candidate_id)
              (write_types key candidate_id recorded candidate_snapshot_types states).0
            ≡ none)
          candidate_snapshot_types
  none_found states h =
      let finds = find-write_types states in
      (
        ground (arith, finds.0),
        (
          ground (arith, finds.1.0),
          (ground (arith, finds.1.1.0), (ground (arith, finds.1.1.1.0), tt)),
        ),
      )

  find-created :
      (t : NotificationEventType) (states : List NotificationEventState)
      → find (is_state t candidate_id) states ≡ none
      → find (is_state t candidate_id) (states ++ fresh_state key candidate_id recorded ∷ [])
        ≡ (if 3 == ordinal t then some (fresh_state key candidate_id recorded) else none)
  find-created t states h =
      find-append (is_state t candidate_id) states (fresh_state key candidate_id recorded) h
      ∙ ground arith

  read-created :
      (other : String) (states : List NotificationEventState)
      → any (λ t. is_some (find (is_state t candidate_id) states)) candidate_snapshot_types ≡ false
      → read_candidate_seen_item_ids other candidate_id (
          (write_types key candidate_id recorded candidate_snapshot_types states).0
          ++ fresh_state key candidate_id recorded ∷ [])
        ≡ (if str_eq key other then some recorded else none)
  unfolding read_candidate_seen_item_ids get
  read-created other states h =
      let nones = none_found states h in
      let after = (write_types key candidate_id recorded candidate_snapshot_types states).0 in
      simp
        (
          find-created high_attention after nones.0,
          find-created score_increase after nones.1.0,
          find-created independent_corroboration after nones.1.1.0,
          find-created promotion_ready after nones.1.1.1.0,
        )
        (ground arith)

  read_unfound :
      (other : String) (states : List NotificationEventState)
      → any (λ t. is_some (find (is_state t candidate_id) states)) candidate_snapshot_types ≡ false
      → read_candidate_seen_item_ids other candidate_id states ≡ none
  unfolding read_candidate_seen_item_ids read_state
  read_unfound other states h = ground arith

-- What an authority writes it reads back, as the set that it wrote, if the candidate has an event
-- state or `create_if_missing` is set; a write that finds no state and creates none leaves nothing
-- to read.
pub read-write_self :
    (key : String) (candidate_id : ℕ) (create : Bool) (ids : List ℕ)
    (states : List NotificationEventState)
    → read_candidate_seen_item_ids key candidate_id
        (write_candidate_seen_item_ids key candidate_id create ids states)
      ≡ (if create
            || any (λ t. is_some (find (is_state t candidate_id) states)) candidate_snapshot_types
          then some (sorted ids)
          else none)
unfolding write_candidate_seen_item_ids
read-write_self key c create ids states =
    let found = any (λ t. is_some (find (is_state t c) states)) candidate_snapshot_types in
    elim (Bool-cases found) [
      | inl e ↦
          ground
            (arith, wrote_lem key c (sorted ids) states, read-write_types key c (sorted ids) states)
      | inr e ↦ ground (
        arith,
        wrote_lem key c (sorted ids) states,
        read-write_types key c (sorted ids) states,
        read-created key c (sorted ids) key states e,
        eq_refl key,
      )
    ]

-- A write of the snapshot under one key leaves what is read under another key unchanged, also
-- where it creates the first event state of the candidate.
pub read-write_other :
    (key other : String) (candidate_id : ℕ) (create : Bool) (ids : List ℕ)
    (states : List NotificationEventState)
    → str_eq key other ≡ false
    → read_candidate_seen_item_ids other candidate_id
        (write_candidate_seen_item_ids key candidate_id create ids states)
      ≡ read_candidate_seen_item_ids other candidate_id states
unfolding write_candidate_seen_item_ids
read-write_other key other c create ids states ne =
    let found = any (λ t. is_some (find (is_state t c) states)) candidate_snapshot_types in
    elim (Bool-cases found) [
      | inl e ↦ ground (
        arith,
        wrote_lem key c (sorted ids) states,
        other-write_types key c (sorted ids) other ne states,
      )
      | inr e ↦ ground (
        arith,
        wrote_lem key c (sorted ids) states,
        other-write_types key c (sorted ids) other ne states,
        read-created key c (sorted ids) other states e,
        read_unfound key c (sorted ids) other states e,
      )
    ]
