-- ===== src/Signals/Watermark.antt =====
-- semi_intel/signals/source_lifecycle.py: the membership snapshots. Each authority (notifications,
-- automatic promotion) keeps its own under a key in the JSON metadata of the candidate's event
-- states, the table `notification_event_states`.
pub mod Isolation
pub mod Consumed
use semiconductor_intelligen.Prelude.{
  ℕ, String, Bool, false, not, ◌&&◌, ◌||◌, Option, none, some, List, [], ◌∷◌, ◌++◌, str_eq, ◌==◌,
  if◌then◌else◌, is_some, find, sorted, update_first,
}
use semiconductor_intelligen.Prelude.Dict.{Dict, get, put}

pub data NotificationEventType : Type 0 where
  high_attention score_increase independent_corroboration promotion_ready : NotificationEventType
  candidate_promoted topic_activity source_suggestion provider_failure : NotificationEventType
  provider_recovery test : NotificationEventType

-- The position in the enumeration, by which two members are compared.
abbrev pub ordinal : NotificationEventType → ℕ
ordinal high_attention = 0
ordinal score_increase = 1
ordinal independent_corroboration = 2
ordinal promotion_ready = 3
ordinal candidate_promoted = 4
ordinal topic_activity = 5
ordinal source_suggestion = 6
ordinal provider_failure = 7
ordinal provider_recovery = 8
ordinal test = 9

-- `state_metadata` decoded: the counter `sequence`, and the lists of item ids under other keys.
pub record NotificationEventState : Type 0 where
  pub event_type : NotificationEventType
  pub subject_kind : String
  pub subject_id : ℕ
  pub last_boolean_value : Option Bool
  pub sequence : ℕ
  pub snapshots : Dict (List ℕ)

abbrev pub notification_seen_item_ids_key : String
notification_seen_item_ids_key = "seen_signal_item_ids"

abbrev pub auto_promotion_seen_item_ids_key : String
auto_promotion_seen_item_ids_key = "auto_promotion_seen_signal_item_ids"

abbrev pub candidate_snapshot_types : List NotificationEventType
candidate_snapshot_types =
    high_attention ∷ score_increase ∷ independent_corroboration ∷ promotion_ready ∷ []

abbrev pub is_state : NotificationEventType → ℕ → NotificationEventState → Bool
is_state event_type candidate_id state =
    ordinal state.event_type == ordinal event_type
    && str_eq state.subject_kind "candidate"
    && state.subject_id == candidate_id

-- The loop returns at the first state that has the key.
abbrev first_some {ℓ} : {A : Type ℓ} → Option A → Option A → Option A
first_some (some a) rest = some a
first_some none rest = rest

module _ (key : String) (candidate_id : ℕ) where
  read_state : Option NotificationEventState → Option (List ℕ)
  read_state none = none
  read_state (some state) = get key state.snapshots

  read_types : List NotificationEventType → List NotificationEventState → Option (List ℕ)
  unfolding read_state
  read_types [] states = none
  read_types (event_type ∷ types) states =
      let rest = read_types types states in
      first_some (read_state (find (is_state event_type candidate_id) states)) rest

  unfoldable pub read_candidate_seen_item_ids : List NotificationEventState → Option (List ℕ)
  unfolding read_types
  read_candidate_seen_item_ids = read_types candidate_snapshot_types

  module _ (recorded : List ℕ) where
    abbrev record_ids : NotificationEventState → NotificationEventState
    record_ids state = record state { snapshots = put key recorded state.snapshots }

    -- The rows after the loop, and `wrote`.
    write_types :
        List NotificationEventType
        → List NotificationEventState
        → List NotificationEventState × Bool
    unfolding update_first
    write_types [] states = (states, false)
    write_types (event_type ∷ types) states =
        let found = is_some (find (is_state event_type candidate_id) states) in
        let (states', wrote) =
          write_types types (update_first (is_state event_type candidate_id) record_ids states) in
        (states', found || wrote)

    abbrev pub fresh_state : NotificationEventState
    fresh_state = record {
      event_type = promotion_ready;
      subject_kind = "candidate";
      subject_id = candidate_id;
      last_boolean_value = some false;
      sequence = 0;
      snapshots = (key, recorded) ∷ [];
    }

  unfoldable pub write_candidate_seen_item_ids :
      Bool → List ℕ → List NotificationEventState → List NotificationEventState
  unfolding write_types
  write_candidate_seen_item_ids create_if_missing item_ids states =
      let recorded = sorted item_ids in
      let (states', wrote) = write_types recorded candidate_snapshot_types states in
      if create_if_missing && not wrote then states' ++ fresh_state recorded ∷ [] else states'
