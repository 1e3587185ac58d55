-- ===== src/Notifications/Emission.antt =====
-- semi_intel/notifications/service.py: _emit, over the table `notifications`. A deduplication key is
-- a prefix with up to three numbers, which its text determines. JSON metadata and the counts by type
-- in the summary are left out.
pub mod Unique
pub mod Handled
use semiconductor_intelligen.Prelude.{
  ℕ, suc, String, Bool, ◌&&◌, Option, none, some, List, [], ◌∷◌, ◌++◌, str_eq, ltb, ◌==◌,
  if◌then◌else◌, find, update_first,
}
use semiconductor_intelligen.Signals.Watermark.{NotificationEventType}
use semiconductor_intelligen.Notifications.Attempt.{NotificationDeliveryState, in_app, suppressed}

pub data NotificationSeverity : Type 0 where
  informational notable important urgent : NotificationSeverity

pub record DedupKey : Type 0 where
  pub prefix : String
  pub subject : ℕ
  pub threshold : ℕ
  pub number : ℕ

abbrev pub key_eq : DedupKey → DedupKey → Bool
key_eq a b =
    str_eq a.prefix b.prefix
    && a.subject == b.subject
    && a.threshold == b.threshold
    && a.number == b.number

pub record Notification : Type 0 where
  pub id : ℕ
  pub event_type : NotificationEventType
  pub severity : NotificationSeverity
  pub title : String
  pub body : String
  pub reason : String
  pub dedup_key : DedupKey
  pub candidate_id : Option ℕ
  pub story_id : Option ℕ
  pub topic_id : Option ℕ
  pub source_suggestion_id : Option ℕ
  pub provider_run_id : Option ℕ
  pub source_id : Option ℕ
  pub created_at : ℕ
  pub event_at : ℕ
  pub first_occurrence_at : ℕ
  pub latest_occurrence_at : ℕ
  pub occurrence_count : ℕ
  pub read_at : Option ℕ
  pub dismissed_at : Option ℕ
  pub muted : Bool
  pub delivery_state : NotificationDeliveryState

-- The arguments of _emit that describe the event.
pub record Event : Type 0 where
  pub event_type : NotificationEventType
  pub severity : NotificationSeverity
  pub title : String
  pub body : String
  pub reason : String
  pub dedup_key : DedupKey
  pub event_at : Option ℕ
  pub candidate_id : Option ℕ
  pub story_id : Option ℕ
  pub topic_id : Option ℕ
  pub source_suggestion_id : Option ℕ
  pub provider_run_id : Option ℕ
  pub source_id : Option ℕ
  pub muted : Bool
  pub aggregate_existing : Bool

-- The table with its next row id, and the ids in the summary.
pub record Outbox : Type 0 where
  pub notifications : List Notification
  pub next_id : ℕ
  pub created : List ℕ
  pub updated : List ℕ

-- `a or b`
abbrev pub or_else {ℓ} : {A : Type ℓ} → Option A → A → A
or_else none b = b
or_else (some a) b = a

abbrev or_kept {ℓ} : {A : Type ℓ} → Option A → Option A → Option A
or_kept none b = b
or_kept (some a) b = some a

abbrev pub has_key : DedupKey → Notification → Bool
has_key key notification = key_eq notification.dedup_key key

-- `title[:500]` is a parameter.
module _ (shorten : String → String) (now : ℕ) where
  abbrev pub new_notification : ℕ → Event → Notification
  new_notification id event = record {
    id = id;
    event_type = event.event_type;
    severity = event.severity;
    title = shorten event.title;
    body = event.body;
    reason = event.reason;
    dedup_key = event.dedup_key;
    candidate_id = event.candidate_id;
    story_id = event.story_id;
    topic_id = event.topic_id;
    source_suggestion_id = event.source_suggestion_id;
    provider_run_id = event.provider_run_id;
    source_id = event.source_id;
    created_at = now;
    event_at = or_else event.event_at now;
    first_occurrence_at = or_else event.event_at now;
    latest_occurrence_at = or_else event.event_at now;
    occurrence_count = 1;
    read_at = none;
    dismissed_at = none;
    muted = event.muted;
    delivery_state = if event.muted then suppressed else in_app;
  }

  -- One more occurrence of what is on file.
  abbrev pub aggregated : Event → Notification → Notification
  aggregated event existing = record existing {
    occurrence_count = suc existing.occurrence_count;
    latest_occurrence_at = or_else event.event_at now;
    body = event.body;
    reason = event.reason;
    provider_run_id = or_kept event.provider_run_id existing.provider_run_id;
  }

  abbrev pub emit_found : Event → Option Notification → Outbox → ℕ × Outbox
  emit_found event (some existing) outbox =
      let aggregate : Outbox = record outbox {
        notifications =
            update_first (has_key event.dedup_key) (aggregated event) outbox.notifications;
        updated = outbox.updated ++ existing.id ∷ [];
      } in
      (
        existing.id,
        if event.aggregate_existing
              && ltb existing.latest_occurrence_at (or_else event.event_at now)
            then aggregate
            else outbox,
      )
  emit_found event none outbox = (
    outbox.next_id,
    record outbox {
      notifications = outbox.notifications ++ new_notification outbox.next_id event ∷ [];
      next_id = suc outbox.next_id;
      created = outbox.created ++ outbox.next_id ∷ [];
    },
  )

  -- The id of the notification that is returned, and the tables after the call.
  unfoldable pub emit : Event → Outbox → ℕ × Outbox
  emit event outbox = emit_found event (find (has_key event.dedup_key) outbox.notifications) outbox
