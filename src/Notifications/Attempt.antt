-- ===== src/Notifications/Attempt.antt =====
-- semi_intel/domain/models.py, enums.py and semi_intel/notifications/delivery.py: the targets, the
-- attempts and the adapters of deliveries.
use semiconductor_intelligen.Prelude.{
  ℕ, String, Bool, true, false, not, ◌&&◌, Option, none, some, List, [], ◌∷◌, str_eq, ltb, ◌==◌,
}
use semiconductor_intelligen.Operations.Clock.{Zone}

pub data DeliveryAttemptStatus : Type 0 where
  delivered deferred failed : DeliveryAttemptStatus

pub data NotificationDeliveryState : Type 0 where
  in_app pending was_deferred was_delivered has_failed suppressed : NotificationDeliveryState

pub record NotificationSettings : Type 0 where
  pub external_delivery_enabled : Bool
  pub windows_desktop_notifications_enabled : Bool
  pub timezone : Zone
  pub quiet_hours_start : ℕ
  pub quiet_hours_end_at : ℕ
  pub maximum_immediate_per_hour : ℕ
  pub maximum_delivery_attempts : ℕ

-- A notification, or a digest, with the text that is delivered by default.
pub record Target : Type 0 where
  pub is_digest : Bool
  pub id : ℕ
  pub body : String
  pub delivery_state : NotificationDeliveryState

-- f"{target_kind}:{target_id}:{adapter.channel}", which determines its three parts.
pub record Key : Type 0 where
  pub is_digest : Bool
  pub id : ℕ
  pub channel : String

pub record NotificationDeliveryAttempt : Type 0 where
  pub is_digest : Bool
  pub target_id : ℕ
  pub channel : String
  pub adapter_name : String
  pub attempt_number : ℕ
  pub status : DeliveryAttemptStatus
  pub attempted_at : ℕ
  pub completed_at : ℕ
  pub retry_after : Option ℕ
  pub error_summary : Option String
  pub external_message_id : Option String

pub record AdapterResult : Type 0 where
  pub is_delivered : Bool
  pub external_message_id : Option String
  pub error : Option String
  pub retryable : Bool

-- What `adapter.deliver` does: it returns, or raises with a text.
pub data Reply : Type 0 where
  returned : AdapterResult → Reply
  raised : String → Reply

pub record DeliveryAdapter : Type 0 where
  pub name : String
  pub channel : String
  pub deliver : String → Key → Reply

-- The attempts, and the calls that adapters received, oldest first.
pub record Db : Type 0 where
  pub attempts : List NotificationDeliveryAttempt
  pub calls : List (String × Key)

abbrev pub bool_eq : Bool → Bool → Bool
bool_eq true b = b
bool_eq false b = not b

abbrev pub is_attempt_at : Bool → ℕ → String → NotificationDeliveryAttempt → Bool
is_attempt_at is_digest id channel attempt =
    bool_eq attempt.is_digest is_digest && attempt.target_id == id && str_eq attempt.channel channel

abbrev pub is_delivered_status : DeliveryAttemptStatus → Bool
is_delivered_status delivered = true
is_delivered_status _ = false

abbrev pub is_failed_status : DeliveryAttemptStatus → Bool
is_failed_status failed = true
is_failed_status _ = false

-- `attempts[-1]`
abbrev pub last {ℓ} : {A : Type ℓ} → A → List A → A
last x [] = x
last x (y ∷ ys) = last y ys

-- A time that is set and lies ahead.
abbrev pub is_later : ℕ → Option ℕ → Bool
is_later now none = false
is_later now (some t) = ltb now t
