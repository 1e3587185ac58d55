-- ===== src/Notifications/Delivery.antt =====
-- semi_intel/notifications/delivery.py: DeliveryService, over the table
-- `notification_delivery_attempts`.
pub mod Branches
pub mod Bounds
use semiconductor_intelligen.Prelude.{
  ℕ, ◌+◌, ◌-◌, ◌*◌, ◌^◌, String, Bool, true, false, not, ◌&&◌, Option, none, some, List, [], ◌∷◌,
  ◌++◌, str_eq, ltb, leb, if◌then◌else◌, is_some, length, filter, find, sort_by,
}
use semiconductor_intelligen.Operations.Clock.{quiet_hours_end}
use semiconductor_intelligen.Notifications.Attempt.{
  DeliveryAttemptStatus, NotificationDeliveryState, NotificationSettings, Target, Key,
  NotificationDeliveryAttempt, AdapterResult, Reply, DeliveryAdapter, Db, delivered, deferred,
  failed, was_deferred, was_delivered, has_failed, returned, raised, is_attempt_at,
  is_delivered_status, is_failed_status, last, is_later,
}

-- `delivery_text or body`
abbrev text_or : String → Option String → String
text_or body none = body
text_or body (some text) = if str_eq text "" then body else text

-- Why no new attempt is made after these, if any: the latest is returned.
closed : ℕ → ℕ → List NotificationDeliveryAttempt → Option NotificationDeliveryAttempt
closed now maximum [] = none
closed now maximum (first ∷ rest) =
    let latest = last first rest in
    if is_later now latest.retry_after
    then some latest
    else if is_failed_status latest.status && not (is_some latest.retry_after)
    then some latest
    else if leb maximum (length (first ∷ rest))
    then some latest
    else none

abbrev pub hour : ℕ
hour = 3600000000

-- dt.timedelta(minutes=5 * 2 ** (attempt_number - 1))
abbrev pub backoff : ℕ → ℕ
backoff attempt_number = 5 * 2 ^ (attempt_number - 1) * 60000000

-- `safe_error` of notifications/service.py, which shortens and redacts an error text.
module _ (safe_error : Option String → Option String) (settings : NotificationSettings)
    (adapter : DeliveryAdapter) (now : ℕ) where
  -- The switches of the channels.
  unfoldable pub channel_enabled : Bool
  channel_enabled =
      if str_eq adapter.channel "windows_desktop"
      then settings.windows_desktop_notifications_enabled
      else if str_eq adapter.channel "in_app"
      then true
      else settings.external_delivery_enabled

  -- The state of the target that an attempt leaves: a desktop notice leaves it alone.
  set_state : NotificationDeliveryState → Target → Target
  set_state state target =
      if str_eq adapter.channel "windows_desktop"
      then target
      else record target { delivery_state = state }

  abbrev new_attempt : Target → ℕ → DeliveryAttemptStatus → NotificationDeliveryAttempt
  new_attempt target attempt_number status = record {
    is_digest = target.is_digest;
    target_id = target.id;
    channel = adapter.channel;
    adapter_name = adapter.name;
    attempt_number = attempt_number;
    status = status;
    attempted_at = now;
    completed_at = now;
    retry_after = none;
    error_summary = none;
    external_message_id = none;
  }

  -- The attempt, the target and the tables after a call; no attempt where the channel is off.
  abbrev pub Outcome : Type 0
  Outcome = Option NotificationDeliveryAttempt × Target × Db

  abbrev add : NotificationDeliveryAttempt → Target → Db → Outcome
  add attempt target db =
      (some attempt, target, record db { attempts = db.attempts ++ attempt ∷ [] })

  defer_until : Target → ℕ → ℕ → String → Db → Outcome
  unfolding set_state
  defer_until target attempt_number retry_after reason db =
      let attempt =
        let base : NotificationDeliveryAttempt = new_attempt target attempt_number deferred in
        record base { retry_after = some retry_after; error_summary = some reason } in
      add attempt (set_state was_deferred target) db

  result_of : Reply → AdapterResult
  result_of (returned result) = result
  result_of (raised text) = record {
    is_delivered = false;
    external_message_id = none;
    error = safe_error (some text);
    retryable = true;
  }

  conclude : Target → ℕ → AdapterResult → Db → Outcome
  unfolding set_state
  conclude target attempt_number result db =
      let delivered_attempt =
        let base : NotificationDeliveryAttempt = new_attempt target attempt_number delivered in
        record base { external_message_id = result.external_message_id } in
      let failed_attempt =
        let base : NotificationDeliveryAttempt = new_attempt target attempt_number failed in
        record base {
          retry_after =
              if result.retryable && ltb attempt_number settings.maximum_delivery_attempts
              then some (now + backoff attempt_number)
              else none;
          error_summary = safe_error result.error;
        } in
      if result.is_delivered
      then add delivered_attempt (set_state was_delivered target) db
      else add failed_attempt (set_state has_failed target) db

  abbrev pub key_of : Target → Key
  key_of target = record { is_digest = target.is_digest; id = target.id; channel = adapter.channel }

  send : Target → Option String → ℕ → Db → Outcome
  unfolding conclude result_of
  send target delivery_text attempt_number db =
      let text = text_or target.body delivery_text in
      let db' = record db { calls = db.calls ++ (text, key_of target) ∷ [] } in
      conclude target attempt_number (result_of (adapter.deliver text (key_of target))) db'

  -- The deliveries of the channel in the last hour.
  delivered_last_hour : Db → ℕ
  delivered_last_hour db = length (
      filter
        (λ (attempt : NotificationDeliveryAttempt).
          str_eq attempt.channel adapter.channel
          && is_delivered_status attempt.status
          && leb now (attempt.completed_at + hour))
        db.attempts)

  limit_rate : Option ℕ → Target → Option String → ℕ → Db → Outcome
  unfolding defer_until send delivered_last_hour
  limit_rate (some quiet_end) target delivery_text attempt_number db =
      defer_until target attempt_number quiet_end "quiet hours" db
  limit_rate none target delivery_text attempt_number db =
      if leb settings.maximum_immediate_per_hour (delivered_last_hour db)
      then defer_until target attempt_number (now + hour) "hourly delivery cap" db
      else send target delivery_text attempt_number db

  attempt_now : Target → Option String → ℕ → Db → Outcome
  unfolding limit_rate send
  attempt_now target delivery_text attempt_number db =
      if str_eq adapter.channel "in_app"
      then send target delivery_text attempt_number db
      else limit_rate
          (quiet_hours_end now settings.timezone settings.quiet_hours_start
            settings.quiet_hours_end_at)
          target delivery_text attempt_number db

  -- The attempts for the target on the adapter's channel, by attempt number.
  unfoldable pub attempts_of : Target → Db → List NotificationDeliveryAttempt
  attempts_of target db =
      sort_by (λ (attempt : NotificationDeliveryAttempt). attempt.attempt_number)
        (filter (is_attempt_at target.is_digest target.id adapter.channel) db.attempts)

  deliver_open : Target → Option String → Option NotificationDeliveryAttempt → ℕ → Db → Outcome
  unfolding attempt_now
  deliver_open target delivery_text (some latest) count db = (some latest, target, db)
  deliver_open target delivery_text none count db = attempt_now target delivery_text (count + 1) db

  unfoldable pub deliver_unsent :
      Target
      → Option String
      → List NotificationDeliveryAttempt
      → Option NotificationDeliveryAttempt
      → Db
      → Outcome
  unfolding deliver_open closed
  deliver_unsent target delivery_text attempts (some done) db = (some done, target, db)
  deliver_unsent target delivery_text attempts none db =
      deliver_open target delivery_text (closed now settings.maximum_delivery_attempts attempts)
        (length attempts) db

  unfoldable pub deliver : Target → Option String → Db → Outcome
  deliver target delivery_text db =
      if not channel_enabled
      then (none, target, db)
      else deliver_unsent target delivery_text (attempts_of target db)
          (find (λ (attempt : NotificationDeliveryAttempt). is_delivered_status attempt.status)
            (attempts_of target db))
          db
