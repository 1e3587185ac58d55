-- ===== src/Notifications/Delivery/Branches.antt =====
-- What a call of `_deliver` does, branch by branch.
use semiconductor_intelligen.Prelude.{
  ℕ, ◌+◌, ◌≤◌, ◌<◌, String, ◌≡◌, refl, ◌⊎◌, inl, inr, Bool, true, false, not, Option, none, some,
  List, [], ◌∷◌, ◌++◌, arith, if◌then◌else◌, length, find,
}
use semiconductor_intelligen.Notifications.Attempt.{
  DeliveryAttemptStatus, NotificationSettings, Target, NotificationDeliveryAttempt, AdapterResult,
  DeliveryAdapter, Db, deferred, is_delivered_status,
}
use semiconductor_intelligen.Notifications.Delivery.{
  hour, channel_enabled, Outcome, key_of, attempts_of, deliver_unsent, deliver, text_or, closed,
  defer_until, result_of, conclude, send, limit_rate, attempt_now, deliver_open,
}

abbrev pub is_deferred_status : DeliveryAttemptStatus → Bool
is_deferred_status deferred = true
is_deferred_status _ = false

module _ (safe_error : Option String → Option String) (settings : NotificationSettings)
    (adapter : DeliveryAdapter) (now : ℕ) (target : Target) where
  -- One attempt with the given number was added for the target, and the adapter was called once,
  -- or not at all where the attempt is deferred.
  pub record Added (number : ℕ) (db : Db) (outcome : Outcome safe_error settings adapter now)
      : Type 0 where
    pub attempt : NotificationDeliveryAttempt
    pub result : outcome.0 ≡ some attempt
    pub rows : outcome.2.attempts ≡ db.attempts ++ attempt ∷ []
    pub kind : attempt.is_digest ≡ target.is_digest
    pub about : attempt.target_id ≡ target.id
    pub over : attempt.channel ≡ adapter.channel
    pub numbered : attempt.attempt_number ≡ number
    pub calls :
        ((is_deferred_status attempt.status ≡ true) × (outcome.2.calls ≡ db.calls))
        ⊎ ((text : String) × (is_deferred_status attempt.status ≡ false)
            × (outcome.2.calls
                ≡ db.calls ++ (text, key_of safe_error settings adapter now target) ∷ []))

  Added-if :
      (number : ℕ) (db : Db) (b : Bool) (x y : Outcome safe_error settings adapter now)
      → Added number db x
      → Added number db y
      → Added number db (if b then x else y)
  Added-if number db true x y hx hy = hx
  Added-if number db false x y hx hy = hy

  defer-Added :
      (number retry_after : ℕ) (reason : String) (db : Db)
      → Added number db
          (defer_until safe_error settings adapter now target number retry_after reason db)
  unfolding defer_until
  defer-Added number retry_after reason db = record {
    attempt = _;
    result = refl;
    rows = refl;
    kind = refl;
    about = refl;
    over = refl;
    numbered = refl;
    calls = inl (refl, refl);
  }

  conclude-Added :
      (text : String) (number : ℕ) (result : AdapterResult) (db : Db)
      → Added number db (
          conclude safe_error settings adapter now target number result (record db {
            calls = db.calls ++ (text, key_of safe_error settings adapter now target) ∷ [];
          }))
  unfolding conclude
  conclude-Added text number result db =
      Added-if number db result.is_delivered _ _
        (record {
          attempt = _;
          result = refl;
          rows = refl;
          kind = refl;
          about = refl;
          over = refl;
          numbered = refl;
          calls = inr (text, refl, refl);
        })
        (record {
          attempt = _;
          result = refl;
          rows = refl;
          kind = refl;
          about = refl;
          over = refl;
          numbered = refl;
          calls = inr (text, refl, refl);
        })

  send-Added :
      (delivery_text : Option String) (number : ℕ) (db : Db)
      → Added number db (send safe_error settings adapter now target delivery_text number db)
  unfolding send
  send-Added delivery_text number db =
      let text = text_or target.body delivery_text in
      conclude-Added text number
        (result_of safe_error settings adapter now
          (adapter.deliver text (key_of safe_error settings adapter now target)))
        db

  limit_rate-Added :
      (quiet : Option ℕ) (delivery_text : Option String) (number : ℕ) (db : Db)
      → Added number db
          (limit_rate safe_error settings adapter now quiet target delivery_text number db)
  unfolding limit_rate
  limit_rate-Added (some quiet_end) delivery_text number db =
      defer-Added number quiet_end "quiet hours" db
  limit_rate-Added none delivery_text number db =
      Added-if number db _ _ _ (defer-Added number (now + hour) "hourly delivery cap" db)
        (send-Added delivery_text number db)

  attempt_now-Added :
      (delivery_text : Option String) (number : ℕ) (db : Db)
      → Added number db (attempt_now safe_error settings adapter now target delivery_text number db)
  unfolding attempt_now
  attempt_now-Added delivery_text number db =
      Added-if number db _ _ _ (send-Added delivery_text number db)
        (limit_rate-Added _ delivery_text number db)

  -- The attempts for the target on the channel leave room for one more.
  pub record HasRoom (db : Db) : Type 0 where
    pub undelivered :
        find
          (λ (attempt : NotificationDeliveryAttempt). is_delivered_status attempt.status)
          (attempts_of safe_error settings adapter now target db)
        ≡ none
    pub fits :
        (length (attempts_of safe_error settings adapter now target db) ≡ 0)
        ⊎ (length (attempts_of safe_error settings adapter now target db)
            < settings.maximum_delivery_attempts)

  closed-fits :
      (attempts : List NotificationDeliveryAttempt)
      → closed now settings.maximum_delivery_attempts attempts ≡ none
      → (length attempts ≡ 0) ⊎ (length attempts < settings.maximum_delivery_attempts)
  unfolding closed
  closed-fits [] h = inl refl
  closed-fits (first ∷ rest) h = inr (ground arith)

  -- Either nothing changed and no adapter was called, or there was room and one attempt was added,
  -- numbered behind those that were there.
  abbrev pub Effect : Db → Outcome safe_error settings adapter now → Type 0
  Effect db outcome =
      ((outcome.1 ≡ target) × (outcome.2 ≡ db))
      ⊎ (HasRoom db
          × Added (length (attempts_of safe_error settings adapter now target db) + 1) db outcome)

  deliver_open-Effect :
      (delivery_text : Option String) (db : Db)
      → find
          (λ (attempt : NotificationDeliveryAttempt). is_delivered_status attempt.status)
          (attempts_of safe_error settings adapter now target db)
        ≡ none
      → (latest : Option NotificationDeliveryAttempt)
      → closed now settings.maximum_delivery_attempts
          (attempts_of safe_error settings adapter now target db)
        ≡ latest
      → Effect db (
          deliver_open safe_error settings adapter now target delivery_text latest
            (length (attempts_of safe_error settings adapter now target db))
            db)
  unfolding deliver_open
  deliver_open-Effect delivery_text db u (some latest) e = inl (refl, refl)
  deliver_open-Effect delivery_text db u none e =
      let sent = attempts_of safe_error settings adapter now target db in
      inr (
        record { undelivered = u; fits = closed-fits sent e },
        attempt_now-Added delivery_text (length sent + 1) db,
      )

  deliver_unsent-Effect :
      (delivery_text : Option String) (db : Db) (found : Option NotificationDeliveryAttempt)
      → find
          (λ (attempt : NotificationDeliveryAttempt). is_delivered_status attempt.status)
          (attempts_of safe_error settings adapter now target db)
        ≡ found
      → Effect db (
          deliver_unsent safe_error settings adapter now target delivery_text
            (attempts_of safe_error settings adapter now target db)
            found
            db)
  unfolding deliver_unsent
  deliver_unsent-Effect delivery_text db (some done) e = inl (refl, refl)
  deliver_unsent-Effect delivery_text db none e = deliver_open-Effect delivery_text db e _ refl

  Effect-if :
      (db : Db) (b : Bool) (x y : Outcome safe_error settings adapter now)
      → Effect db x
      → Effect db y
      → Effect db (if b then x else y)
  Effect-if db true x y hx hy = hx
  Effect-if db false x y hx hy = hy

  pub deliver-Effect :
      (delivery_text : Option String) (db : Db)
      → Effect db (deliver safe_error settings adapter now target delivery_text db)
  unfolding deliver
  deliver-Effect delivery_text db =
      Effect-if db (not (channel_enabled safe_error settings adapter now)) _ _ (inl (refl, refl))
        (deliver_unsent-Effect delivery_text db _ refl)

  -- Once there are attempts for a target, and as many as `maximum_delivery_attempts`, a delivery
  -- leaves the target and the tables as they were and calls no adapter, whatever the status of the
  -- attempts.
  pub deliver-exhausted :
      (delivery_text : Option String) (db : Db)
      → 1 ≤ length (attempts_of safe_error settings adapter now target db)
      → settings.maximum_delivery_attempts
        ≤ length (attempts_of safe_error settings adapter now target db)
      → ((deliver safe_error settings adapter now target delivery_text db).1 ≡ target)
        × ((deliver safe_error settings adapter now target delivery_text db).2 ≡ db)
  deliver-exhausted delivery_text db some_made many = elim (deliver-Effect delivery_text db) [
    | inl unchanged ↦ unchanged
    | inr (room, added) ↦ elim room.fits [
      | inl none_made ↦ absurd (omega (arith, none_made, some_made))
      | inr few ↦ absurd (omega (arith, few, many))
    ]
  ]
