-- ===== src/Notifications/Delivery/Bounds.antt =====
-- How often a target is attempted, however often deliveries are asked for.
use semiconductor_intelligen.Prelude.{
  ℕ, ◌+◌, ◌≤◌, ◌<◌, String, ◌≡◌, refl, sym, ap, ◌∙◌, subst, ◌⊎◌, inl, inr, Bool, true, false, ◌&&◌,
  Option, none, List, [], ◌∷◌, ◌++◌, arith, str_eq, eq_iff, ◌==◌, if◌then◌else◌, length, filter,
  find, sort_by, length-sort_by, find-none-sort_by,
}
use semiconductor_intelligen.Prelude.Rows.{filter-snoc, length-filter-none, length-filter_snoc}
use semiconductor_intelligen.Notifications.Attempt.{
  NotificationSettings, Target, Key, NotificationDeliveryAttempt, DeliveryAdapter, Db, bool_eq,
  is_attempt_at, is_delivered_status,
}
use semiconductor_intelligen.Notifications.Delivery.{key_of, attempts_of, deliver}
use semiconductor_intelligen.Notifications.Delivery.Branches.{HasRoom, deliver-Effect}

-- One request to deliver: the target as it is then, the adapter, the time, the default text.
pub record Request : Type 0 where
  pub target : Target
  pub adapter : DeliveryAdapter
  pub now : ℕ
  pub delivery_text : Option String

abbrev pub is_key : Bool → ℕ → String → Key → Bool
is_key is_digest id channel key =
    bool_eq key.is_digest is_digest && key.id == id && str_eq key.channel channel

fits :
    (b : Bool) (before after maximum : ℕ)
    → after ≡ before + (if b then 1 else 0)
    → (b ≡ true → (before ≡ 0) ⊎ (before < maximum))
    → 1 ≤ maximum
    → before ≤ maximum
    → after ≤ maximum
fits true before after maximum e room positive h = ground (arith, room refl)
fits false before after maximum e room positive h = omega arith

bool_eq-eq : (a b : Bool) → bool_eq a b ≡ true → a ≡ b
bool_eq-eq true b h = sym h
bool_eq-eq false true h = cc
bool_eq-eq false false h = refl

module _ (safe_error : Option String → Option String) (settings : NotificationSettings) where
  unfoldable pub deliveries : List Request → Db → Db
  unfolding deliver
  deliveries [] db = db
  deliveries (r ∷ rs) db =
      deliveries rs (deliver safe_error settings r.adapter r.now r.target r.delivery_text db).2

  -- The attempts for one target on one channel, and the calls of its adapters.
  module _ (is_digest : Bool) (id : ℕ) (channel : String) where
    abbrev pub attempts_at : Db → List NotificationDeliveryAttempt
    attempts_at db = filter (is_attempt_at is_digest id channel) db.attempts

    abbrev pub calls_at : Db → List (String × Key)
    calls_at db = filter (λ (call : String × Key). is_key is_digest id channel call.1) db.calls

    -- Calls, deliveries and attempts in bounds.
    pub record IsBounded (db : Db) : Type 0 where
      pub few : length (attempts_at db) ≤ settings.maximum_delivery_attempts
      pub called : length (calls_at db) ≤ length (attempts_at db)
      pub delivered_once :
          length (
            filter
              (λ (a : NotificationDeliveryAttempt). is_delivered_status a.status)
              (attempts_at db))
          ≤ 1

    -- The keys that are counted here.
    IsHere : Target → DeliveryAdapter → Type 0
    IsHere target adapter =
        (target.is_digest ≡ is_digest) × (target.id ≡ id) × (adapter.channel ≡ channel)

    here :
        (target : Target) (adapter : DeliveryAdapter)
        → is_key is_digest id channel
            (record { is_digest = target.is_digest; id = target.id; channel = adapter.channel })
          ≡ true
        → IsHere target adapter
    unfolding IsHere
    here target adapter h = (
      bool_eq-eq target.is_digest is_digest (ground arith),
      ground arith,
      (eq_iff adapter.channel channel).0 (ground arith),
    )

    abbrev is_delivered : NotificationDeliveryAttempt → Bool
    is_delivered attempt = is_delivered_status attempt.status

    -- There is room for one more attempt.
    HasRoomHere : Db → Type 0
    HasRoomHere db =
        (find is_delivered (attempts_at db) ≡ none)
        × ((length (attempts_at db) ≡ 0)
            ⊎ (length (attempts_at db) < settings.maximum_delivery_attempts))

    delivered_snoc :
        (b : Bool) (xs ys : List NotificationDeliveryAttempt) (a : NotificationDeliveryAttempt)
        → ys ≡ (if b then xs ++ a ∷ [] else xs)
        → (b ≡ true → find is_delivered xs ≡ none)
        → length (filter is_delivered xs) ≤ 1
        → length (filter is_delivered ys) ≤ 1
    delivered_snoc true xs ys a e u h =
        let more = length-filter_snoc is_delivered xs a in
        let absent = length-filter-none is_delivered xs (u refl) in
        rw (e, more) (ground (arith, absent))
    delivered_snoc false xs ys a e u h = rw e h

    calls_snoc :
        (b : Bool) (xs ys : List (String × Key)) (key : Key)
        → is_key is_digest id channel key ≡ b
        → (ys ≡ xs) ⊎ ((text : String) × (ys ≡ xs ++ (text, key) ∷ []))
        → length (filter (λ (call : String × Key). is_key is_digest id channel call.1) ys)
          ≤ length (filter (λ (call : String × Key). is_key is_digest id channel call.1) xs)
            + (if b then 1 else 0)
    calls_snoc b xs ys key k (inl e) = rw e (omega arith)
    calls_snoc b xs ys key k (inr (text, e)) =
        let more =
          length-filter_snoc (λ (call : String × Key). is_key is_digest id channel call.1) xs
            (text, key) in
        rw (e, more, k) (omega arith)

    added-IsBounded :
        (db db' : Db) (attempt : NotificationDeliveryAttempt) (key : Key)
        → 1 ≤ settings.maximum_delivery_attempts
        → db'.attempts ≡ db.attempts ++ attempt ∷ []
        → (db'.calls ≡ db.calls) ⊎ ((text : String) × (db'.calls ≡ db.calls ++ (text, key) ∷ []))
        → is_key is_digest id channel key ≡ is_attempt_at is_digest id channel attempt
        → (is_attempt_at is_digest id channel attempt ≡ true → HasRoomHere db)
        → IsBounded db
        → IsBounded db'
    unfolding HasRoomHere
    added-IsBounded db db' attempt key positive rows calls same room h =
        let b = is_attempt_at is_digest id channel attempt in
        let grown : attempts_at db'
            ≡ (if b then attempts_at db ++ attempt ∷ [] else attempts_at db) =
          ap (filter (is_attempt_at is_digest id channel)) rows
          ∙ filter-snoc (is_attempt_at is_digest id channel) db.attempts attempt in
        let more : length (attempts_at db') ≡ length (attempts_at db) + (if b then 1 else 0) =
          ap (λ xs. length (filter (is_attempt_at is_digest id channel) xs)) rows
          ∙ length-filter_snoc (is_attempt_at is_digest id channel) db.attempts attempt in
        let sent = calls_snoc b db.calls db'.calls key same calls in
        record {
          few = fits b _ _ settings.maximum_delivery_attempts more (λ e. (room e).1) positive h.few;
          called = omega (arith, sent, more, h.called);
          delivered_once =
              delivered_snoc b (attempts_at db) (attempts_at db') attempt grown (λ e. (room e).0)
                h.delivered_once;
        }

    room-here :
        (r : Request) (db : Db)
        → IsHere r.target r.adapter
        → HasRoom safe_error settings r.adapter r.now r.target db
        → HasRoomHere db
    unfolding IsHere HasRoomHere attempts_of
    room-here r db (d, n, c) room =
        let number = λ (attempt : NotificationDeliveryAttempt). attempt.attempt_number in
        let same : attempts_of safe_error settings r.adapter r.now r.target db
            ≡ sort_by number (attempts_at db) =
          λ i. sort_by number (filter (is_attempt_at (d i) (n i) (c i)) db.attempts) in
        let size : length (attempts_of safe_error settings r.adapter r.now r.target db)
            ≡ length (attempts_at db) =
          ap length same ∙ length-sort_by number (attempts_at db) in
        (
          find-none-sort_by number is_delivered (attempts_at db)
              (subst (λ xs. find is_delivered xs ≡ none) same room.undelivered),
          subst (λ n. (n ≡ 0) ⊎ (n < settings.maximum_delivery_attempts)) size room.fits,
        )

    deliver-IsBounded :
        (r : Request) (db : Db)
        → 1 ≤ settings.maximum_delivery_attempts
        → IsBounded db
        → IsBounded (deliver safe_error settings r.adapter r.now r.target r.delivery_text db).2
    deliver-IsBounded r db positive h =
        let outcome = deliver safe_error settings r.adapter r.now r.target r.delivery_text db in
        let key = key_of safe_error settings r.adapter r.now r.target in
        elim (deliver-Effect safe_error settings r.adapter r.now r.target r.delivery_text db) [
          | inl (same, e) ↦ subst IsBounded (sym e) h
          | inr (room, added) ↦
              let same : is_key is_digest id channel key
                  ≡ is_attempt_at is_digest id channel added.attempt =
                λ i.
                  bool_eq (sym added.kind i) is_digest
                  && sym added.about i == id
                  && str_eq (sym added.over i) channel in
              added-IsBounded db outcome.2 added.attempt key positive added.rows
                (elim added.calls [ inl (kept, e) ↦ inl e | inr (text, sent, e) ↦ inr (text, e) ])
                same (λ e. room-here r db (here r.target r.adapter (same ∙ e)) room) h
        ]

    deliveries_from :
        (rs : List Request) (db : Db)
        → 1 ≤ settings.maximum_delivery_attempts
        → IsBounded db
        → IsBounded (deliveries rs db)
    unfolding deliveries
    deliveries_from [] db positive h = h
    deliveries_from (r ∷ rs) db positive h =
        deliveries_from rs _ positive (deliver-IsBounded r db positive h)

    -- With at least one attempt allowed, any sequence of deliveries from an empty table leaves, for
    -- each target and channel, no more attempts than `maximum_delivery_attempts`, no more adapter
    -- calls than attempts, and at most one delivered attempt.
    pub deliveries-IsBounded :
        (rs : List Request)
        → 1 ≤ settings.maximum_delivery_attempts
        → IsBounded (deliveries rs (record { attempts = []; calls = [] }))
    deliveries-IsBounded rs positive =
        deliveries_from rs _ positive
          (record { few = omega arith; called = omega arith; delivered_once = omega arith })
