-- ===== src/Notifications/Crossings/Reset.antt =====
-- semi_intel/notifications/service.py: reset_activation deletes the event states, and the sequence
-- numbers begin at 1 again.
use semiconductor_intelligen.Prelude.{
  ℕ, String, ◌≡◌, refl, ap, ◌∙◌, ◌⊎◌, inl, inr, false, not, ◌&&◌, Option, none, some, if_rule, find,
}
use semiconductor_intelligen.Signals.Watermark.{
  NotificationEventType, high_attention, promotion_ready,
}
use semiconductor_intelligen.Candidates.Promotion.{CandidatePromotionSettings}
use semiconductor_intelligen.Notifications.Emission.{DedupKey, Notification, Outbox, has_key}
use semiconductor_intelligen.Notifications.Emission.Unique.{emit-on_file}
use semiconductor_intelligen.Notifications.Crossings.{
  Facts, CrossingSettings, Flag, EventStates, Look, CrossingTexts, high_edge, ready_edge,
  score_edge, corroboration_edge, is_promotion_ready, is_high, crossing_event, emit_number, look_at,
  candidate_events,
}

-- delete(NotificationEventState), for one candidate.
unfoldable pub reset_activation : ℕ → CrossingSettings → CrossingSettings × EventStates
reset_activation now settings = (
  record settings { activation_at = now },
  record { high = none; score = none; corroboration = none; ready = none; seen = none },
)

-- A first event has the number 1.
high_edge-first :
    (now : ℕ) (look : Look)
    → ((high_edge now look none).1 ≡ none) ⊎ ((high_edge now look none).1 ≡ some 1)
unfolding high_edge
high_edge-first now look =
    let First = λ (p : Flag × Option ℕ). (p.1 ≡ none) ⊎ (p.1 ≡ some 1) in
    if_rule First (not look.recent) (inl refl) (
      if_rule First (not look.admitted) (inl refl)
        (if_rule First (look.condition && look.enabled) (inr refl) (inl refl)))

ready_edge-first :
    (now : ℕ) (look : Look)
    → ((ready_edge now look none).1 ≡ none) ⊎ ((ready_edge now look none).1 ≡ some 1)
unfolding ready_edge
ready_edge-first now look =
    let First = λ (p : Flag × Option ℕ). (p.1 ≡ none) ⊎ (p.1 ≡ some 1) in
    if_rule First (look.condition && not false && (look.recent && look.admitted) && look.enabled)
      (inr refl) (inl refl)

abbrev pub first_key : String → ℕ → Facts → DedupKey
first_key prefix threshold c = record {
  prefix = prefix;
  subject = c.id;
  threshold = threshold;
  number = 1;
}

module _ (texts : CrossingTexts) (settings : CrossingSettings)
    (promotion_settings : CandidatePromotionSettings) (now : ℕ) where
  emit_number-on_file :
      (event_type : NotificationEventType) (prefix : String) (threshold : ℕ) (c : Facts)
      (number : Option ℕ) (outbox : Outbox) (row : Notification)
      → (number ≡ none) ⊎ (number ≡ some 1)
      → find (has_key (first_key prefix threshold c)) outbox.notifications ≡ some row
      → emit_number texts settings promotion_settings now event_type prefix threshold c number
          outbox
        ≡ outbox
  emit_number-on_file event_type prefix threshold c number outbox row (inl e) found = rw e refl
  emit_number-on_file event_type prefix threshold c number outbox row (inr e) found = rw e (
      ap (λ (p : ℕ × Outbox). p.1)
        (emit-on_file texts.shorten now
          (crossing_event texts settings promotion_settings now event_type prefix threshold c 1)
          outbox row refl found))

-- After a reset, a candidate's evaluation announces nothing, whatever the candidate has become, if
-- its first high-attention event under the threshold and its first ready event were announced before
-- the reset and are on file.
pub reset-swallows :
    (texts : CrossingTexts) (settings : CrossingSettings)
    (promotion_settings : CandidatePromotionSettings) (reset_at now : ℕ) (c : Facts)
    (outbox : Outbox) (high ready : Notification)
    → find (has_key (first_key "high" settings.minimum_attention_score c)) outbox.notifications
      ≡ some high
    → find (has_key (first_key "promotion-ready" 0 c)) outbox.notifications ≡ some ready
    → let (settings', states) = reset_activation reset_at settings in
      (candidate_events texts settings' promotion_settings now c states outbox).1 ≡ outbox
unfolding candidate_events reset_activation score_edge corroboration_edge
reset-swallows texts settings promotion_settings reset_at now c outbox high ready is_high_there
      is_ready_there =
    let settings' = record settings { activation_at = reset_at } in
    let first =
      emit_number-on_file texts settings' promotion_settings now high_attention "high"
        settings.minimum_attention_score c _ outbox high
        (high_edge-first now (
          look_at texts settings' promotion_settings now c none (is_high settings' c)
            settings.high_score_enabled))
        is_high_there in
    let last =
      emit_number-on_file texts settings' promotion_settings now promotion_ready "promotion-ready" 0
        c _ outbox ready
        (ready_edge-first now (
          look_at texts settings' promotion_settings now c none
            (is_promotion_ready promotion_settings now c) settings.promotion_ready_enabled))
        is_ready_there in
    ap (emit_number texts settings' promotion_settings now promotion_ready "promotion-ready" 0 c _)
      first
    ∙ last
