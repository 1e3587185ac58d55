-- ===== src/Notifications/Crossings.antt =====
-- semi_intel/notifications/service.py: _candidate_events for one candidate, with its four event
-- states in place of their rows, and the snapshot of its members. Scores are ranks on a fixed scale;
-- the texts are parameters.
pub mod Edges
pub mod Reset
use semiconductor_intelligen.Prelude.{
  ℕ, suc, ◌+◌, String, Bool, false, not, ◌&&◌, ◌||◌, Option, none, some, List, map, ltb, leb,
  if◌then◌else◌, is_some, sorted,
}
use semiconductor_intelligen.Signals.Admission.{Rows, candidate_transition_has_admitted_material}
use semiconductor_intelligen.Signals.Watermark.{
  NotificationEventType, high_attention, score_increase, independent_corroboration, promotion_ready,
}
use semiconductor_intelligen.Candidates.Promotion.{CandidatePromotionSettings, is_recent}
use semiconductor_intelligen.Notifications.Emission.{NotificationSeverity, Event, Outbox, emit}

-- The columns of a candidate that are read, and its members with their sources.
pub record Facts : Type 0 where
  pub id : ℕ
  pub is_active_now : Bool
  pub latest_observed_at : ℕ
  pub first_observed_at : Option ℕ
  pub attention_score : ℕ
  pub primary_topic_id : Option ℕ
  pub independent_source_group_count : ℕ
  pub rows : Rows

-- The columns of `notification_settings` that are read, and what is muted.
pub record CrossingSettings : Type 0 where
  pub activation_at : ℕ
  pub minimum_attention_score : ℕ
  pub minimum_score_increase : ℕ
  pub required_independent_group_count : ℕ
  pub required_topic_match : Bool
  pub high_score_enabled : Bool
  pub score_increase_enabled : Bool
  pub corroboration_enabled : Bool
  pub promotion_ready_enabled : Bool
  pub is_muted : NotificationEventType → Option ℕ → Bool

-- An event state with last_boolean_value, and one with last_numeric_value.
pub record Flag : Type 0 where
  pub last : Bool
  pub sequence : ℕ
  pub last_event_at : Option ℕ

pub record Level : Type 0 where
  pub last : ℕ
  pub sequence : ℕ
  pub last_event_at : Option ℕ

pub record EventStates : Type 0 where
  pub high : Option Flag
  pub score : Option Level
  pub corroboration : Option Level
  pub ready : Option Flag
  pub seen : Option (List ℕ)

abbrev pub new_flag : Bool → Flag
new_flag b = record { last = b; sequence = 0; last_event_at = none }

abbrev pub new_level : ℕ → Level
new_level n = record { last = n; sequence = 0; last_event_at = none }

-- _sequence, and the time of the event.
abbrev pub crossed : ℕ → Flag → Flag
crossed now f = record f { sequence = suc f.sequence; last_event_at = some now }

-- What one evaluation knows: the condition, and whether it may cross.
pub record Look : Type 0 where
  pub condition : Bool
  pub recent : Bool
  pub admitted : Bool
  pub enabled : Bool

-- if admitted or not recent: state.last_boolean_value = condition
abbrev pub settle : Look → Flag → Flag
settle look f = if look.admitted || not look.recent then record f { last = look.condition } else f

-- A rising edge with authority: the new state, and the sequence number of the event.
abbrev pub edge : ℕ → Look → Flag → Flag × Option ℕ
edge now look f =
    if look.condition && not f.last && (look.recent && look.admitted) && look.enabled
    then (settle look (crossed now f), some (suc f.sequence))
    else (settle look f, none)

-- The state HIGH_ATTENTION.
unfoldable pub high_edge : ℕ → Look → Option Flag → Flag × Option ℕ
high_edge now look none =
    if not look.recent
    then (new_flag look.condition, none)
    else if not look.admitted
    then (new_flag false, none)
    else if look.condition && look.enabled
    then (crossed now (new_flag look.condition), some 1)
    else (new_flag look.condition, none)
high_edge now look (some f) = edge now look f

-- The state PROMOTION_READY.
unfoldable pub ready_edge : ℕ → Look → Option Flag → Flag × Option ℕ
ready_edge now look none = edge now look (new_flag false)
ready_edge now look (some f) = edge now look f

-- The state SCORE_INCREASE: `may` is whether the candidate is active and the event enabled.
unfoldable pub score_edge : ℕ → ℕ → Bool → Bool → ℕ → Option Level → Level × Option ℕ
score_edge now increase may effective score none = (new_level score, none)
score_edge now increase may effective score (some l) =
    if may && leb (l.last + increase) score
    then (if effective
        then (
          record { last = score; sequence = suc l.sequence; last_event_at = some now },
          some (suc l.sequence),
        )
        else (record l { last = score }, none))
    else if ltb score l.last
    then (record l { last = score }, none)
    else (l, none)

-- The state INDEPENDENT_CORROBORATION; the event's number is the count of groups.
unfoldable pub corroboration_edge : ℕ → Bool → ℕ → Option Level → Level × Option ℕ
corroboration_edge now may groups none = (new_level groups, none)
corroboration_edge now may groups (some l) =
    if may && ltb l.last groups && ltb 0 l.last
    then (record l { last = groups; last_event_at = some now }, some groups)
    else (record l { last = groups }, none)

abbrev pub is_promotion_ready : CandidatePromotionSettings → ℕ → Facts → Bool
is_promotion_ready settings now c =
    c.is_active_now
    && leb settings.minimum_attention_score c.attention_score
    && (not settings.required_topic_match || is_some c.primary_topic_id)
    && leb 1 c.independent_source_group_count
    && is_recent now settings.maximum_candidate_age_hours c.first_observed_at

abbrev pub is_high : CrossingSettings → Facts → Bool
is_high settings c =
    c.is_active_now
    && leb settings.minimum_attention_score c.attention_score
    && (not settings.required_topic_match || is_some c.primary_topic_id)
    && leb settings.required_independent_group_count c.independent_source_group_count

-- Titles, texts and severities of events.
pub record CrossingTexts : Type 0 where
  pub shorten : String → String
  pub title : NotificationEventType → Facts → String
  pub body : NotificationEventType → Facts → String
  pub reason : NotificationEventType → Facts → String
  pub severity : NotificationEventType → Facts → NotificationSeverity

module _ (texts : CrossingTexts) (settings : CrossingSettings)
    (promotion_settings : CandidatePromotionSettings) (now : ℕ) where
  abbrev pub crossing_event : NotificationEventType → String → ℕ → Facts → ℕ → Event
  crossing_event event_type prefix threshold c number = record {
    event_type = event_type;
    severity = texts.severity event_type c;
    title = texts.title event_type c;
    body = texts.body event_type c;
    reason = texts.reason event_type c;
    dedup_key = record { prefix = prefix; subject = c.id; threshold = threshold; number = number };
    event_at = none;
    candidate_id = some c.id;
    story_id = none;
    topic_id = c.primary_topic_id;
    source_suggestion_id = none;
    provider_run_id = none;
    source_id = none;
    muted = settings.is_muted event_type c.primary_topic_id;
    aggregate_existing = false;
  }

  abbrev pub emit_number : NotificationEventType → String → ℕ → Facts → Option ℕ → Outbox → Outbox
  emit_number event_type prefix threshold c none outbox = outbox
  emit_number event_type prefix threshold c (some number) outbox =
      (emit texts.shorten now (crossing_event event_type prefix threshold c number) outbox).1

  abbrev pub look_at : Facts → Option (List ℕ) → Bool → Bool → Look
  look_at c seen condition enabled = record {
    condition = condition;
    recent = leb settings.activation_at c.latest_observed_at;
    admitted = candidate_transition_has_admitted_material seen c.rows;
    enabled = enabled;
  }

  -- One round of the loop over candidates; `seen` in the states is what was read before it.
  unfoldable pub candidate_events : Facts → EventStates → Outbox → EventStates × Outbox
  candidate_events c states outbox =
      let high = look_at c states.seen (is_high settings c) settings.high_score_enabled in
      let ready =
        look_at c states.seen (is_promotion_ready promotion_settings now c)
          settings.promotion_ready_enabled in
      let effective = high.recent && high.admitted in
      let (high', high_number) = high_edge now high states.high in
      let (score', score_number) =
        score_edge now settings.minimum_score_increase
          (c.is_active_now && settings.score_increase_enabled) effective c.attention_score
          states.score in
      let (groups', groups_number) =
        corroboration_edge now (effective && c.is_active_now && settings.corroboration_enabled)
          c.independent_source_group_count states.corroboration in
      let (ready', ready_number) = ready_edge now ready states.ready in
      let out1 =
        emit_number high_attention "high" settings.minimum_attention_score c high_number outbox in
      let out2 = emit_number score_increase "score" 0 c score_number out1 in
      let out3 = emit_number independent_corroboration "corroboration" 0 c groups_number out2 in
      let out4 = emit_number promotion_ready "promotion-ready" 0 c ready_number out3 in
      (
        record {
          high = some high';
          score = some score';
          corroboration = some groups';
          ready = some ready';
          seen = some (sorted (map (λ row. row.0.id) c.rows));
        },
        out4,
      )
