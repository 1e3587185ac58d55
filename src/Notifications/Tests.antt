-- ===== src/Notifications/Tests.antt =====
-- Concrete runs of semi_intel/notifications/delivery.py.
use semiconductor_intelligen.Prelude.{
  ℕ, String, ◌≡◌, refl, Bool, true, false, not, ◌||◌, Option, none, some, List, [], ◌∷◌, map, arith,
  is_some, length, filter, find, update_first, sort_by,
}
use semiconductor_intelligen.Candidates.Promotion.{CandidatePromotionSettings}
use semiconductor_intelligen.Signals.Admission.{after, candidate_transition_has_admitted_material}
use semiconductor_intelligen.Notifications.Crossings.{
  Facts, CrossingSettings, EventStates, CrossingTexts, high_edge, ready_edge, score_edge,
  corroboration_edge, crossing_event, candidate_events,
}
use semiconductor_intelligen.Notifications.Crossings.Edges.{
  authorised, high_run, rising, count_from, high_run-rising, candidate_events-unauthorised,
}
use semiconductor_intelligen.Notifications.Crossings.Reset.{
  reset_activation, first_key, reset-swallows,
}
use semiconductor_intelligen.Signals.Watermark.{
  NotificationEventType, high_attention, promotion_ready,
}
use semiconductor_intelligen.Notifications.Emission.{
  Notification, Event, Outbox, notable, has_key, new_notification, emit,
}
use semiconductor_intelligen.Notifications.Emission.Unique.{IsUnique, emit-IsUnique}
use semiconductor_intelligen.Notifications.Emission.Handled.{
  Archive, is_expendable, cleanup_retention, NoOrphan, cleanup_retention-exact,
}
use semiconductor_intelligen.Notifications.Incidents.{
  ProviderRunStatus, ProviderRun, ProviderSettings, Tables, RunGroup, Wording, ok, run_failed,
  is_open, consecutive, run_back, failure_event, group_event, provider_events,
}
use semiconductor_intelligen.Notifications.Incidents.Opening.{
  IsSingle, first_failed, group_event-IsSingle, provider_events-IsSingle, group_event-opens,
}
use semiconductor_intelligen.Notifications.Incidents.Recovery.{group_event_again}
use semiconductor_intelligen.Notifications.Incidents.Silence.{passes, has_open, passes-silent}
use semiconductor_intelligen.Operations.Clock.{Zone}
use semiconductor_intelligen.Notifications.Attempt.{
  NotificationSettings, Target, NotificationDeliveryAttempt, DeliveryAdapter, Db, deferred, pending,
  raised,
}
use semiconductor_intelligen.Notifications.Delivery.{attempts_of, deliver}
use semiconductor_intelligen.Notifications.Delivery.Branches.{deliver-exhausted}
use semiconductor_intelligen.Notifications.Delivery.Bounds.{
  Request, IsBounded, deliveries, deliveries-IsBounded,
}

abbrev utc : Zone
utc = record { to_local = λ t. t; to_utc = λ t. t }

abbrev keep : Option String → Option String
keep error = error

-- Quiet hours are off: they start when they end.
abbrev settings : NotificationSettings
settings = record {
  external_delivery_enabled = true;
  windows_desktop_notifications_enabled = true;
  timezone = utc;
  quiet_hours_start = 0;
  quiet_hours_end_at = 0;
  maximum_immediate_per_hour = 5;
  maximum_delivery_attempts = 2;
}

-- A webhook that fails for a time.
abbrev failing : DeliveryAdapter
failing = record { name = "webhook"; channel = "webhook"; deliver = λ text key. raised "timeout" }

abbrev notice : Target
notice = record { is_digest = false; id = 1; body = "N2 yield"; delivery_state = pending }

abbrev request_at : ℕ → Request
request_at now = record { target = notice; adapter = failing; now = now; delivery_text = none }

-- An attempt that quiet hours put off.
abbrev put_off : ℕ → NotificationDeliveryAttempt
put_off number = record {
  is_digest = false;
  target_id = 1;
  channel = "webhook";
  adapter_name = "webhook";
  attempt_number = number;
  status = deferred;
  attempted_at = 100;
  completed_at = 100;
  retry_after = some 200;
  error_summary = some "quiet hours";
  external_message_id = none;
}

abbrev put_off_twice : Db
put_off_twice = record { attempts = put_off 1 ∷ put_off 2 ∷ []; calls = [] }

deliveries-IsBounded_example : IsBounded keep settings false 1 "webhook" (
    deliveries keep settings
      (request_at 100 ∷ request_at 200 ∷ request_at 9000000000 ∷ [])
      (record { attempts = []; calls = [] }))
deliveries-IsBounded_example =
    deliveries-IsBounded keep settings false 1 "webhook"
      (request_at 100 ∷ request_at 200 ∷ request_at 9000000000 ∷ []) (omega arith)

deliver-exhausted_example :
    ((deliver keep settings failing 900 notice none put_off_twice).1 ≡ notice)
    × ((deliver keep settings failing 900 notice none put_off_twice).2 ≡ put_off_twice)
unfolding attempts_of sort_by
deliver-exhausted_example =
    deliver-exhausted keep settings failing 900 notice none put_off_twice (omega arith)
      (omega arith)

abbrev wording : Wording
wording = record {
  safe_error = λ e. e;
  shorten = λ t. t;
  failure_title = λ g. g.provider;
  recovery_title = λ g. g.provider;
  failure_body = λ n. "runs failed";
  recovery_reason = λ n. "recovered";
}

abbrev provider_settings : Bool → ProviderSettings
provider_settings recovery = record {
  activation_at = 0;
  provider_health_enabled = true;
  provider_recovery_enabled = recovery;
  provider_failure_threshold = 2;
  failure_muted = false;
  recovery_muted = false;
}

abbrev run_at : ℕ → ProviderRunStatus → ProviderRun
run_at n status = record {
  id = n;
  provider = "x";
  source_id = some 1;
  started_at = n;
  finished_at = some n;
  status = status;
  error = none;
}

abbrev group_at : ProviderRun → List ProviderRun → RunGroup
group_at latest earlier = record {
  provider = "x";
  source_id = some 1;
  latest = latest;
  earlier = earlier;
}

abbrev empty_outbox : Outbox
empty_outbox = record { notifications = []; next_id = 1; created = []; updated = [] }

abbrev empty_tables : Tables
empty_tables = record { incidents = []; next_incident_id = 1; outbox = empty_outbox }

-- Two failures open an incident, and the success after them resolves it.
abbrev failed_twice : RunGroup
failed_twice = group_at (run_at 2 run_failed) (run_at 1 run_failed ∷ [])

abbrev then_ok : RunGroup
then_ok = group_at (run_at 3 ok) (run_at 2 run_failed ∷ run_at 1 run_failed ∷ [])

abbrev evaluate : Bool → ℕ → RunGroup → Tables → Tables
evaluate recovery = group_event wording (λ s. false) (provider_settings recovery)

abbrev opened_tables : Tables
opened_tables = evaluate true 10 failed_twice empty_tables

abbrev times : Tables → List (ℕ × Option ℕ)
times tables = map (λ i. (i.opened_at, i.resolved_at)) tables.incidents

opened-once :
    (times opened_tables ≡ (1, none) ∷ [])
    × (opened_tables.outbox.created ≡ 1 ∷ [])
    × (times (evaluate true 11 then_ok opened_tables) ≡ (1, some 3) ∷ [])
    × ((evaluate false 11 then_ok opened_tables).outbox.created ≡ 1 ∷ [])
unfolding group_event consecutive run_back emit update_first
opened-once = (refl, refl, refl, refl)

empty-IsSingle : IsSingle empty_tables
empty-IsSingle p s = omega arith

provider_events-IsSingle_example : IsSingle (
    provider_events wording
      (λ s. false)
      (provider_settings true)
      10
      (run_at 1 run_failed ∷ run_at 2 run_failed ∷ run_at 3 ok ∷ [])
      empty_tables)
provider_events-IsSingle_example =
    provider_events-IsSingle wording (λ s. false) (provider_settings true) 10
      (run_at 1 run_failed ∷ run_at 2 run_failed ∷ run_at 3 ok ∷ []) empty_tables empty-IsSingle

group_event-opens_example :
    is_some (find (is_open "x" (some 1)) opened_tables.incidents)
    ≡ (false || first_failed 2 (run_at 2 run_failed ∷ run_at 1 run_failed ∷ []))
group_event-opens_example =
    group_event-opens wording (λ s. false) (provider_settings true) 10 failed_twice empty_tables
      refl

group_event_again_example : evaluate true 20 failed_twice opened_tables ≡ opened_tables
group_event_again_example =
    group_event_again wording (λ s. false) (provider_settings true) 10 20 failed_twice empty_tables
      empty-IsSingle

opened-is_open :
    has_open wording (λ s. false) (provider_settings false) "x" (some 1) opened_tables ≡ true
unfolding group_event consecutive run_back emit
opened-is_open = refl

opened-IsSingle : IsSingle opened_tables
opened-IsSingle =
    group_event-IsSingle wording (λ s. false) (provider_settings true) 10 failed_twice empty_tables
      empty-IsSingle

passes-silent_example :
    ((passes wording
        (λ s. false)
        (provider_settings false)
        ((11, then_ok) ∷ [])
        opened_tables).outbox.created
      ≡ opened_tables.outbox.created)
    × (has_open wording
          (λ s. false)
          (provider_settings false)
          "x"
          (some 1)
          (passes wording (λ s. false) (provider_settings false) ((11, then_ok) ∷ []) opened_tables)
        ≡ true)
passes-silent_example =
    passes-silent wording (λ s. false) (provider_settings false) "x" (some 1) ((11, then_ok) ∷ [])
      opened_tables refl ((refl, refl), tt) opened-is_open

abbrev failure : Event
failure = failure_event wording (λ s. false) (provider_settings true) 10 failed_twice 2 1

emit-IsUnique_example : IsUnique (emit (λ t. t) 10 failure empty_outbox).1
emit-IsUnique_example = emit-IsUnique (λ t. t) 10 failure empty_outbox (λ key. omega arith)

-- Notification 1 is old and read, and 2 is old and not handled.
abbrev archive : Archive
archive = record {
  notifications =
      (record (new_notification (λ t. t) 5 1 failure) { read_at = some 6 })
      ∷ new_notification (λ t. t) 5 2 failure
      ∷ [];
  attempts = [];
}

cleanup_retention-exact_example :
    let (count, after) = cleanup_retention 86400000009 1 archive in
    (after.notifications ≡ filter (λ n. not (is_expendable 9 n)) archive.notifications)
    × (count ≡ length (filter (is_expendable 9) archive.notifications))
    × NoOrphan after
cleanup_retention-exact_example =
    cleanup_retention-exact 86400000009 1 archive (refl, (refl, tt)) tt

abbrev texts : CrossingTexts
texts = record {
  shorten = λ t. t;
  title = λ e c. "title";
  body = λ e c. "body";
  reason = λ e c. "reason";
  severity = λ e c. notable;
}

abbrev crossing_settings : ℕ → CrossingSettings
crossing_settings activation = record {
  activation_at = activation;
  minimum_attention_score = 5;
  minimum_score_increase = 2;
  required_independent_group_count = 1;
  required_topic_match = false;
  high_score_enabled = true;
  score_increase_enabled = true;
  corroboration_enabled = true;
  promotion_ready_enabled = true;
  is_muted = λ e t. false;
}

abbrev ready_settings : CandidatePromotionSettings
ready_settings = record {
  automatic_promotion_enabled = true;
  minimum_attention_score = 5;
  required_topic_match = false;
  maximum_candidate_age_hours = 72;
  hourly_promotion_budget = 1;
}

abbrev facts : ℕ → ℕ → Facts
facts score observed = record {
  id = 7;
  is_active_now = true;
  latest_observed_at = observed;
  first_observed_at = some 0;
  attention_score = score;
  primary_topic_id = none;
  independent_source_group_count = 1;
  rows = [];
}

abbrev no_states : EventStates
no_states = record { high = none; score = none; corroboration = none; ready = none; seen = none }

-- A candidate that is high at its first evaluation is announced twice: high, and ready.
abbrev announced : EventStates × Outbox
announced =
    candidate_events texts (crossing_settings 0) ready_settings 10 (facts 9 5) no_states
      empty_outbox

abbrev row_of : ℕ → NotificationEventType → String → ℕ → Notification
row_of id event_type prefix threshold =
    new_notification (λ t. t) 10 id
      (crossing_event texts (crossing_settings 0) ready_settings 10 event_type prefix threshold
        (facts 9 5) 1)

announced-both :
    announced.1.notifications
    ≡ row_of 1 high_attention "high" 5 ∷ row_of 2 promotion_ready "promotion-ready" 0 ∷ []
unfolding candidate_events high_edge ready_edge score_edge corroboration_edge emit
    candidate_transition_has_admitted_material
announced-both = refl

high_run-rising_example :
    high_run 10 (map authorised (true ∷ true ∷ false ∷ true ∷ [])) none
    ≡ count_from 1 (rising false (true ∷ true ∷ false ∷ true ∷ []))
high_run-rising_example = high_run-rising 10 (true ∷ true ∷ false ∷ true ∷ [])

candidate_events-unauthorised_example :
    (candidate_events texts
      (crossing_settings 6)
      ready_settings
      10
      (facts 9 5)
      no_states
      empty_outbox).1
    ≡ empty_outbox
candidate_events-unauthorised_example =
    candidate_events-unauthorised texts (crossing_settings 6) ready_settings 10 (facts 9 5)
      no_states empty_outbox refl

announced-high :
    find (has_key (first_key "high" 5 (facts 9 30))) announced.1.notifications
    ≡ some (row_of 1 high_attention "high" 5)
announced-high = rw announced-both refl

announced-ready :
    find (has_key (first_key "promotion-ready" 0 (facts 9 30))) announced.1.notifications
    ≡ some (row_of 2 promotion_ready "promotion-ready" 0)
announced-ready = rw announced-both refl

-- After the reset at 20 the candidate is observed again at 30.
reset-swallows_example :
    let (settings', states) = reset_activation 20 (crossing_settings 0) in
    (candidate_events texts settings' ready_settings 40 (facts 9 30) states announced.1).1
    ≡ announced.1
reset-swallows_example =
    reset-swallows texts (crossing_settings 0) ready_settings 20 40 (facts 9 30) announced.1
      (row_of 1 high_attention "high" 5) (row_of 2 promotion_ready "promotion-ready" 0)
      announced-high announced-ready
