-- ===== src/Notifications/Incidents.antt =====
-- semi_intel/notifications/service.py: _provider_events, over the tables `provider_runs`,
-- `provider_incidents` and `notifications`. `incident_key`, a text of the provider, the source and
-- the opening time, is left out.
pub mod Opening
pub mod Recovery
pub mod Silence
use semiconductor_intelligen.Prelude.{
  ℕ, zero, suc, String, Bool, true, false, not, ◌&&◌, ◌||◌, Option, none, some, List, [], ◌∷◌, ◌++◌,
  str_eq, ltb, leb, ◌==◌, if◌then◌else◌, is_some, any, filter, find, update_first, sort_by,
}
use semiconductor_intelligen.Signals.Watermark.{provider_failure, provider_recovery}
use semiconductor_intelligen.Notifications.Emission.{
  DedupKey, Notification, Event, Outbox, informational, important, or_else, emit,
}

pub data ProviderRunStatus : Type 0 where
  running ok partial run_failed : ProviderRunStatus

pub record ProviderRun : Type 0 where
  pub id : ℕ
  pub provider : String
  pub source_id : Option ℕ
  pub started_at : ℕ
  pub finished_at : Option ℕ
  pub status : ProviderRunStatus
  pub error : Option String

pub record ProviderIncident : Type 0 where
  pub id : ℕ
  pub provider : String
  pub source_id : Option ℕ
  pub opened_at : ℕ
  pub latest_failure_at : ℕ
  pub resolved_at : Option ℕ
  pub consecutive_failures : ℕ
  pub latest_provider_run_id : Option ℕ
  pub latest_error_summary : Option String
  pub failure_notification_id : Option ℕ
  pub recovery_notification_id : Option ℕ

-- The columns of `notification_settings` that are read here.
pub record ProviderSettings : Type 0 where
  pub activation_at : ℕ
  pub provider_health_enabled : Bool
  pub provider_recovery_enabled : Bool
  pub provider_failure_threshold : ℕ
  pub failure_muted : Bool
  pub recovery_muted : Bool

pub record Tables : Type 0 where
  pub incidents : List ProviderIncident
  pub next_incident_id : ℕ
  pub outbox : Outbox

-- A provider with a source, the latest run, and the earlier ones, newest first.
pub record RunGroup : Type 0 where
  pub provider : String
  pub source_id : Option ℕ
  pub latest : ProviderRun
  pub earlier : List ProviderRun

abbrev pub same_source : Option ℕ → Option ℕ → Bool
same_source none none = true
same_source none (some b) = false
same_source (some a) none = false
same_source (some a) (some b) = a == b

abbrev pub is_ok : ProviderRunStatus → Bool
is_ok ok = true
is_ok _ = false

abbrev pub is_failure : ProviderRun → Bool
is_failure run = elim run.status [ run_failed ↦ true | _ ↦ false ]

-- The query for the open incident.
abbrev pub is_open : String → Option ℕ → ProviderIncident → Bool
is_open provider source_id incident =
    str_eq incident.provider provider
    && same_source incident.source_id source_id
    && not (is_some incident.resolved_at)

-- The loop over reversed(provider_runs).
unfoldable pub consecutive : List ProviderRun → ℕ
consecutive [] = 0
consecutive (run ∷ runs) = let rest = consecutive runs in if is_failure run then suc rest else 0

-- provider_runs[-n], for newest first; [-0] is the oldest.
unfoldable pub run_back : ℕ → ProviderRun → List ProviderRun → ProviderRun
run_back n run [] = run
run_back zero run (next ∷ runs) = run_back zero next runs
run_back (suc zero) run (next ∷ runs) = run
run_back (suc (suc n)) run (next ∷ runs) = run_back (suc n) next runs

abbrev pub ended : ProviderRun → ℕ
ended run = or_else run.finished_at run.started_at

abbrev pub incident_key_of : String → ℕ → DedupKey
incident_key_of prefix id = record { prefix = prefix; subject = id; threshold = 0; number = 0 }

-- grouped[(run.provider, run.source_id)].append(run)
insert_run : ProviderRun → List RunGroup → List RunGroup
insert_run run [] =
    record { provider = run.provider; source_id = run.source_id; latest = run; earlier = [] } ∷ []
insert_run run (group ∷ groups) =
    let rest = insert_run run groups in
    if str_eq group.provider run.provider && same_source group.source_id run.source_id
    then record group { latest = run; earlier = group.latest ∷ group.earlier } ∷ groups
    else group ∷ rest

unfoldable pub grouped : List ProviderRun → List RunGroup → List RunGroup
unfolding insert_run
grouped [] groups = groups
grouped (run ∷ runs) groups = grouped runs (insert_run run groups)

-- `safe_error`, the slice of titles, and the texts that name a source or a number.
pub record Wording : Type 0 where
  pub safe_error : Option String → Option String
  pub shorten : String → String
  pub failure_title : RunGroup → String
  pub recovery_title : RunGroup → String
  pub failure_body : ℕ → String
  pub recovery_reason : ℕ → String

-- `now` is the time of the call, and `delivery_blocked` is source_delivery_blocked of a source.
module _ (w : Wording) (delivery_blocked : Option ℕ → Bool) (settings : ProviderSettings)
    (now : ℕ) where
  abbrev pub recovery_event : RunGroup → ProviderIncident → Event
  recovery_event group incident = record {
    event_type = provider_recovery;
    severity = informational;
    title = w.recovery_title group;
    body = "A successful collection run ended the active provider incident.";
    reason = w.recovery_reason incident.consecutive_failures;
    dedup_key = incident_key_of "provider-recovery" incident.id;
    event_at = some (ended group.latest);
    candidate_id = none;
    story_id = none;
    topic_id = none;
    source_suggestion_id = none;
    provider_run_id = some group.latest.id;
    source_id = group.source_id;
    muted = settings.recovery_muted || delivery_blocked group.source_id;
    aggregate_existing = false;
  }

  abbrev pub failure_event : RunGroup → ℕ → ℕ → Event
  failure_event group count id = record {
    event_type = provider_failure;
    severity = important;
    title = w.failure_title group;
    body = w.failure_body count;
    reason = or_else (w.safe_error group.latest.error) "Provider failure threshold reached.";
    dedup_key = incident_key_of "provider-failure" id;
    event_at = some (ended group.latest);
    candidate_id = none;
    story_id = none;
    topic_id = none;
    source_suggestion_id = none;
    provider_run_id = some group.latest.id;
    source_id = group.source_id;
    muted = settings.failure_muted || delivery_blocked group.source_id;
    aggregate_existing = false;
  }

  abbrev pub resolved : RunGroup → ℕ → ProviderIncident → ProviderIncident
  resolved group notification_id incident = record incident {
    resolved_at = some (ended group.latest);
    recovery_notification_id = some notification_id;
  }

  -- The latest run succeeded.
  abbrev pub recover : RunGroup → Option ProviderIncident → Tables → Tables
  recover group none tables = tables
  recover group (some incident) tables =
      let (id, outbox) = emit w.shorten now (recovery_event group incident) tables.outbox in
      let closed : Tables = record tables {
        incidents =
            update_first (is_open group.provider group.source_id) (resolved group id)
              tables.incidents;
        outbox = outbox;
      } in
      if ltb incident.opened_at group.latest.started_at && settings.provider_recovery_enabled
      then closed
      else tables

  abbrev pub new_incident : RunGroup → ℕ → ℕ → ℕ → ProviderIncident
  new_incident group count id notification_id = record {
    id = id;
    provider = group.provider;
    source_id = group.source_id;
    opened_at = (run_back count group.latest group.earlier).started_at;
    latest_failure_at = ended group.latest;
    resolved_at = none;
    consecutive_failures = count;
    latest_provider_run_id = some group.latest.id;
    latest_error_summary = w.safe_error group.latest.error;
    failure_notification_id = some notification_id;
    recovery_notification_id = none;
  }

  abbrev pub continued : RunGroup → ℕ → ProviderIncident → ProviderIncident
  continued group count incident = record incident {
    latest_failure_at = ended group.latest;
    consecutive_failures = count;
    latest_provider_run_id = some group.latest.id;
    latest_error_summary = w.safe_error group.latest.error;
  }

  abbrev pub occurred : RunGroup → ℕ → Notification → Notification
  occurred group count notification = record notification {
    occurrence_count = suc notification.occurrence_count;
    latest_occurrence_at = ended group.latest;
    body = w.failure_body count;
    reason = or_else (w.safe_error group.latest.error) notification.reason;
    provider_run_id = some group.latest.id;
  }

  -- The notification of the incident, if it is still there, has one more occurrence.
  abbrev pub renotify : RunGroup → ℕ → Option ℕ → Outbox → Outbox
  renotify group count none outbox = outbox
  renotify group count (some id) outbox =
      let there = any (λ notification. notification.id == id) outbox.notifications in
      let updated : Outbox = record outbox {
        notifications =
            update_first (λ notification. notification.id == id) (occurred group count)
              outbox.notifications;
        updated = outbox.updated ++ id ∷ [];
      } in
      if there then updated else outbox

  -- The latest run did not succeed, and the threshold is reached.
  abbrev pub fail : RunGroup → ℕ → Option ProviderIncident → Tables → Tables
  fail group count none tables =
      let id = tables.next_incident_id in
      let (notification_id, outbox) =
        emit w.shorten now (failure_event group count id) tables.outbox in
      record {
        incidents = tables.incidents ++ new_incident group count id notification_id ∷ [];
        next_incident_id = suc id;
        outbox = outbox;
      }
  fail group count (some incident) tables =
      let next : Tables = record tables {
        incidents =
            update_first (is_open group.provider group.source_id) (continued group count)
              tables.incidents;
        outbox = renotify group count incident.failure_notification_id tables.outbox;
      } in
      if same_source incident.latest_provider_run_id (some group.latest.id) then tables else next

  -- One round of the loop over groups.
  unfoldable pub group_event : RunGroup → Tables → Tables
  group_event group tables =
      let count = consecutive (group.latest ∷ group.earlier) in
      let incident = find (is_open group.provider group.source_id) tables.incidents in
      if is_ok group.latest.status
      then recover group incident tables
      else if ltb count settings.provider_failure_threshold
      then tables
      else fail group count incident tables

  unfoldable pub group_events : List RunGroup → Tables → Tables
  group_events [] tables = tables
  group_events (group ∷ groups) tables = group_events groups (group_event group tables)

  unfoldable pub provider_events : List ProviderRun → Tables → Tables
  provider_events runs tables =
      let recent = filter (λ run. leb settings.activation_at run.started_at) runs in
      let after = group_events (grouped (sort_by (λ run. run.started_at) recent) []) tables in
      if settings.provider_health_enabled then after else tables
