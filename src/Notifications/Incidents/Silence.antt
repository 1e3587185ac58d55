-- ===== src/Notifications/Incidents/Silence.antt =====
-- semi_intel/notifications/service.py: what happens where provider_recovery_enabled is false.
use semiconductor_intelligen.Prelude.{
  ℕ, String, ◌≡◌, refl, sym, ap, ◌∙◌, subst, inl, inr, Bool, true, false, Option, none, some, List,
  [], ◌∷◌, arith, ltb, ◌==◌, Bool-cases, Option-cases, is_some, if_rule, any, find, All,
}
use semiconductor_intelligen.Notifications.Emission.{Outbox}
use semiconductor_intelligen.Notifications.Incidents.{
  ProviderIncident, ProviderSettings, Tables, RunGroup, Wording, same_source, is_ok, is_open,
  consecutive, renotify, fail, group_event,
}
use semiconductor_intelligen.Notifications.Incidents.Opening.{fail-is_open}
use semiconductor_intelligen.Notifications.Incidents.Recovery.{
  group_event-not_due, group_event-short, group_event-fail,
}

module _ (w : Wording) (delivery_blocked : Option ℕ → Bool) (settings : ProviderSettings) where
  -- Evaluations of groups, one after the other, each at its time.
  abbrev pub passes : List (ℕ × RunGroup) → Tables → Tables
  passes [] tables = tables
  passes ((now, group) ∷ rest) tables =
      passes rest (group_event w delivery_blocked settings now group tables)

  abbrev pub has_open : String → Option ℕ → Tables → Bool
  has_open provider source_id tables = is_some (find (is_open provider source_id) tables.incidents)

  -- No notification is created, and the incident stays open.
  abbrev Quiet : RunGroup → Tables → Tables → Type 0
  Quiet group tables after =
      (after.outbox.created ≡ tables.outbox.created)
      × (has_open group.provider group.source_id after ≡ true)

  renotify-created :
      (now : ℕ) (group : RunGroup) (count : ℕ) (id : Option ℕ) (outbox : Outbox)
      → (renotify w delivery_blocked settings now group count id outbox).created ≡ outbox.created
  renotify-created now group count none outbox = refl
  renotify-created now group count (some id) outbox =
      if_rule (λ (o : Outbox). o.created ≡ outbox.created)
        (any (λ notification. notification.id == id) outbox.notifications) refl refl

  fail-created :
      (now : ℕ) (group : RunGroup) (count : ℕ) (incident : ProviderIncident) (tables : Tables)
      → (fail w delivery_blocked settings now group count (some incident) tables).outbox.created
        ≡ tables.outbox.created
  fail-created now group count incident tables =
      if_rule (λ (t : Tables). t.outbox.created ≡ tables.outbox.created)
        (same_source incident.latest_provider_run_id (some group.latest.id)) refl
        (renotify-created now group count incident.failure_notification_id tables.outbox)

  Quiet-step :
      (now : ℕ) (group : RunGroup) (tables : Tables) (incident : ProviderIncident)
      → settings.provider_recovery_enabled ≡ false
      → find (is_open group.provider group.source_id) tables.incidents ≡ some incident
      → Quiet group tables (group_event w delivery_blocked settings now group tables)
  Quiet-step now group tables incident disabled found =
      let count = consecutive (group.latest ∷ group.earlier) in
      let stays : Quiet group tables tables = (refl, rw found refl) in
      elim (Bool-cases (is_ok group.latest.status)) [
        | inl t ↦
            subst (Quiet group tables)
              (sym (
                group_event-not_due w delivery_blocked settings now group tables incident found t
                  (ground arith)))
              stays
        | inr t ↦ elim (Bool-cases (ltb count settings.provider_failure_threshold)) [
          | inl u ↦
              subst (Quiet group tables)
                (sym (group_event-short w delivery_blocked settings now group tables t u)) stays
          | inr u ↦
              subst (Quiet group tables)
                (sym (
                  group_event-fail w delivery_blocked settings now group tables t u
                  ∙ ap (λ o. fail w delivery_blocked settings now group count o tables) found))
                (
                  fail-created now group count incident tables,
                  fail-is_open w delivery_blocked settings now group count (some incident) tables
                      found,
                )
        ]
      ]

  -- Where recovery is disabled, an open incident of a provider and a source stays open, and no
  -- notification is created, whatever runs of theirs are evaluated later, successful ones included.
  pub passes-silent :
      (provider : String) (source_id : Option ℕ) (rounds : List (ℕ × RunGroup)) (tables : Tables)
      → settings.provider_recovery_enabled ≡ false
      → All (λ r. (r.1.provider ≡ provider) × (r.1.source_id ≡ source_id)) rounds
      → has_open provider source_id tables ≡ true
      → ((passes rounds tables).outbox.created ≡ tables.outbox.created)
        × (has_open provider source_id (passes rounds tables) ≡ true)
  passes-silent provider source_id [] tables disabled same there = (refl, there)
  passes-silent provider source_id ((now, group) ∷ rest) tables disabled same there =
      let (is_provider, is_source) = same.0 in
      let here : has_open group.provider group.source_id tables ≡ true =
        rw is_provider (rw is_source there) in
      elim (Option-cases (find (is_open group.provider group.source_id) tables.incidents)) [
        | inl absent ↦ let wrong = rw absent at here in cc
        | inr (incident, found) ↦
            let (created, open_after) = Quiet-step now group tables incident disabled found in
            let after = group_event w delivery_blocked settings now group tables in
            let still : has_open provider source_id after ≡ true =
              subst (λ p. has_open p source_id after ≡ true) is_provider
                (subst (λ s. has_open group.provider s after ≡ true) is_source open_after) in
            let (more, ends) = passes-silent provider source_id rest after disabled same.1 still in
            (more ∙ created, ends)
      ]
