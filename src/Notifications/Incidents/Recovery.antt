-- ===== src/Notifications/Incidents/Recovery.antt =====
-- semi_intel/notifications/service.py: how incidents end, and when runs are evaluated again.
use semiconductor_intelligen.Prelude.{
  ℕ, ◌≤◌, ◌<◌, ◌≡◌, refl, sym, ap, ◌∙◌, inl, inr, Bool, true, false, ◌&&◌, Option, none, some, List,
  [], ◌∷◌, arith, eq_refl, ltb, Bool-cases, if-true, if-false, if_rule, length, filter, find,
  update_first, find-update_first, find-append,
}
use semiconductor_intelligen.Prelude.Rows.{find-none-of_length}
use semiconductor_intelligen.Notifications.Emission.{emit}
use semiconductor_intelligen.Notifications.Incidents.{
  ProviderIncident, ProviderSettings, Tables, RunGroup, Wording, same_source, is_ok, is_open,
  consecutive, recovery_event, failure_event, resolved, new_incident, continued, fail, group_event,
}
use semiconductor_intelligen.Notifications.Incidents.Opening.{IsSingle, same_source_refl}

-- Where one row at most passes, and the first one that passes is changed not to, none is left.
find-none-update_first {ℓ} :
    {A : Type ℓ} (p : A → Bool) (f : A → A)
    → ((x : A) → p (f x) ≡ false)
    → (xs : List A) → length (filter p xs) ≤ 1
    → find p (update_first p f xs) ≡ none
unfolding update_first
find-none-update_first p f off [] h = refl
find-none-update_first p f off (x ∷ xs) h = elim (Bool-cases (p x)) [
  | inl t ↦
      let rest : length (filter p xs) ≡ 0 = ground arith in
      let gone = find-none-of_length p xs rest in ground (arith, off x, gone)
  | inr t ↦ let rest = find-none-update_first p f off xs (rw t at h) in ground arith
]

module _ (w : Wording) (delivery_blocked : Option ℕ → Bool) (settings : ProviderSettings)
    (now : ℕ) where
  -- With recovery enabled, and where at most one incident is open for each provider and source, a
  -- success that started after the open incident was opened leaves none open.
  pub group_event-resolves :
      (group : RunGroup) (tables : Tables) (incident : ProviderIncident)
      → IsSingle tables
      → settings.provider_recovery_enabled ≡ true
      → is_ok group.latest.status ≡ true
      → find (is_open group.provider group.source_id) tables.incidents ≡ some incident
      → incident.opened_at < group.latest.started_at
      → find
          (is_open group.provider group.source_id)
          (group_event w delivery_blocked settings now group tables).incidents
        ≡ none
  unfolding group_event
  group_event-resolves group tables incident single enabled success found later =
      let id =
        (emit w.shorten now (recovery_event w delivery_blocked settings now group incident)
          tables.outbox).0 in
      let closed =
        find-none-update_first (is_open group.provider group.source_id)
          (resolved w delivery_blocked settings now group id) (λ i. ground arith) tables.incidents
          (single group.provider group.source_id) in
      let branch : (ltb incident.opened_at group.latest.started_at
            && settings.provider_recovery_enabled)
          ≡ true =
        ground arith in
      rw success (rw found (rw branch closed))

  group_event-no_incident :
      (group : RunGroup) (tables : Tables)
      → is_ok group.latest.status ≡ true
      → find (is_open group.provider group.source_id) tables.incidents ≡ none
      → group_event w delivery_blocked settings now group tables ≡ tables
  unfolding group_event
  group_event-no_incident group tables success found = rw success (rw found refl)

  pub group_event-not_due :
      (group : RunGroup) (tables : Tables) (incident : ProviderIncident)
      → find (is_open group.provider group.source_id) tables.incidents ≡ some incident
      → is_ok group.latest.status ≡ true
      → (ltb incident.opened_at group.latest.started_at && settings.provider_recovery_enabled)
        ≡ false
      → group_event w delivery_blocked settings now group tables ≡ tables
  unfolding group_event
  group_event-not_due group tables incident found success branch =
      rw success (rw found (if-false _ _ tables branch))

  pub group_event-short :
      (group : RunGroup) (tables : Tables)
      → is_ok group.latest.status ≡ false
      → ltb (consecutive (group.latest ∷ group.earlier)) settings.provider_failure_threshold ≡ true
      → group_event w delivery_blocked settings now group tables ≡ tables
  unfolding group_event
  group_event-short group tables failing short = rw failing (if-true _ tables _ short)

  -- The latest run has already been counted.
  group_event-counted :
      (group : RunGroup) (tables : Tables) (incident : ProviderIncident)
      → find (is_open group.provider group.source_id) tables.incidents ≡ some incident
      → is_ok group.latest.status ≡ false
      → same_source incident.latest_provider_run_id (some group.latest.id) ≡ true
      → group_event w delivery_blocked settings now group tables ≡ tables
  unfolding group_event
  group_event-counted group tables incident found failing counted = rw failing (
      if_rule (λ (t : Tables). t ≡ tables)
        (ltb (consecutive (group.latest ∷ group.earlier)) settings.provider_failure_threshold) refl
        (rw found (if-true _ tables _ counted)))

  pub group_event-fail :
      (group : RunGroup) (tables : Tables)
      → is_ok group.latest.status ≡ false
      → ltb (consecutive (group.latest ∷ group.earlier)) settings.provider_failure_threshold ≡ false
      → group_event w delivery_blocked settings now group tables
        ≡ fail w delivery_blocked settings now group
            (consecutive (group.latest ∷ group.earlier))
            (find (is_open group.provider group.source_id) tables.incidents)
            tables
  unfolding group_event
  group_event-fail group tables failing enough = rw failing (if-false _ tables _ enough)

  -- What a failing latest run leaves: an open incident that counts it.
  fail-counted :
      (group : RunGroup) (count : ℕ) (incident : Option ProviderIncident) (tables : Tables)
      → find (is_open group.provider group.source_id) tables.incidents ≡ incident
      → let after = fail w delivery_blocked settings now group count incident tables in
        (left : ProviderIncident) × (find (is_open group.provider group.source_id) after.incidents
          ≡ some left)
        × (same_source left.latest_provider_run_id (some group.latest.id) ≡ true)
  fail-counted group count none tables e =
      let event =
        failure_event w delivery_blocked settings now group count tables.next_incident_id in
      let row =
        new_incident w delivery_blocked settings now group count tables.next_incident_id
          (emit w.shorten now event tables.outbox).0 in
      let opened : is_open group.provider group.source_id row ≡ true =
        ground (arith, eq_refl group.provider, same_source_refl group.source_id) in
      (
        row,
        find-append (is_open group.provider group.source_id) tables.incidents row e
            ∙ if-true (is_open group.provider group.source_id row) (some row) none opened,
        same_source_refl (some group.latest.id),
      )
  fail-counted group count (some incident) tables e =
      elim (Bool-cases (same_source incident.latest_provider_run_id (some group.latest.id))) [
        | inl t ↦ rw t (incident, e, t)
        | inr t ↦
            let kept =
              find-update_first (is_open group.provider group.source_id)
                (continued w delivery_blocked settings now group count) (λ i. refl)
                tables.incidents in
            rw t (
              continued w delivery_blocked settings now group count incident,
              rw e at kept,
              same_source_refl (some group.latest.id),
            )
      ]

module _ (w : Wording) (delivery_blocked : Option ℕ → Bool) (settings : ProviderSettings)
    (now later : ℕ) where
  abbrev first : RunGroup → Tables → Tables
  first = group_event w delivery_blocked settings now

  abbrev second : RunGroup → Tables → Tables
  second = group_event w delivery_blocked settings later

  unchanged :
      (group : RunGroup) (tables : Tables)
      → first group tables ≡ tables
      → second group tables ≡ tables
      → second group (first group tables) ≡ first group tables
  unchanged group tables e h = ap (second group) e ∙ h ∙ sym e

  again_ok :
      (group : RunGroup) (tables : Tables) (incident : Option ProviderIncident)
      → find (is_open group.provider group.source_id) tables.incidents ≡ incident
      → is_ok group.latest.status ≡ true
      → IsSingle tables
      → second group (first group tables) ≡ first group tables
  again_ok group tables none found success single =
      unchanged group tables
        (group_event-no_incident w delivery_blocked settings now group tables success found)
        (group_event-no_incident w delivery_blocked settings later group tables success found)
  again_ok group tables (some incident) found success single =
      elim (Bool-cases
        (ltb incident.opened_at group.latest.started_at && settings.provider_recovery_enabled)) [
          | inl t ↦
              group_event-no_incident w delivery_blocked settings later group (first group tables)
                success
                (group_event-resolves w delivery_blocked settings now group tables incident single
                  (ground arith) success found (ground arith))
          | inr t ↦
              unchanged group tables
                (group_event-not_due w delivery_blocked settings now group tables incident found
                  success t)
                (group_event-not_due w delivery_blocked settings later group tables incident found
                  success t)
        ]

  again_failing :
      (group : RunGroup) (tables : Tables)
      → is_ok group.latest.status ≡ false
      → second group (first group tables) ≡ first group tables
  again_failing group tables failing =
      let count = consecutive (group.latest ∷ group.earlier) in
      let incident = find (is_open group.provider group.source_id) tables.incidents in
      elim (Bool-cases (ltb count settings.provider_failure_threshold)) [
        | inl t ↦
            unchanged group tables
              (group_event-short w delivery_blocked settings now group tables failing t)
              (group_event-short w delivery_blocked settings later group tables failing t)
        | inr t ↦
            let (left, found, counted) =
              fail-counted w delivery_blocked settings now group count incident tables refl in
            let after = fail w delivery_blocked settings now group count incident tables in
            let here = group_event-fail w delivery_blocked settings now group tables failing t in
            ap (second group) here
            ∙ group_event-counted w delivery_blocked settings later group after left found failing
                counted
            ∙ sym here
      ]

  -- Where at most one incident is open for each provider and source, evaluating a group again at
  -- any time changes nothing while its runs are the same.
  pub group_event_again :
      (group : RunGroup) (tables : Tables)
      → IsSingle tables
      → group_event w delivery_blocked settings later group
          (group_event w delivery_blocked settings now group tables)
        ≡ group_event w delivery_blocked settings now group tables
  group_event_again group tables single = elim (Bool-cases (is_ok group.latest.status)) [
    | inl t ↦
        again_ok group tables (find (is_open group.provider group.source_id) tables.incidents) refl
          t single
    | inr t ↦ again_failing group tables t
  ]
