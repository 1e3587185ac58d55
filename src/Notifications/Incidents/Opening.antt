-- ===== src/Notifications/Incidents/Opening.antt =====
-- semi_intel/notifications/service.py: when incidents are open.
use semiconductor_intelligen.Prelude.{
  ℕ, zero, suc, ◌≤◌, String, ◌≡◌, refl, ap, ◌∙◌, subst, inl, inr, Bool, true, false, ◌&&◌, ◌||◌,
  Option, none, some, List, [], ◌∷◌, arith, eq_iff, eq_refl, ltb, leb, Bool-cases, is_some, if-true,
  if_rule, length, filter, find, update_first, find-update_first, find-append,
}
use semiconductor_intelligen.Prelude.Rows.{length-filter-none, length-filter_snoc}
use semiconductor_intelligen.Notifications.Emission.{emit}
use semiconductor_intelligen.Notifications.Incidents.{
  ProviderRun, ProviderIncident, ProviderSettings, Tables, RunGroup, Wording, same_source, is_ok,
  is_failure, is_open, consecutive, recovery_event, failure_event, resolved, recover, new_incident,
  continued, fail, group_event, group_events, provider_events,
}

-- At most one incident is open for a provider and a source.
abbrev pub IsSingle : Tables → Type 0
IsSingle tables =
    (provider : String) (source_id : Option ℕ)
    → length (filter (is_open provider source_id) tables.incidents) ≤ 1

-- The first runs of a list, as many as this, are there and failed.
abbrev pub first_failed : ℕ → List ProviderRun → Bool
first_failed zero runs = true
first_failed (suc n) [] = false
first_failed (suc n) (run ∷ runs) = is_failure run && first_failed n runs

pub consecutive-first_failed :
    (n : ℕ) (runs : List ProviderRun) → leb n (consecutive runs) ≡ first_failed n runs
unfolding consecutive
consecutive-first_failed zero runs = ground arith
consecutive-first_failed (suc n) [] = ground arith
consecutive-first_failed (suc n) (run ∷ runs) = elim (Bool-cases (is_failure run)) [
  | inl t ↦ let rest = consecutive-first_failed n runs in rw t (ground (arith, rest))
  | inr t ↦ rw t (ground arith)
]

same_source-true : (a b : Option ℕ) → same_source a b ≡ true → a ≡ b
same_source-true none none e = refl
same_source-true none (some b) e = cc
same_source-true (some a) none e = cc
same_source-true (some a) (some b) e = ground arith

pub same_source_refl : (a : Option ℕ) → same_source a a ≡ true
same_source_refl none = refl
same_source_refl (some a) = ground arith

-- A change after which fewer rows pass.
length-filter-update_first_le {ℓ} :
    {A : Type ℓ} (p q : A → Bool) (f : A → A)
    → ((x : A) → p (f x) ≡ true → p x ≡ true)
    → (xs : List A) → length (filter p (update_first q f xs)) ≤ length (filter p xs)
unfolding update_first
length-filter-update_first_le p q f keep [] = omega arith
length-filter-update_first_le p q f keep (x ∷ xs) =
    ground (arith, keep x, length-filter-update_first_le p q f keep xs)

module _ (w : Wording) (delivery_blocked : Option ℕ → Bool) (settings : ProviderSettings)
    (now : ℕ) where
  recover-IsSingle :
      (group : RunGroup) (incident : Option ProviderIncident) (tables : Tables)
      → IsSingle tables
      → IsSingle (recover w delivery_blocked settings now group incident tables)
  recover-IsSingle group none tables h p s = h p s
  recover-IsSingle group (some incident) tables h p s =
      elim (Bool-cases
        (ltb incident.opened_at group.latest.started_at && settings.provider_recovery_enabled)) [
          | inl t ↦
              let id =
                (emit w.shorten now (recovery_event w delivery_blocked settings now group incident)
                  tables.outbox).0 in
              let fewer =
                length-filter-update_first_le (is_open p s) (is_open group.provider group.source_id)
                  (resolved w delivery_blocked settings now group id) (λ i e. ground arith)
                  tables.incidents in
              rw t (omega (arith, fewer, h p s))
          | inr t ↦ rw t (h p s)
        ]

  fail-IsSingle :
      (group : RunGroup) (count : ℕ) (incident : Option ProviderIncident) (tables : Tables)
      → find (is_open group.provider group.source_id) tables.incidents ≡ incident
      → IsSingle tables
      → IsSingle (fail w delivery_blocked settings now group count incident tables)
  fail-IsSingle group count none tables e h p s =
      let row =
        new_incident w delivery_blocked settings now group count tables.next_incident_id
          (emit w.shorten now
            (failure_event w delivery_blocked settings now group count tables.next_incident_id)
            tables.outbox).0 in
      let more = length-filter_snoc (is_open p s) tables.incidents row in
      elim (Bool-cases (is_open p s row)) [
        | inl t ↦
            let provider : group.provider ≡ p = (eq_iff group.provider p).0 (ground arith) in
            let source : group.source_id ≡ s = same_source-true group.source_id s (ground arith) in
            let absent : find (is_open p s) tables.incidents ≡ none =
              subst (λ q. find (is_open q s) tables.incidents ≡ none) provider
                (subst (λ q. find (is_open group.provider q) tables.incidents ≡ none) source e) in
            ground (arith, more, length-filter-none (is_open p s) tables.incidents absent)
        | inr t ↦ ground (arith, more, h p s)
      ]
  fail-IsSingle group count (some incident) tables e h p s =
      elim (Bool-cases (same_source incident.latest_provider_run_id (some group.latest.id))) [
        | inl t ↦ rw t (h p s)
        | inr t ↦
            let fewer =
              length-filter-update_first_le (is_open p s) (is_open group.provider group.source_id)
                (continued w delivery_blocked settings now group count) (λ i e. e)
                tables.incidents in
            rw t (omega (arith, fewer, h p s))
      ]

  pub group_event-IsSingle :
      (group : RunGroup) (tables : Tables)
      → IsSingle tables
      → IsSingle (group_event w delivery_blocked settings now group tables)
  unfolding group_event
  group_event-IsSingle group tables h p s =
      let count = consecutive (group.latest ∷ group.earlier) in
      let incident = find (is_open group.provider group.source_id) tables.incidents in
      elim (Bool-cases (is_ok group.latest.status)) [
        | inl t ↦ rw t (recover-IsSingle group incident tables h p s)
        | inr t ↦ elim (Bool-cases (ltb count settings.provider_failure_threshold)) [
          | inl u ↦ rw t (rw u (h p s))
          | inr u ↦ rw t (rw u (fail-IsSingle group count incident tables refl h p s))
        ]
      ]

  group_events-IsSingle :
      (groups : List RunGroup) (tables : Tables)
      → IsSingle tables
      → IsSingle (group_events w delivery_blocked settings now groups tables)
  unfolding group_events
  group_events-IsSingle [] tables h = h
  group_events-IsSingle (group ∷ groups) tables h =
      group_events-IsSingle groups (group_event w delivery_blocked settings now group tables)
        (group_event-IsSingle group tables h)

  -- Evaluating the runs of providers keeps at most one open incident for each provider and source.
  pub provider_events-IsSingle :
      (runs : List ProviderRun) (tables : Tables)
      → IsSingle tables
      → IsSingle (provider_events w delivery_blocked settings now runs tables)
  unfolding provider_events
  provider_events-IsSingle runs tables h =
      if_rule IsSingle settings.provider_health_enabled (group_events-IsSingle _ tables h) h

  pub fail-is_open :
      (group : RunGroup) (count : ℕ) (incident : Option ProviderIncident) (tables : Tables)
      → find (is_open group.provider group.source_id) tables.incidents ≡ incident
      → is_some (
          find
            (is_open group.provider group.source_id)
            (fail w delivery_blocked settings now group count incident tables).incidents)
        ≡ true
  fail-is_open group count none tables e =
      let event =
        failure_event w delivery_blocked settings now group count tables.next_incident_id in
      let row =
        new_incident w delivery_blocked settings now group count tables.next_incident_id
          (emit w.shorten now event tables.outbox).0 in
      let opened : is_open group.provider group.source_id row ≡ true =
        ground (arith, eq_refl group.provider, same_source_refl group.source_id) in
      ap is_some (find-append (is_open group.provider group.source_id) tables.incidents row e)
      ∙ ap is_some (if-true (is_open group.provider group.source_id row) (some row) none opened)
  fail-is_open group count (some incident) tables e =
      let kept =
        find-update_first (is_open group.provider group.source_id)
          (continued w delivery_blocked settings now group count) (λ i. refl) tables.incidents in
      if_rule
        (λ (t : Tables). is_some (find (is_open group.provider group.source_id) t.incidents) ≡ true)
        (same_source incident.latest_provider_run_id (some group.latest.id)) (rw e refl)
        (rw kept (rw e refl))

  -- A group whose latest run did not succeed has an open incident afterwards exactly if it had one
  -- or its newest runs, as many as the threshold, failed.
  pub group_event-opens :
      (group : RunGroup) (tables : Tables)
      → is_ok group.latest.status ≡ false
      → let open_in =
          λ (t : Tables). is_some (find (is_open group.provider group.source_id) t.incidents) in
        open_in (group_event w delivery_blocked settings now group tables) ≡ (
          open_in tables
          || first_failed settings.provider_failure_threshold (group.latest ∷ group.earlier))
  unfolding group_event
  group_event-opens group tables e =
      let count = consecutive (group.latest ∷ group.earlier) in
      let opens =
        fail-is_open group count (find (is_open group.provider group.source_id) tables.incidents)
          tables refl in
      let reached =
        consecutive-first_failed settings.provider_failure_threshold
          (group.latest ∷ group.earlier) in
      elim (Bool-cases (ltb count settings.provider_failure_threshold)) [
        | inl t ↦
            let short : leb settings.provider_failure_threshold count ≡ false = ground arith in
            rw e (rw t (ground (arith, short, reached)))
        | inr t ↦
            let enough : leb settings.provider_failure_threshold count ≡ true = ground arith in
            rw e (rw t (ground (arith, enough, reached, opens)))
      ]
