-- ===== src/Notifications/Emission/Unique.antt =====
-- semi_intel/notifications/service.py: a deduplication key has one notification.
use semiconductor_intelligen.Prelude.{
  ℕ, ◌≤◌, String, ◌≡◌, refl, sym, ap, ◌∙◌, subst, inl, inr, Bool, true, false, ◌&&◌, Option, none,
  some, List, [], ◌∷◌, arith, eq_iff, eq_refl, ltb, Bool-cases, if-true, length, filter, find,
  update_first, find-update_first, find-append,
}
use semiconductor_intelligen.Prelude.Rows.{length-filter-none, length-filter_snoc}
use semiconductor_intelligen.Notifications.Emission.{
  DedupKey, Notification, Event, Outbox, key_eq, or_else, has_key, new_notification, aggregated,
  emit_found, emit,
}

-- The rows with a key, before and after a change of one row that keeps its key.
pub length-filter-update_first {ℓ} :
    {A : Type ℓ} (p q : A → Bool) (f : A → A)
    → ((x : A) → p (f x) ≡ p x)
    → (xs : List A) → length (filter p (update_first q f xs)) ≡ length (filter p xs)
unfolding update_first
length-filter-update_first p q f keep [] = refl
length-filter-update_first p q f keep (x ∷ xs) =
    ground (arith, keep x, length-filter-update_first p q f keep xs)

-- At most one notification for each key.
abbrev pub IsUnique : Outbox → Type 0
IsUnique outbox = (key : DedupKey) → length (filter (has_key key) outbox.notifications) ≤ 1

key_eq-true : (a b : DedupKey) → key_eq a b ≡ true → a ≡ b
key_eq-true a b e =
    let same = (eq_iff a.prefix b.prefix).0 (ground arith) in
    let subject : a.subject ≡ b.subject = ground arith in
    let threshold : a.threshold ≡ b.threshold = ground arith in
    let number : a.number ≡ b.number = ground arith in
    λ i. record { prefix = same i; subject = subject i; threshold = threshold i; number = number i }

key_eq_refl : (a : DedupKey) → key_eq a a ≡ true
key_eq_refl a = ground (arith, eq_refl a.prefix)

module _ (shorten : String → String) (now : ℕ) where
  emit_found-IsUnique :
      (event : Event) (found : Option Notification) (outbox : Outbox)
      → find (has_key event.dedup_key) outbox.notifications ≡ found
      → IsUnique outbox
      → IsUnique (emit_found shorten now event found outbox).1
  emit_found-IsUnique event none outbox e h key =
      let row = new_notification shorten now outbox.next_id event in
      let more = length-filter_snoc (has_key key) outbox.notifications row in
      elim (Bool-cases (has_key key row)) [
        | inl t ↦
            let same = key_eq-true event.dedup_key key t in
            let absent : find (has_key key) outbox.notifications ≡ none =
              subst (λ k. find (has_key k) outbox.notifications ≡ none) same e in
            ground (arith, more, length-filter-none (has_key key) outbox.notifications absent)
        | inr t ↦ ground (arith, more, h key)
      ]
  emit_found-IsUnique event (some existing) outbox e h key =
      elim (Bool-cases (
        event.aggregate_existing
        && ltb existing.latest_occurrence_at (or_else event.event_at now))) [
          | inl t ↦
              let kept =
                length-filter-update_first (has_key key) (has_key event.dedup_key)
                  (aggregated shorten now event) (λ n. refl) outbox.notifications in
              rw t (omega (arith, kept, h key))
          | inr t ↦ rw t (h key)
        ]

  -- An emission keeps at most one notification for each deduplication key.
  pub emit-IsUnique :
      (event : Event) (outbox : Outbox)
      → IsUnique outbox
      → IsUnique (emit shorten now event outbox).1
  unfolding emit
  emit-IsUnique event outbox h =
      emit_found-IsUnique event (find (has_key event.dedup_key) outbox.notifications) outbox refl h

  -- What is found afterwards under the key.
  find-emitted :
      (event : Event) (found : Option Notification) (outbox : Outbox)
      → find (has_key event.dedup_key) outbox.notifications ≡ found
      → (row : Notification) × (find
            (has_key event.dedup_key)
            (emit_found shorten now event found outbox).1.notifications
          ≡ some row)
        × (row.id ≡ (emit_found shorten now event found outbox).0)
  find-emitted event none outbox e =
      let row = new_notification shorten now outbox.next_id event in
      (
        row,
        find-append (has_key event.dedup_key) outbox.notifications row e
            ∙ if-true (has_key event.dedup_key row) (some row) none (key_eq_refl event.dedup_key),
        refl,
      )
  find-emitted event (some existing) outbox e =
      elim (Bool-cases (
        event.aggregate_existing
        && ltb existing.latest_occurrence_at (or_else event.event_at now))) [
          | inl t ↦
              let moved =
                find-update_first (has_key event.dedup_key) (aggregated shorten now event)
                  (λ n. refl) outbox.notifications in
              rw t (aggregated shorten now event existing, rw e at moved, refl)
          | inr t ↦ rw t (existing, e, refl)
        ]

  pub emit-on_file :
      (event : Event) (outbox : Outbox) (row : Notification)
      → event.aggregate_existing ≡ false
      → find (has_key event.dedup_key) outbox.notifications ≡ some row
      → emit shorten now event outbox ≡ (row.id, outbox)
  unfolding emit
  emit-on_file event outbox row plain found = rw found (rw plain refl)

-- An event that does not aggregate, and whose key has been emitted, gives the notification that is on
-- file and changes nothing.
pub emit_again :
    (shorten : String → String) (now : ℕ) (event repeat : Event) (later : ℕ) (outbox : Outbox)
    → repeat.dedup_key ≡ event.dedup_key
    → repeat.aggregate_existing ≡ false
    → emit shorten later repeat (emit shorten now event outbox).1 ≡ emit shorten now event outbox
unfolding emit
emit_again shorten now event repeat later outbox same plain =
    let (row, found, id) =
      find-emitted shorten now event (find (has_key event.dedup_key) outbox.notifications) outbox
        refl in
    let after = (emit shorten now event outbox).1 in
    let there = subst (λ k. find (has_key k) after.notifications ≡ some row) (sym same) found in
    emit-on_file shorten later repeat after row plain there ∙ ap (λ i. (i, after)) id
