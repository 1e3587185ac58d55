-- ===== src/Notifications/Emission/Handled.antt =====
-- semi_intel/notifications/service.py: set_read, dismiss, restore and cleanup_retention.
use semiconductor_intelligen.Prelude.{
  ℕ, suc, ◌-◌, ◌*◌, ◌≡◌, refl, sym, ap, ◌∙◌, subst, ◌⊎◌, inl, inr, Bool, true, false, not, ◌&&◌,
  ◌||◌, none, some, List, [], ◌∷◌, map, Memᴰ, arith, ltb, ◌==◌, if◌then◌else◌, Bool-cases, is_some,
  if-false, length, any, filter, All, contains, update_first,
}
use semiconductor_intelligen.Prelude.Rows.{
  All-filter, All-mp2, All-of_Memᴰ, Memᴰ-filter, any-Memᴰ, any-row, filter-Memᴰ, Distinct,
  List-cases,
}
use mathlib.Core.List.Memᴰ
use semiconductor_intelligen.Notifications.Attempt.{NotificationDeliveryAttempt}
use semiconductor_intelligen.Notifications.Emission.{Notification}

-- set_read, for one id.
abbrev read_one : ℕ → Bool → ℕ → List Notification → List Notification
read_one now read id =
    update_first (λ n. n.id == id) (λ n. record n { read_at = if read then some now else none })

unfoldable set_read : ℕ → Bool → List ℕ → List Notification → List Notification
set_read now read [] notifications = notifications
set_read now read (id ∷ ids) notifications =
    set_read now read ids (read_one now read id notifications)

unfoldable dismiss : ℕ → Notification → Notification
dismiss now n = record n { dismissed_at = some now }

unfoldable restore : Notification → Notification
restore n = record n { dismissed_at = none }

-- A notification that is older than the cutoff and was read or dismissed.
abbrev pub is_expendable : ℕ → Notification → Bool
is_expendable cutoff n = ltb n.created_at cutoff && (is_some n.read_at || is_some n.dismissed_at)

pub record Archive : Type 0 where
  pub notifications : List Notification
  pub attempts : List NotificationDeliveryAttempt

-- `notification_id in old_ids`; an attempt for a digest has no notification id.
abbrev pub is_attempt_of : List ℕ → NotificationDeliveryAttempt → Bool
is_attempt_of ids attempt = not attempt.is_digest && contains ids attempt.target_id

unfoldable delete_expendable : ℕ → Archive → ℕ × Archive
delete_expendable cutoff archive =
    let old_ids = map (λ n. n.id) (filter (is_expendable cutoff) archive.notifications) in
    let kept : Archive = record {
      notifications = filter (λ n. not (contains old_ids n.id)) archive.notifications;
      attempts = filter (λ a. not (is_attempt_of old_ids a)) archive.attempts;
    } in
    (length old_ids, if length old_ids == 0 then archive else kept)

abbrev pub retention_cutoff : ℕ → ℕ → ℕ
retention_cutoff now retention_days = now - retention_days * 86400000000

unfoldable pub cleanup_retention : ℕ → ℕ → Archive → ℕ × Archive
unfolding delete_expendable
cleanup_retention now retention_days archive =
    delete_expendable (retention_cutoff now retention_days) archive

-- Row ids are distinct.
abbrev pub DistinctIds : List Notification → Type 0
DistinctIds notifications = Distinct (map (λ n. n.id) notifications)

abbrev pub HasTarget : List Notification → NotificationDeliveryAttempt → Type 0
HasTarget notifications a =
    (a.is_digest ≡ true) ⊎ (any (λ n. n.id == a.target_id) notifications ≡ true)

-- Every attempt at a notification has one.
abbrev pub NoOrphan : Archive → Type 0
NoOrphan archive = All (HasTarget archive.notifications) archive.attempts

abbrev ids_of : List Notification → List ℕ
ids_of = map (λ n. n.id)

contains-filter :
    (p : Notification → Bool) (ns : List Notification) (id : ℕ)
    → contains (ids_of ns) id ≡ false
    → contains (ids_of (filter p ns)) id ≡ false
contains-filter p [] id h = refl
contains-filter p (n ∷ ns) id h = ground (arith, contains-filter p ns id)

contains-Memᴰ :
    (ns : List Notification) (n : Notification) → Memᴰ n ns → contains (ids_of ns) n.id ≡ true
contains-Memᴰ ns n m =
    any-Memᴰ (λ (i : ℕ). i == n.id) (ids_of ns) (ground arith)
      (Memᴰ.map (λ (k : Notification). k.id) m)

-- Among rows with distinct ids, the ids of the rows that pass single them out.
contains-passing :
    (p : Notification → Bool) (ns : List Notification) (n : Notification)
    → DistinctIds ns
    → Memᴰ n ns
    → contains (ids_of (filter p ns)) n.id ≡ p n
contains-passing p [] n d m = absurd (Memᴰ.not-nil m)
contains-passing p (k ∷ ns) n d (Memᴰ.head e) =
    let rest = contains-filter p ns k.id d.0 in
    subst (λ (x : Notification). contains (ids_of (filter p (k ∷ ns))) x.id ≡ p x) (sym e)
      (ground (arith, rest))
contains-passing p (k ∷ ns) n d (Memᴰ.tail m) =
    let rest = contains-passing p ns n d.1 m in
    let there = contains-Memᴰ ns n m in
    let apart : (k.id == n.id) ≡ false = elim (Bool-cases (k.id == n.id)) [
      | inl t ↦ let same : k.id ≡ n.id = ground arith in let wrong = rw same at d.0 in cc
      | inr t ↦ t
    ] in
    ground (arith, rest, apart)

filter-same :
    (p q : Notification → Bool) (ns : List Notification)
    → All (λ n. p n ≡ q n) ns
    → filter p ns ≡ filter q ns
filter-same p q [] h = refl
filter-same p q (n ∷ ns) h = ground (arith, h.0, filter-same p q ns h.1)

filter-every {ℓ} :
    {A : Type ℓ} (p : A → Bool) (xs : List A) → ((x : A) → p x ≡ true) → filter p xs ≡ xs
filter-every p [] h = refl
filter-every p (x ∷ xs) h = ground (arith, h x, filter-every p xs h)

abbrev old_ids_of : ℕ → Archive → List ℕ
old_ids_of cutoff archive = ids_of (filter (is_expendable cutoff) archive.notifications)

abbrev kept_of : List ℕ → Archive → Archive
kept_of old_ids archive = record {
  notifications = filter (λ n. not (contains old_ids n.id)) archive.notifications;
  attempts = filter (λ a. not (is_attempt_of old_ids a)) archive.attempts;
}

kept_of-nothing : (archive : Archive) → kept_of [] archive ≡ archive
kept_of-nothing archive =
    let ns = filter-every (λ (n : Notification). true) archive.notifications (λ n. refl) in
    let tries =
      filter-every (λ (a : NotificationDeliveryAttempt). not (is_attempt_of [] a)) archive.attempts
        (λ a. ground arith) in
    λ i. record { notifications = ns i; attempts = tries i }

-- The early return is the deletion of nothing.
cleanup-kept_of :
    (cutoff : ℕ) (archive : Archive)
    → (delete_expendable cutoff archive).1 ≡ kept_of (old_ids_of cutoff archive) archive
unfolding delete_expendable
cleanup-kept_of cutoff archive = elim (List-cases (old_ids_of cutoff archive)) [
  | inl e ↦ rw e (sym (kept_of-nothing archive))
  | inr (id, ids, e) ↦
      rw e (if-false (suc (length ids) == 0) archive (kept_of (id ∷ ids) archive) (ground arith))
]

has_target :
    (old_ids : List ℕ) (ns : List Notification) (a : NotificationDeliveryAttempt)
    → HasTarget ns a
    → not (is_attempt_of old_ids a) ≡ true
    → HasTarget (filter (λ n. not (contains old_ids n.id)) ns) a
has_target old_ids ns a (inl t) e = inl t
has_target old_ids ns a (inr t) e = elim (Bool-cases a.is_digest) [
  | inl digest ↦ inl digest
  | inr plain ↦
      let (n, m, same) = any-row (λ (n : Notification). n.id == a.target_id) ns t in
      let id : n.id ≡ a.target_id = ground arith in
      let young : contains old_ids a.target_id ≡ false = ground arith in
      let kept : not (contains old_ids n.id) ≡ true = rw id (rw young refl) in
      inr (
        any-Memᴰ (λ (n : Notification). n.id == a.target_id)
          (filter (λ n. not (contains old_ids n.id)) ns) same
          (Memᴰ-filter (λ (n : Notification). not (contains old_ids n.id)) ns kept m))
]

NoOrphan-kept_of :
    (old_ids : List ℕ) (archive : Archive) → NoOrphan archive → NoOrphan (kept_of old_ids archive)
NoOrphan-kept_of old_ids archive h =
    All-mp2 (filter (λ a. not (is_attempt_of old_ids a)) archive.attempts)
      (λ a o (m, e). has_target old_ids archive.notifications a o e)
      (All-filter _ (λ a. not (is_attempt_of old_ids a)) archive.attempts h)
      (filter-Memᴰ (λ (a : NotificationDeliveryAttempt). not (is_attempt_of old_ids a))
        archive.attempts)

length-map_ids : (ns : List Notification) → length (ids_of ns) ≡ length ns
length-map_ids [] = refl
length-map_ids (n ∷ ns) = ap suc (length-map_ids ns)

delete_expendable-exact :
    (cutoff : ℕ) (archive : Archive)
    → DistinctIds archive.notifications
    → NoOrphan archive
    → let (count, after) = delete_expendable cutoff archive in
      (after.notifications ≡ filter (λ n. not (is_expendable cutoff n)) archive.notifications)
      × (count ≡ length (filter (is_expendable cutoff) archive.notifications))
      × NoOrphan after
unfolding delete_expendable
delete_expendable-exact cutoff archive d h =
    let old_ids = old_ids_of cutoff archive in
    let kept = cleanup-kept_of cutoff archive in
    let same =
      filter-same (λ n. not (contains old_ids n.id)) (λ n. not (is_expendable cutoff n))
        archive.notifications
        (All-of_Memᴰ _ archive.notifications
          (λ n m. ap not (contains-passing (is_expendable cutoff) archive.notifications n d m))) in
    (
      ap (λ (a : Archive). a.notifications) kept ∙ same,
      length-map_ids (filter (is_expendable cutoff) archive.notifications),
      subst NoOrphan (sym kept) (NoOrphan-kept_of old_ids archive h),
    )

-- Where row ids are distinct and every attempt at a notification has one, a retention run deletes
-- exactly the notifications that are older than the days of retention and were read or dismissed,
-- returns their number, and leaves every attempt at a notification with one.
pub cleanup_retention-exact :
    (now retention_days : ℕ) (archive : Archive)
    → DistinctIds archive.notifications
    → NoOrphan archive
    → let (count, after) = cleanup_retention now retention_days archive in
      let cutoff = retention_cutoff now retention_days in
      (after.notifications ≡ filter (λ n. not (is_expendable cutoff n)) archive.notifications)
      × (count ≡ length (filter (is_expendable cutoff) archive.notifications))
      × NoOrphan after
unfolding cleanup_retention
cleanup_retention-exact now retention_days =
    delete_expendable-exact (retention_cutoff now retention_days)
