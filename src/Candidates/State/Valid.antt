-- ===== src/Candidates/State/Valid.antt =====
-- The times that a state goes with.
use semiconductor_intelligen.Prelude.{
  ℕ, String, ◌≡◌, refl, sym, Bool, true, false, none, List, [], ◌∷◌, if◌then◌else◌, is_some,
}
use semiconductor_intelligen.Candidates.State.{
  SignalCandidateState, SignalCandidate, active, dismissed, is_snoozed, mark_seen, mark_unseen,
  dismiss, restore, snooze, is_waking, wake, is_expired, expire,
}

-- What one candidate goes through.
pub data Change : Type 0 where
  seen : ℕ → Change
  unseen : Change
  dismissing : String → ℕ → Change
  restoring : Change
  snoozing : ℕ → Change
  waking : ℕ → Change
  marking : ℕ → ℕ → Change

unfoldable pub change : Change → SignalCandidate → SignalCandidate
unfolding mark_seen mark_unseen dismiss restore snooze
change (seen now) c = mark_seen now c
change unseen c = mark_unseen c
change (dismissing reason now) c = dismiss reason now c
change restoring c = restore c
change (snoozing until) c = snooze until c
change (waking now) c = if is_waking now c then wake c else c
change (marking staleness_days now) c = if is_expired staleness_days now c then expire c else c

unfoldable pub changes : List Change → SignalCandidate → SignalCandidate
changes [] c = c
changes (x ∷ xs) c = changes xs (change x c)

abbrev pub is_dismissed : SignalCandidateState → Bool
is_dismissed dismissed = true
is_dismissed _ = false

-- A snoozed candidate has a time to wake, a dismissed one has the time and the reason.
pub record IsValid (c : SignalCandidate) : Type 0 where
  pub wakes : is_snoozed c.state ≡ true → is_some c.snoozed_until ≡ true
  pub dismissed_then : is_dismissed c.state ≡ true → is_some c.dismissed_at ≡ true
  pub dismissed_why : is_dismissed c.state ≡ true → is_some c.dismissed_reason ≡ true

IsValid-if :
    (b : Bool) (c d : SignalCandidate) → IsValid c → IsValid d → IsValid (if b then c else d)
IsValid-if true c d hc hd = hc
IsValid-if false c d hc hd = hd

change-IsValid : (x : Change) (c : SignalCandidate) → IsValid c → IsValid (change x c)
unfolding change
change-IsValid (seen now) c h = record {
  wakes = h.wakes;
  dismissed_then = h.dismissed_then;
  dismissed_why = h.dismissed_why;
}
change-IsValid unseen c h = record {
  wakes = h.wakes;
  dismissed_then = h.dismissed_then;
  dismissed_why = h.dismissed_why;
}
change-IsValid (dismissing reason now) c h = record {
  wakes = λ e. cc;
  dismissed_then = λ e. refl;
  dismissed_why = λ e. refl;
}
change-IsValid restoring c h = record {
  wakes = λ e. cc;
  dismissed_then = λ e. cc;
  dismissed_why = λ e. cc;
}
change-IsValid (snoozing until) c h = record {
  wakes = λ e. refl;
  dismissed_then = λ e. cc;
  dismissed_why = λ e. cc;
}
change-IsValid (waking now) c h =
    IsValid-if (is_waking now c) (wake c) c
      (record { wakes = λ e. cc; dismissed_then = λ e. cc; dismissed_why = λ e. cc }) h
change-IsValid (marking staleness_days now) c h =
    IsValid-if (is_expired staleness_days now c) (expire c) c
      (record { wakes = λ e. cc; dismissed_then = λ e. cc; dismissed_why = λ e. cc }) h

-- Every sequence of changes keeps a candidate valid: a snoozed one has a time to wake, and a
-- dismissed one has the time and the reason.
pub changes-IsValid : (xs : List Change) (c : SignalCandidate) → IsValid c → IsValid (changes xs c)
unfolding changes
changes-IsValid [] c h = h
changes-IsValid (x ∷ xs) c h = changes-IsValid xs (change x c) (change-IsValid x c h)

-- Restoring undoes a dismissal of an active candidate that carries no times.
restore-dismiss :
    (reason : String) (now : ℕ) (c : SignalCandidate)
    → c.state ≡ active
    → c.dismissed_at ≡ none
    → c.dismissed_reason ≡ none
    → c.snoozed_until ≡ none
    → restore (dismiss reason now c) ≡ c
unfolding restore dismiss
restore-dismiss reason now c s a r u = λ i. record c {
  state = sym s i;
  dismissed_at = sym a i;
  dismissed_reason = sym r i;
  snoozed_until = sym u i;
}
