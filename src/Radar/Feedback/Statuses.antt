-- ===== src/Radar/Feedback/Statuses.antt =====
-- The life of a rule suggestion.
use semiconductor_intelligen.Prelude.{
  String, ◌≡◌, refl, ◌⊎◌, inl, inr, Bool, true, not, List, [], ◌∷◌, arith, str_eq, eq_iff,
  if◌then◌else◌,
}
use semiconductor_intelligen.Prelude.Dict.{get}
use semiconductor_intelligen.Radar.Feedback.{
  Result, illegal_transition, ok, error, includes, validate_rule_status, legal_status_transitions,
  allowed_of, then_check, validate_status_transition,
}

-- A request for a new status: an error leaves the suggestion as it is.
abbrev accept : String → Result String → String
accept current (ok status) = status
accept current (error e) = current

-- The statuses that a suggestion has had, latest first, as requests are made of it.
unfoldable pub requests : List String → List String → List String
requests [] history = history
requests (new ∷ news) [] = []
requests (new ∷ news) (current ∷ history) =
    requests news (accept current (validate_status_transition current new) ∷ current ∷ history)

accept-rejected :
    (new : String) → accept "REJECTED" (validate_status_transition "REJECTED" new) ≡ "REJECTED"
unfolding validate_status_transition get validate_rule_status
accept-rejected new = ground (arith, eq_iff new "REJECTED")

requests-rejected_from :
    (news history : List String)
    → (rest : List String) × (requests news ("REJECTED" ∷ history) ≡ "REJECTED" ∷ rest)
unfolding requests
requests-rejected_from [] history = (history, refl)
requests-rejected_from (new ∷ news) history =
    rw (accept-rejected new) (requests-rejected_from news ("REJECTED" ∷ history))

allowed-implemented :
    (current : String)
    → includes (allowed_of (get current legal_status_transitions)) "IMPLEMENTED" ≡ true
    → current ≡ "ACCEPTED"
unfolding get
allowed-implemented current h = ground (arith, eq_iff "ACCEPTED" current)

accept-then_check :
    (current new : String) (valid valid' : Result String) (allowed : Bool)
    → accept current (
        then_check valid valid' (
          if str_eq new current
          then ok new
          else if not allowed
          then error (illegal_transition current new)
          else ok new))
      ≡ "IMPLEMENTED"
    → (current ≡ "IMPLEMENTED") ⊎ ((new ≡ "IMPLEMENTED") × (allowed ≡ true))
accept-then_check current new (error e) valid' allowed h = inl h
accept-then_check current new (ok v) (error e) allowed h = inl h
accept-then_check current new (ok v) (ok v') allowed h = ground (arith, eq_iff new current)

accept-implemented :
    (current new : String)
    → accept current (validate_status_transition current new) ≡ "IMPLEMENTED"
    → (current ≡ "IMPLEMENTED") ⊎ (current ≡ "ACCEPTED")
unfolding validate_status_transition
accept-implemented current new h =
    let allowed = includes (allowed_of (get current legal_status_transitions)) new in
    elim (accept-then_check current new (validate_rule_status new) (validate_rule_status current)
      allowed h) [ inl e ↦ inl e | inr (e, a) ↦ inr (allowed-implemented current (rw e at a)) ]

-- Implementation has been preceded by acceptance.
IsSound : List String → Type 0
IsSound history = includes history "IMPLEMENTED" ≡ true → includes history "ACCEPTED" ≡ true

IsSound-cons :
    (next current : String) (history : List String)
    → IsSound (current ∷ history)
    → (next ≡ "IMPLEMENTED" → (current ≡ "IMPLEMENTED") ⊎ (current ≡ "ACCEPTED"))
    → IsSound (next ∷ current ∷ history)
unfolding IsSound
IsSound-cons next current history s from h = ground (
  arith,
  eq_iff next "IMPLEMENTED",
  eq_iff current "IMPLEMENTED",
  eq_iff current "ACCEPTED",
  s,
  from,
)

accept-IsSound :
    (new current : String) (history : List String)
    → IsSound (current ∷ history)
    → IsSound (accept current (validate_status_transition current new) ∷ current ∷ history)
unfolding IsSound
accept-IsSound new current history s h =
    IsSound-cons _ current history s (accept-implemented current new) h

requests-IsSound :
    (news : List String) (current : String) (history : List String)
    → IsSound (current ∷ history)
    → IsSound (requests news (current ∷ history))
unfolding requests
requests-IsSound [] current history s = s
requests-IsSound (new ∷ news) current history s =
    requests-IsSound news _ _ (accept-IsSound new current history s)

-- Whatever statuses are asked of a proposed rule suggestion, it has been implemented only if it
-- has been accepted.
pub requests-accepted_before_implemented :
    (news : List String)
    → includes (requests news ("PROPOSED" ∷ [])) "IMPLEMENTED" ≡ true
    → includes (requests news ("PROPOSED" ∷ [])) "ACCEPTED" ≡ true
unfolding IsSound
requests-accepted_before_implemented news = requests-IsSound news "PROPOSED" [] (λ e. ground arith)
