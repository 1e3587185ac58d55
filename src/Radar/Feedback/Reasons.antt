-- ===== src/Radar/Feedback/Reasons.antt =====
-- Reason codes come out as a set.
use semiconductor_intelligen.Prelude.{
  String, ◌≡◌, refl, sym, ap, ◌∙◌, ◌↔◌, inl, inr, Bool, true, false, not, ◌&&◌, some, List, [], ◌∷◌,
  arith, str_eq, eq_iff, eq_refl, if◌then◌else◌, Bool-cases, filter, All,
}
use semiconductor_intelligen.Radar.Feedback.{
  Result, invalid_reason_code, ok, error, reason_codes, includes, also_seen, check_codes, in_order,
  normalize_reason_codes,
}

Known : List String → Type 0
Known codes = All (λ c. includes reason_codes c ≡ true) codes

check_codes-Known : (codes : List String) → Known codes → check_codes codes ≡ ok codes
unfolding check_codes Known
check_codes-Known [] h = refl
check_codes-Known (c ∷ codes) h = rw (h.0, check_codes-Known codes h.1) refl

also-ok :
    (c : String) (rest : Result (List String)) (seen : List String)
    → also_seen c rest ≡ ok seen
    → (tail : List String) × (rest ≡ ok tail) × (seen ≡ c ∷ tail)
also-ok c (ok tail) seen h = (tail, refl, ground arith)
also-ok c (error e) seen h = cc

checked-ok :
    (b : Bool) (c : String) (rest : Result (List String)) (seen : List String)
    → (if not b then error (invalid_reason_code c) else rest) ≡ ok seen
    → (b ≡ true) × (rest ≡ ok seen)
checked-ok true c rest seen h = (refl, h)
checked-ok false c rest seen h = cc

-- An accepted list was all known.
check_codes-ok :
    (codes seen : List String) → check_codes codes ≡ ok seen → (seen ≡ codes) × Known codes
unfolding check_codes Known
check_codes-ok [] seen h = (ground arith, tt)
check_codes-ok (c ∷ codes) seen h =
    let checked = checked-ok (includes reason_codes c) c (also_seen c (check_codes codes)) seen h in
    let parts = also-ok c (check_codes codes) seen checked.1 in
    let rest = check_codes-ok codes parts.0 parts.1 in
    (parts.2 ∙ ap (λ t. c ∷ t) rest.0, (checked.0, rest.1))

includes-eq : (xs : List String) (a b : String) → str_eq a b ≡ true → includes xs a ≡ includes xs b
includes-eq xs a b e = rw ((eq_iff a b).0 e) refl

-- A filter by a test that is a membership.
includes-filter :
    (seen xs : List String) (c : String)
    → includes (filter (includes seen) xs) c ≡ (includes xs c && includes seen c)
includes-filter seen [] c = refl
includes-filter seen (x ∷ xs) c = ground (arith, includes-filter seen xs c, includes-eq seen x c)

Known-includes :
    (codes : List String) (c : String)
    → Known codes
    → includes codes c ≡ true
    → includes reason_codes c ≡ true
unfolding Known
Known-includes [] c h m = cc
Known-includes (x ∷ codes) c h m = elim (Bool-cases (str_eq x c)) [
  | inl e ↦ sym (includes-eq reason_codes x c e) ∙ h.0
  | inr e ↦ Known-includes codes c h.1 (rw e at m)
]

filter-agrees :
    (p q : String → Bool) (xs : List String)
    → ((c : String) → p c ≡ q c)
    → filter p xs ≡ filter q xs
filter-agrees p q [] h = refl
filter-agrees p q (x ∷ xs) h = rw (h x, filter-agrees p q xs h) refl

includes-head : (x : String) (xs : List String) → includes (x ∷ xs) x ≡ true
includes-head x xs = rw (eq_refl x) refl

includes-tail :
    (x c : String) (xs : List String) → includes xs c ≡ true → includes (x ∷ xs) c ≡ true
includes-tail x c xs h = ground arith

Known-when :
    (xs : List String)
    → ((c : String) → includes xs c ≡ true → includes reason_codes c ≡ true)
    → Known xs
unfolding Known
Known-when [] h = tt
Known-when (x ∷ xs) h =
    (h x (includes-head x xs), Known-when xs (λ c m. h c (includes-tail x c xs m)))

and-left : (a b : Bool) → (a && b) ≡ true → a ≡ true
and-left true b h = refl
and-left false b h = h

and-known : (a b : Bool) → (b ≡ true → a ≡ true) → (a && b) ≡ b
and-known true b h = refl
and-known false true h = h refl
and-known false false h = refl

Known-filter : (seen : List String) → Known (filter (includes seen) reason_codes)
Known-filter seen = Known-when (filter (includes seen) reason_codes) (λ c m.
    and-left (includes reason_codes c) (includes seen c)
      (sym (includes-filter seen reason_codes c) ∙ m))

in_order-ok :
    (taxonomy : List String) (r : Result (List String)) (result : List String)
    → in_order taxonomy r ≡ ok result
    → (seen : List String) × (r ≡ ok seen) × (result ≡ filter (includes seen) taxonomy)
in_order-ok taxonomy (ok seen) result h = (seen, refl, ground arith)
in_order-ok taxonomy (error e) result h = cc

-- What an accepted list becomes.
normalize_reason_codes-ok :
    (codes result : List String)
    → normalize_reason_codes (some codes) ≡ ok result
    → Known codes × (result ≡ filter (includes codes) reason_codes)
unfolding normalize_reason_codes
normalize_reason_codes-ok codes result h =
    let parts = in_order-ok reason_codes (check_codes codes) result h in
    let checked = check_codes-ok codes parts.0 parts.1 in
    (checked.1, parts.2 ∙ ap (λ s. filter (includes s) reason_codes) checked.0)

-- Exactly the lists of known codes are accepted, and each becomes the codes of the taxonomy that
-- it has.
pub normalize_reason_codes_iff :
    (codes result : List String)
    → (normalize_reason_codes (some codes) ≡ ok result) ↔ (
        All (λ c. includes reason_codes c ≡ true) codes
        × (result ≡ filter (includes codes) reason_codes))
unfolding normalize_reason_codes Known
normalize_reason_codes_iff codes result = (
  normalize_reason_codes-ok codes result,
  λ (known, same). ap (in_order reason_codes) (check_codes-Known codes known) ∙ ap ok (sym same),
)

-- A list of reason codes that is accepted comes out with the same members.
pub normalize_reason_codes-keeps :
    (codes result : List String)
    → normalize_reason_codes (some codes) ≡ ok result
    → (c : String) → includes result c ≡ includes codes c
normalize_reason_codes-keeps codes result h c =
    let parts = normalize_reason_codes-ok codes result h in
    ap (λ r. includes r c) parts.1
    ∙ includes-filter codes reason_codes c
    ∙ and-known (includes reason_codes c) (includes codes c) (Known-includes codes c parts.0)

-- A list of reason codes with the same members as an accepted one has the same result.
pub normalize_reason_codes-extensional :
    (codes others result : List String)
    → normalize_reason_codes (some codes) ≡ ok result
    → ((c : String) → includes others c ≡ includes codes c)
    → normalize_reason_codes (some others) ≡ ok result
unfolding normalize_reason_codes
normalize_reason_codes-extensional codes others result h same =
    let parts = normalize_reason_codes-ok codes result h in
    let known = Known-when others (λ c m. Known-includes codes c parts.0 (sym (same c) ∙ m)) in
    ap (in_order reason_codes) (check_codes-Known others known)
    ∙ ap ok (filter-agrees (includes others) (includes codes) reason_codes same ∙ sym parts.1)

-- Normalising again changes nothing.
pub normalize_reason_codes_again :
    (codes result : List String)
    → normalize_reason_codes (some codes) ≡ ok result
    → normalize_reason_codes (some result) ≡ ok result
normalize_reason_codes_again codes result h =
    normalize_reason_codes-extensional codes result result h
      (normalize_reason_codes-keeps codes result h)
