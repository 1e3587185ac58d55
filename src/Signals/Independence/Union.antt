-- ===== src/Signals/Independence/Union.antt =====
-- semi_intel/signals/independence.py: calls of `union` against the equivalence that they generate.
use semiconductor_intelligen.Prelude.{
  ℕ, suc, String, ◌≡◌, refl, sym, ◌∙◌, subst, ◌≢◌, ◌⊎◌, inl, inr, arith, ◌==◌, Bool-cases,
}
use semiconductor_intelligen.Signals.Independence.{UnionFind, set_parent, set_default}
use semiconductor_intelligen.Signals.Independence.Find.{
  Leads, at_root, up, Leads-longer, Leads-root, Leads-unique, Leads-step,
}

-- The least equivalence that contains a relation.
pub data Closure (R : ℕ → ℕ → Type 0) : ℕ → ℕ → Type 0 where
  related : {x y : ℕ} → R x y → Closure R x y
  itself : {x : ℕ} → Closure R x x
  back : {x y : ℕ} → Closure R x y → Closure R y x
  via : {x y z : ℕ} → Closure R x y → Closure R y z → Closure R x z

-- Both are led to one root.
abbrev pub Joined : (ℕ → ℕ) → ℕ → ℕ → ℕ → Type 0
Joined parent m x y = (r : ℕ) × Leads parent m x r × Leads parent m y r

-- The parents form a forest of depth m at most, inside the equivalence.
pub record Forest (R : ℕ → ℕ → Type 0) (m : ℕ) (uf : UnionFind) : Type 0 where
  pub total : (x : ℕ) → (r : ℕ) × Leads uf.parent m x r
  pub sound : {k x r : ℕ} → Leads uf.parent k x r → Closure R x r

module _ (parent : ℕ → ℕ) (ra rb : ℕ) (apart : ra ≢ rb) (root : parent ra ≡ ra)
    (other_root : parent rb ≡ rb) where
  abbrev pub linked : ℕ → ℕ
  linked = set_parent rb ra parent

  linked-root : linked ra ≡ ra
  linked-root = ground arith

  -- An item of the second root is led to the first, one step further.
  linked_moved : {k x r : ℕ} → Leads parent k x r → r ≡ rb → Leads linked (suc k) x ra
  linked_moved {r = r} (at_root h) e =
      let moved : linked r ≡ ra = ground arith in
      let away : ra ≢ r = λ same. apart (same ∙ e) in Leads-step moved away (at_root linked-root)
  linked_moved {x = x} (up n l) e =
      let away : x ≢ rb = λ same. n (subst (λ y. parent y ≡ y) (sym same) other_root) in
      Leads-step (ground arith) n (linked_moved l e)

  linked_kept : {k x r : ℕ} → Leads parent k x r → r ≢ rb → Leads linked k x r
  linked_kept (at_root h) e = at_root (ground arith)
  linked_kept {x = x} (up n l) e =
      let away : x ≢ rb = λ same. n (subst (λ y. parent y ≡ y) (sym same) other_root) in
      Leads-step (ground arith) n (linked_kept l e)

  -- The root of an item after the link.
  linked_cases :
      {k x r : ℕ}
      → Leads parent k x r
      → ((r ≡ rb) × Leads linked (suc k) x ra) ⊎ ((r ≢ rb) × Leads linked (suc k) x r)
  linked_cases {r = r} l = elim (Bool-cases (r == rb)) [
    | inl t ↦ let same : r ≡ rb = ground arith in inl (same, linked_moved l same)
    | inr t ↦
        let away : r ≢ rb = ground arith in
        inr (away, Leads-longer (omega arith) (linked_kept l away))
  ]

  -- Two items with one root have one root afterwards.
  pub Joined-linked : {m x y : ℕ} → Joined parent m x y → Joined linked (suc m) x y
  Joined-linked (r, lx, ly) = elim (linked_cases lx) [
    | inl t ↦ elim (linked_cases ly) [ inl u ↦ (ra, t.1, u.1) | inr u ↦ absurd (u.0 t.0) ]
    | inr t ↦ elim (linked_cases ly) [ inl u ↦ absurd (t.0 u.0) | inr u ↦ (r, t.1, u.1) ]
  ]

  pub Joined-roots :
      {m a b : ℕ} → Leads parent m a ra → Leads parent m b rb → Joined linked (suc m) a b
  Joined-roots la lb = elim (linked_cases la) [
    | inl t ↦ absurd (apart t.0)
    | inr t ↦ elim (linked_cases lb) [ inl u ↦ (ra, t.1, u.1) | inr u ↦ absurd (u.0 refl) ]
  ]

module _ (R : ℕ → ℕ → Type 0) where
  -- A forest whose parents were halved on the way.
  pub Forest-kept :
      (m : ℕ) (uf : UnionFind) (after : ℕ → ℕ)
      → ((k z s : ℕ) → Leads uf.parent k z s → Leads after k z s)
      → Forest R m uf
      → Forest R m (record uf { parent = after })
  Forest-kept m uf after kept h = record {
    total = λ x. let (r, l) = h.total x in (r, kept m x r l);
    sound = λ {k} {x} {r} l.
        let (s, old) = h.total x in
        subst (Closure R x) (Leads-unique (kept m x s old) l) (h.sound old);
  }

  -- Where two roots are linked, the first one names the group.
  pub Forest-link :
      (m : ℕ) (uf : UnionFind) (a b ra rb : ℕ) (reason : String)
      → ra ≢ rb
      → Closure R a b
      → Leads uf.parent m a ra
      → Leads uf.parent m b rb
      → Forest R m uf
      → Forest R
          (suc m)
          (record { parent = set_parent rb ra uf.parent; reason = set_default ra reason uf.reason })
  Forest-link m uf a b ra rb reason apart joined la lb h = record {
    total = λ x. let (r, l) = h.total x in total_linked x r l;
    sound = λ {k} {x} {r} l. let (s, old) = h.total x in sound_linked s old l;
  }
    where
      after : ℕ → ℕ
      after = set_parent rb ra uf.parent

      cases :
          {k x r : ℕ}
          → Leads uf.parent k x r
          → ((r ≡ rb) × Leads after (suc k) x ra) ⊎ ((r ≢ rb) × Leads after (suc k) x r)
      cases l = linked_cases uf.parent ra rb apart (Leads-root la) (Leads-root lb) l

      total_linked : (x r : ℕ) → Leads uf.parent m x r → (s : ℕ) × Leads after (suc m) x s
      total_linked x r l = elim (cases l) [ inl t ↦ (ra, t.1) | inr t ↦ (r, t.1) ]

      across : {x : ℕ} → Closure R x rb → Closure R x ra
      across c = via c (via (back (h.sound lb)) (via (back joined) (h.sound la)))

      sound_linked : {k x r : ℕ} (s : ℕ) → Leads uf.parent m x s → Leads after k x r → Closure R x r
      sound_linked {x = x} s old l = elim (cases old) [
        | inl t ↦
            subst (Closure R x) (Leads-unique t.1 l)
              (across (subst (Closure R x) t.0 (h.sound old)))
        | inr t ↦ subst (Closure R x) (Leads-unique t.1 l) (h.sound old)
      ]
