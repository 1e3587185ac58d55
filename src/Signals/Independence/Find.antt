-- ===== src/Signals/Independence/Find.antt =====
-- semi_intel/signals/independence.py: what `find` answers, and that halving paths moves no item to
-- another root.
use semiconductor_intelligen.Prelude.{
  ℕ, zero, suc, ◌≤◌, ◌≡◌, refl, sym, ◌∙◌, subst, ◌≢◌, inl, inr, some, arith, ◌==◌, ==_iff,
  Bool-cases,
}
use semiconductor_intelligen.Signals.Independence.{set_parent, find_root}

-- At most this many steps lead from an item to a root.
pub data Leads (parent : ℕ → ℕ) : ℕ → ℕ → ℕ → Type 0 where
  at_root : {k r : ℕ} → parent r ≡ r → Leads parent k r r
  up : {k x r : ℕ} → parent x ≢ x → Leads parent k (parent x) r → Leads parent (suc k) x r

module _ {parent : ℕ → ℕ} where
  pub Leads-longer : {k j x r : ℕ} → k ≤ j → Leads parent k x r → Leads parent j x r
  Leads-longer e (at_root h) = at_root h
  Leads-longer {j = zero} e (up n l) = absurd (omega arith)
  Leads-longer {j = suc j} e (up n l) = up n (Leads-longer (omega arith) l)

  pub Leads-root : {k x r : ℕ} → Leads parent k x r → parent r ≡ r
  Leads-root (at_root h) = h
  Leads-root (up n l) = Leads-root l

  -- An item has one root.
  pub Leads-unique : {k j x r s : ℕ} → Leads parent k x r → Leads parent j x s → r ≡ s
  Leads-unique (at_root h) (at_root e) = refl
  Leads-unique (at_root h) (up n m) = absurd (n h)
  Leads-unique (up n l) (at_root e) = absurd (n e)
  Leads-unique (up n l) (up e m) = Leads-unique l m

  Leads-parent : {k x r : ℕ} → Leads parent (suc k) x r → Leads parent k (parent x) r
  Leads-parent {k} {x} (at_root h) = subst (λ y. Leads parent k y x) (sym h) (at_root h)
  Leads-parent (up n l) = l

  Leads-zero : {x r : ℕ} → Leads parent 0 x r → parent x ≡ x
  Leads-zero (at_root h) = h

  Leads-at_root : {k x r : ℕ} → Leads parent k x r → parent x ≡ x → x ≡ r
  Leads-at_root (at_root h) e = refl
  Leads-at_root (up n l) e = absurd (n e)

pub Leads-step :
    {parent : ℕ → ℕ} {k z w r : ℕ}
    → parent z ≡ w
    → w ≢ z
    → Leads parent k w r
    → Leads parent (suc k) z r
Leads-step {parent} {k} {z} {w} {r} e n l =
    up (λ same. n (sym e ∙ same)) (subst (λ y. Leads parent k y r) (sym e) l)

module _ (parent : ℕ → ℕ) (x : ℕ) where
  -- self.parent[x] = self.parent[self.parent[x]]
  abbrev pub halved : ℕ → ℕ
  halved = set_parent x (parent (parent x)) parent

  halved_self : {z : ℕ} → z ≡ x → halved z ≡ parent (parent z)
  halved_self e = ground (arith, e)

  pub Leads-halved : {k z r : ℕ} → Leads parent k z r → Leads halved k z r
  Leads-halved (at_root h) = at_root (ground (arith, h))
  Leads-halved {z = z} (up n (at_root {r} e)) = elim (Bool-cases (z == x)) [
    | inl t ↦ Leads-step (halved_self ((==_iff z x).0 t) ∙ e) n (at_root (ground (arith, e)))
    | inr t ↦ Leads-step (ground arith) n (at_root (ground (arith, e)))
  ]
  Leads-halved {z = z} {r = r} (up n (up {k} m l)) = elim (Bool-cases (z == x)) [
    | inl t ↦ elim (Bool-cases (parent (parent z) == z)) [
      | inl back ↦
          let same : z ≡ x = (==_iff z x).0 t in
          let cycle : parent (parent z) ≡ z = (==_iff (parent (parent z)) z).0 back in
          let at_z = subst (λ y. Leads halved k y r) cycle (Leads-halved l) in
          let end = Leads-at_root at_z (halved_self same ∙ cycle) in
          absurd (n (subst (λ y. parent y ≡ y) (sym end) (Leads-root l)))
      | inr t' ↦
          Leads-longer (omega arith)
            (Leads-step (halved_self ((==_iff z x).0 t)) (λ e. ground arith) (Leads-halved l))
    ]
    | inr t ↦ Leads-step (ground arith) n (Leads-halved (up m l))
  ]

-- What a call of `find` gives: the root, and parents under which every item has the root it had.
pub record Found (fuel x r : ℕ) (parent : ℕ → ℕ) : Type 0 where
  pub after : ℕ → ℕ
  pub answer : find_root fuel x parent ≡ some (r, after)
  pub kept : {k z s : ℕ} → Leads parent k z s → Leads after k z s

pub find_root-Found :
    (fuel : ℕ) {x r : ℕ} (parent : ℕ → ℕ) → Leads parent fuel x r → Found fuel x r parent
unfolding find_root
find_root-Found zero {x} {r} parent l =
    let root = Leads-zero l in
    let end = Leads-at_root l root in
    record { after = parent; answer = ground arith; kept = λ m. m }
find_root-Found (suc fuel) {x} {r} parent l = elim (Bool-cases (parent x == x)) [
  | inl t ↦
      let end = Leads-at_root l ((==_iff (parent x) x).0 t) in
      record { after = parent; answer = ground arith; kept = λ m. m }
  | inr t ↦
      let rest = find_root-Found fuel (halved parent x) (Leads-parent (Leads-halved parent x l)) in
      record {
        after = rest.after;
        answer = rw t rest.answer;
        kept = λ m. rest.kept (Leads-halved parent x m);
      }
]
