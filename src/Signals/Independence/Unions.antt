-- ===== src/Signals/Independence/Unions.antt =====
-- semi_intel/signals/independence.py: a sequence of unions ends, and joins exactly what it is to join.
use semiconductor_intelligen.Prelude.{
  ℕ, suc, ◌+◌, ◌≤◌, String, ◌≡◌, refl, sym, subst, ◌≢◌, inl, inr, Option, some, List, [], ◌∷◌,
  arith, ◌==◌, Bool-cases, length, All,
}
use semiconductor_intelligen.Signals.Independence.{
  UnionFind, set_parent, set_default, link, union, UnionCall, run_unions,
}
use semiconductor_intelligen.Signals.Independence.Find.{
  Leads, Leads-longer, Leads-root, find_root-Found,
}
use semiconductor_intelligen.Signals.Independence.Union.{
  Closure, Forest, Joined, Joined-linked, Joined-roots, Forest-kept, Forest-link,
}

-- What a union of two items gives.
record Unioned (R : ℕ → ℕ → Type 0) (m a b : ℕ) (answer : Option UnionFind) (uf : UnionFind)
    : Type 0 where
  next : UnionFind
  answered : answer ≡ some next
  forest : Forest R (suc m) next
  joins : Joined next.parent (suc m) a b
  keeps : (x y : ℕ) → Joined uf.parent m x y → Joined next.parent (suc m) x y

Joined-longer : {parent : ℕ → ℕ} {m x y : ℕ} → Joined parent m x y → Joined parent (suc m) x y
Joined-longer (r, lx, ly) = (r, Leads-longer (omega arith) lx, Leads-longer (omega arith) ly)

module _ (R : ℕ → ℕ → Type 0) where
  Forest-longer : (m : ℕ) (uf : UnionFind) → Forest R m uf → Forest R (suc m) uf
  Forest-longer m uf h = record {
    total = λ x. let (r, l) = h.total x in (r, Leads-longer (omega arith) l);
    sound = h.sound;
  }

  Unioned-link :
      (m a b ra rb : ℕ) (reason : String) (uf : UnionFind)
      → Closure R a b
      → Leads uf.parent m a ra
      → Leads uf.parent m b rb
      → Forest R m uf
      → Unioned R m a b (some (link ra rb reason uf)) uf
  unfolding link
  Unioned-link m a b ra rb reason uf c la lb h = elim (Bool-cases (ra == rb)) [
    | inl t ↦
        let same : ra ≡ rb = ground arith in
        rw t (record {
          next = uf;
          answered = refl;
          forest = Forest-longer m uf h;
          joins = Joined-longer (ra, la, subst (Leads uf.parent m b) (sym same) lb);
          keeps = λ x y j. Joined-longer j;
        })
    | inr t ↦
        let apart : ra ≢ rb = ground arith in
        rw t (record {
          next = record {
            parent = set_parent rb ra uf.parent;
            reason = set_default ra reason uf.reason;
          };
          answered = refl;
          forest = Forest-link R m uf a b ra rb reason apart c la lb h;
          joins = Joined-roots uf.parent ra rb apart (Leads-root la) (Leads-root lb) la lb;
          keeps = λ x y j. Joined-linked uf.parent ra rb apart (Leads-root la) (Leads-root lb) j;
        })
  ]

  Unioned-union :
      (fuel m a b : ℕ) (reason : String) (uf : UnionFind)
      → m ≤ fuel
      → Closure R a b
      → Forest R m uf
      → Unioned R m a b (union fuel a b reason uf) uf
  unfolding union
  Unioned-union fuel m a b reason uf e c h =
      let (ra, la) = h.total a in
      let (rb, lb) = h.total b in
      let first = find_root-Found fuel uf.parent (Leads-longer e la) in
      let second = find_root-Found fuel first.after (Leads-longer e (first.kept lb)) in
      let kept = λ (k z s : ℕ) (l : Leads uf.parent k z s). second.kept (first.kept l) in
      let uf' = record uf { parent = second.after } in
      let done =
        Unioned-link m a b ra rb reason uf' c (kept m a ra la) (kept m b rb lb)
          (Forest-kept R m uf second.after kept h) in
      rw first.answer (
        rw second.answer (record {
          next = done.next;
          answered = done.answered;
          forest = done.forest;
          joins = done.joins;
          keeps = λ x y (r, lx, ly). done.keeps x y (r, kept m x r lx, kept m y r ly);
        }))

  -- What a sequence of unions gives: a forest in which all its pairs are joined.
  pub record Ran (fuel m : ℕ) (calls : List UnionCall) (uf : UnionFind) : Type 0 where
    pub depth : ℕ
    pub shallow : depth ≤ m + length calls
    pub next : UnionFind
    pub answered : run_unions fuel calls uf ≡ some next
    pub forest : Forest R depth next
    pub joins : All (λ c. Joined next.parent depth c.0 c.1) calls
    pub keeps : (x y : ℕ) → Joined uf.parent m x y → Joined next.parent depth x y

  pub run_unions-Ran :
      (fuel m : ℕ) (calls : List UnionCall) (uf : UnionFind)
      → m + length calls ≤ fuel
      → All (λ c. Closure R c.0 c.1) calls
      → Forest R m uf
      → Ran fuel m calls uf
  unfolding run_unions
  run_unions-Ran fuel m [] uf e c h = record {
    depth = m;
    shallow = omega arith;
    next = uf;
    answered = refl;
    forest = h;
    joins = tt;
    keeps = λ x y j. j;
  }
  run_unions-Ran fuel m ((a, b, reason) ∷ calls) uf e c h =
      let first = Unioned-union fuel m a b reason uf (omega arith) c.0 h in
      let rest = run_unions-Ran fuel (suc m) calls first.next (omega arith) c.1 first.forest in
      record {
        depth = rest.depth;
        shallow = omega (arith, rest.shallow);
        next = rest.next;
        answered = rw first.answered rest.answered;
        forest = rest.forest;
        joins = (rest.keeps a b first.joins, rest.joins);
        keeps = λ x y j. rest.keeps x y (first.keeps x y j);
      }
