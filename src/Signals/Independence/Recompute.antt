-- ===== src/Signals/Independence/Recompute.antt =====
-- semi_intel/signals/independence.py: recompute_independence_groups, over the tables
-- `signal_independence_groups` and `signal_independence_group_members`. `items` are the rows of the
-- candidate's items with the names of their sources.
use semiconductor_intelligen.Prelude.{
  ℕ, suc, ◌+◌, String, ◌≡◌, refl, sym, ap, ◌∙◌, subst, inl, inr, Bool, true, false, not, ◌&&◌, ◌||◌,
  Option, none, some, List, [], ◌∷◌, ◌++◌, map, arith, ltb, ◌==◌, if◌then◌else◌, Bool-cases,
  if-true, if-false, ◌>>=◌, length, any, filter, find, All, unique,
}
use semiconductor_intelligen.Prelude.Rows.{filter-snoc, length-filter_snoc}
use semiconductor_intelligen.Signals.Independence.{Item, Groups, get_reason, reason_or, group_items}
use semiconductor_intelligen.Signals.Independence.Grouping.{group_items-IsGrouping}

pub record SignalIndependenceGroup : Type 0 where
  pub id : ℕ
  pub candidate_id : ℕ
  pub origin_signal_item_id : ℕ
  pub reason : String

pub record SignalIndependenceGroupMember : Type 0 where
  pub group_id : ℕ
  pub signal_item_id : ℕ

-- The two tables, the next row id, and the two counts of the candidate.
pub record GroupTables : Type 0 where
  pub groups : List SignalIndependenceGroup
  pub members : List SignalIndependenceGroupMember
  pub next_id : ℕ

pub record SourceCounts : Type 0 where
  pub distinct_source_count : ℕ
  pub independent_source_group_count : ℕ

-- (posted_at or dt.datetime.max, id) < (posted_at or dt.datetime.max, id)
abbrev pub is_earlier : Option ℕ × ℕ → Option ℕ × ℕ → Bool
is_earlier (none, i) (none, j) = ltb i j
is_earlier (none, i) (some q, j) = false
is_earlier (some p, i) (none, j) = true
is_earlier (some p, i) (some q, j) = ltb p q || (p == q && ltb i j)

-- by_id[i].posted_at
abbrev posted_in : Option Item → Option ℕ
posted_in none = none
posted_in (some it) = it.posted_at

abbrev pub key_of : List Item → ℕ → Option ℕ × ℕ
key_of items i = (posted_in (find (λ it. it.id == i) items), i)

-- min(first, *rest), the first of equal ones
unfoldable pub earliest : List Item → ℕ → List ℕ → ℕ
earliest items first [] = first
earliest items first (i ∷ rest) =
    earliest items (if is_earlier (key_of items i) (key_of items first) then i else first) rest

-- Not earlier than is transitive.
is_earlier-total :
    (x y z : Option ℕ × ℕ)
    → is_earlier x y ≡ false
    → is_earlier y z ≡ false
    → is_earlier x z ≡ false
is_earlier-total (none, i) (none, j) (none, k) h e = ground arith
is_earlier-total (none, i) (none, j) (some r, k) h e = refl
is_earlier-total (none, i) (some q, j) (none, k) h e = cc
is_earlier-total (none, i) (some q, j) (some r, k) h e = refl
is_earlier-total (some p, i) (none, j) z h e = cc
is_earlier-total (some p, i) (some q, j) (none, k) h e = cc
is_earlier-total (some p, i) (some q, j) (some r, k) h e = ground arith

is_earlier-asym : (x y : Option ℕ × ℕ) → is_earlier x y ≡ true → is_earlier y x ≡ false
is_earlier-asym (none, i) (none, j) h = ground arith
is_earlier-asym (none, i) (some q, j) h = cc
is_earlier-asym (some p, i) (none, j) h = refl
is_earlier-asym (some p, i) (some q, j) h = ground arith

is_earlier_irrefl : (x : Option ℕ × ℕ) → is_earlier x x ≡ false
is_earlier_irrefl (none, i) = ground arith
is_earlier_irrefl (some p, i) = ground arith

-- No item of the group is earlier than the origin.
abbrev pub IsOrigin : List Item → List ℕ → ℕ → Type 0
IsOrigin items ids origin = All (λ i. is_earlier (key_of items i) (key_of items origin) ≡ false) ids

earliest-IsOrigin :
    (items : List Item) (first : ℕ) (rest : List ℕ)
    → IsOrigin items (first ∷ rest) (earliest items first rest)
unfolding earliest
earliest-IsOrigin items first [] = (is_earlier_irrefl (key_of items first), tt)
earliest-IsOrigin items first (i ∷ rest) =
    elim (Bool-cases (is_earlier (key_of items i) (key_of items first))) [
      | inl t ↦
          let origin = earliest items i rest in
          let next = earliest-IsOrigin items i rest in
          let later = is_earlier-asym (key_of items i) (key_of items first) t in
          subst (IsOrigin items (first ∷ i ∷ rest))
            (sym (ap (λ x. earliest items x rest) (if-true _ i first t)))
            (
              is_earlier-total (key_of items first) (key_of items i) (key_of items origin) later
                  next.0,
              (next.0, next.1),
            )
      | inr t ↦
          let origin = earliest items first rest in
          let next = earliest-IsOrigin items first rest in
          subst (IsOrigin items (first ∷ i ∷ rest))
            (sym (ap (λ x. earliest items x rest) (if-false _ i first t)))
            (
              next.0,
              (
                is_earlier-total (key_of items i) (key_of items first) (key_of items origin) t
                    next.0,
                next.1,
              ),
            )
    ]

-- An entry of groups_by_root: the root, and the list of members, which is never empty.
abbrev Members : Type 0
Members = ℕ × ℕ × List ℕ

-- groups_by_root.setdefault(root, []).append(item_id)
unfoldable insert_member : ℕ → ℕ → List Members → List Members
insert_member root item_id [] = (root, item_id, []) ∷ []
insert_member root item_id ((r, first, others) ∷ entries) =
    let rest = insert_member root item_id entries in
    if r == root then (r, first, others ++ item_id ∷ []) ∷ entries else (r, first, others) ∷ rest

groups_by_root : List (ℕ × ℕ) → List Members → List Members
groups_by_root [] entries = entries
groups_by_root ((item_id, root) ∷ roots) entries =
    groups_by_root roots (insert_member root item_id entries)

-- The loop over groups_by_root.
add_groups : ℕ → List Item → List (ℕ × String) → List Members → GroupTables → GroupTables
add_groups candidate_id items reasons [] tables = tables
add_groups candidate_id items reasons ((root, first, others) ∷ entries) tables =
    add_groups candidate_id items reasons entries (record {
      groups =
          tables.groups
          ++ (record {
            id = tables.next_id;
            candidate_id = candidate_id;
            origin_signal_item_id = earliest items first others;
            reason = reason_or (get_reason root reasons);
          })
            ∷ [];
      members =
          tables.members
          ++ map (λ i. record { group_id = tables.next_id; signal_item_id = i }) (first ∷ others);
      next_id = suc tables.next_id;
    })

abbrev pub is_group_of : ℕ → SignalIndependenceGroup → Bool
is_group_of candidate_id group = group.candidate_id == candidate_id

-- The two deletions.
abbrev cleared : ℕ → GroupTables → GroupTables
cleared candidate_id tables = record tables {
  groups = filter (λ group. not (is_group_of candidate_id group)) tables.groups;
  members =
      filter
        (λ member. not (
          any (λ group. is_group_of candidate_id group && group.id == member.group_id)
            tables.groups))
        tables.members;
}

abbrev rebuilt : ℕ → List Item → Groups → GroupTables → GroupTables × SourceCounts
rebuilt candidate_id items found tables =
    let entries = groups_by_root found.roots [] in
    (
      add_groups candidate_id items found.reasons entries tables,
      record {
        distinct_source_count = length (unique (map (λ it. it.source_id) items));
        independent_source_group_count = length entries;
      },
    )

add_groups-rows :
    (candidate_id : ℕ) (items : List Item) (reasons : List (ℕ × String)) (entries : List Members)
    (tables : GroupTables)
    → let after = add_groups candidate_id items reasons entries tables in
      (length (filter (is_group_of candidate_id) after.groups)
        ≡ length (filter (is_group_of candidate_id) tables.groups) + length entries)
      × (filter (λ group. not (is_group_of candidate_id group)) after.groups
          ≡ filter (λ group. not (is_group_of candidate_id group)) tables.groups)
unfolding add_groups
add_groups-rows candidate_id items reasons [] tables = (omega arith, refl)
add_groups-rows candidate_id items reasons ((root, first, others) ∷ entries) tables =
    let group : SignalIndependenceGroup = record {
      id = tables.next_id;
      candidate_id = candidate_id;
      origin_signal_item_id = earliest items first others;
      reason = reason_or (get_reason root reasons);
    } in
    let rest = add_groups-rows candidate_id items reasons entries (record {
      groups = tables.groups ++ group ∷ [];
      members =
          tables.members
          ++ map (λ i. record { group_id = tables.next_id; signal_item_id = i }) (first ∷ others);
      next_id = suc tables.next_id;
    }) in
    let more = length-filter_snoc (is_group_of candidate_id) tables.groups group in
    let same = filter-snoc (λ g. not (is_group_of candidate_id g)) tables.groups group in
    (ground (arith, more, rest.0), ground (arith, same, rest.1))

module _ (canonical_url lower : String → String) (is_in : String → String → Bool)
    (extract_attributed_names : String → List String) where
  pub recompute_independence_groups :
      ℕ → List Item → GroupTables → Option (GroupTables × SourceCounts)
  unfolding insert_member groups_by_root add_groups
  recompute_independence_groups candidate_id [] tables = some (
    cleared candidate_id tables,
    record { distinct_source_count = 0; independent_source_group_count = 0 },
  )
  recompute_independence_groups candidate_id (it ∷ items) tables = do
    found ← group_items canonical_url lower is_in extract_attributed_names (it ∷ items)
    some (rebuilt candidate_id (it ∷ items) found (cleared candidate_id tables))

  cleared-rows :
      (candidate_id : ℕ) (groups : List SignalIndependenceGroup)
      → (length (
            filter
              (is_group_of candidate_id)
              (filter (λ group. not (is_group_of candidate_id group)) groups))
          ≡ 0)
        × (filter
              (λ group. not (is_group_of candidate_id group))
              (filter (λ group. not (is_group_of candidate_id group)) groups)
            ≡ filter (λ group. not (is_group_of candidate_id group)) groups)
  cleared-rows candidate_id [] = (refl, refl)
  cleared-rows candidate_id (group ∷ groups) =
      let (empty, same) = cleared-rows candidate_id groups in
      (ground (arith, empty), ground (arith, same))

  -- Recomputing returns. The candidate then has as many groups as its count of independent groups
  -- says, and the groups of other candidates are as they were.
  pub recompute-counted :
      (candidate_id : ℕ) (items : List Item) (tables : GroupTables)
      → (after : GroupTables) × (counts : SourceCounts) × (recompute_independence_groups
            candidate_id items tables
          ≡ some (after, counts))
        × (length (filter (is_group_of candidate_id) after.groups)
            ≡ counts.independent_source_group_count)
        × (filter (λ group. not (is_group_of candidate_id group)) after.groups
            ≡ filter (λ group. not (is_group_of candidate_id group)) tables.groups)
  unfolding recompute_independence_groups
  recompute-counted candidate_id [] tables =
      let rows = cleared-rows candidate_id tables.groups in
      (
        cleared candidate_id tables,
        record { distinct_source_count = 0; independent_source_group_count = 0 },
        refl,
        rows.0,
        rows.1,
      )
  recompute-counted candidate_id (it ∷ items) tables =
      let (found, answer, _) =
        group_items-IsGrouping canonical_url lower is_in extract_attributed_names (it ∷ items) in
      let (after, counts) = rebuilt candidate_id (it ∷ items) found (cleared candidate_id tables) in
      let rows = cleared-rows candidate_id tables.groups in
      let added =
        add_groups-rows candidate_id (it ∷ items) found.reasons (groups_by_root found.roots [])
          (cleared candidate_id tables) in
      (after, counts, rw answer refl, omega (arith, rows.0, added.0), added.1 ∙ rows.1)
