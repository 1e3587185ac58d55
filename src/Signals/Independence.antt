-- ===== src/Signals/Independence.antt =====
-- semi_intel/signals/independence.py: _UnionFind, group_items. The dict `parent` is a function; only
-- ids of items are looked up. `canonical_url` of editorial/service.py, str.lower, the `in` of texts
-- and the regular expression for attributions are parameters.
pub mod Find
pub mod Union
pub mod Unions
pub mod Index
pub mod Lineage
pub mod Grouping
pub mod Recompute
use semiconductor_intelligen.Prelude.{
  ℕ, zero, suc, String, Bool, not, ◌&&◌, ◌||◌, Option, none, some, List, [], ◌∷◌, ◌++◌, map, str_eq,
  ◌==◌, if◌then◌else◌, is_some, ◌>>=◌, length, any, filter, concat_map, unique,
}
use semiconductor_intelligen.Prelude.Dict.{Dict, get, put}

pub record Item : Type 0 where
  pub id : ℕ
  pub source_id : ℕ
  pub author_handle : Option String
  pub url : Option String
  pub quoted_signal_item_id : Option ℕ
  pub reply_to_signal_item_id : Option ℕ
  pub normalized_text : String
  pub source_name : String
  pub posted_at : Option ℕ

pub record UnionFind : Type 0 where
  pub parent : ℕ → ℕ
  pub reason : List (ℕ × String)

-- self.parent[x] = y
abbrev pub set_parent : ℕ → ℕ → (ℕ → ℕ) → ℕ → ℕ
set_parent x y parent z = if z == x then y else parent z

-- find, on fuel: the root and the parents after the path was halved.
unfoldable pub find_root : ℕ → ℕ → (ℕ → ℕ) → Option (ℕ × (ℕ → ℕ))
find_root zero x parent = if parent x == x then some (x, parent) else none
find_root (suc fuel) x parent =
    let halved = set_parent x (parent (parent x)) parent in
    let rest = find_root fuel (halved x) halved in if parent x == x then some (x, parent) else rest

-- self.reason.get(r)
abbrev pub get_reason : ℕ → List (ℕ × String) → Option String
get_reason r [] = none
get_reason r ((s, reason) ∷ reasons) =
    let rest = get_reason r reasons in if s == r then some reason else rest

-- self.reason.setdefault(ra, reason)
abbrev pub set_default : ℕ → String → List (ℕ × String) → List (ℕ × String)
set_default r reason reasons =
    if is_some (get_reason r reasons) then reasons else reasons ++ (r, reason) ∷ []

-- What union does with the two roots.
unfoldable pub link : ℕ → ℕ → String → UnionFind → UnionFind
link ra rb reason uf =
    if ra == rb
    then uf
    else record { parent = set_parent rb ra uf.parent; reason = set_default ra reason uf.reason }

unfoldable pub union : ℕ → ℕ → ℕ → String → UnionFind → Option UnionFind
union fuel a b reason uf = do
  (ra, first) ← find_root fuel a uf.parent
  (rb, second) ← find_root fuel b first
  some (link ra rb reason (record uf { parent = second }))

abbrev pub UnionCall : Type 0
UnionCall = ℕ × ℕ × String

-- The calls of union that group_items makes, one after the other.
unfoldable pub run_unions : ℕ → List UnionCall → UnionFind → Option UnionFind
run_unions fuel [] uf = some uf
run_unions fuel ((a, b, reason) ∷ calls) uf = do
  next ← union fuel a b reason uf
  run_unions fuel calls next

-- `if it.url:`
abbrev pub truthy : Option String → Option String
truthy none = none
truthy (some t) = if str_eq t "" then none else some t

abbrev pub key_by : (String → String) → Option String → Option String
key_by f none = none
key_by f (some t) = some (f t)

-- d.get(key, [])
abbrev pub ids_in : Option (List ℕ) → List ℕ
ids_in none = []
ids_in (some ids) = ids

-- by_key.setdefault(key, []).append(id), if the item has a key.
abbrev pub index_item : Option String → ℕ → Dict (List ℕ) → Dict (List ℕ)
index_item none id d = d
index_item (some key) id d = put key (ids_in (get key d) ++ id ∷ []) d

-- The ids of the items by a key that some of them have, in the order of the items.
unfoldable pub index_from : (Item → Option String) → List Item → Dict (List ℕ) → Dict (List ℕ)
index_from key [] d = d
index_from key (it ∷ items) d = index_from key items (index_item (key it) it.id d)

-- for ids in by_key.values(): for other in ids[1:]: uf.union(ids[0], other, reason)
abbrev pub star : String → List ℕ → List UnionCall
star reason [] = []
star reason (first ∷ others) = map (λ other. (first, other, reason)) others

abbrev pub key_calls : String → (Item → Option String) → List Item → List UnionCall
key_calls reason key items = concat_map (λ entry. star reason entry.1) (index_from key items [])

-- `parent_ext and parent_ext in by_id`
abbrev pub known_parent : List Item → Option ℕ → List ℕ
known_parent items none = []
known_parent items (some parent_ext) =
    if not (parent_ext == 0) && any (λ it. it.id == parent_ext) items then parent_ext ∷ [] else []

abbrev pub lineage_calls : List Item → List Item → List UnionCall
lineage_calls all_items = concat_map (λ it.
    map (λ parent_ext. (it.id, parent_ext, "lineage"))
      (known_parent all_items it.quoted_signal_item_id
        ++ known_parent all_items it.reply_to_signal_item_id))

-- `author_handle or ""`
abbrev pub or_empty : Option String → String
or_empty none = ""
or_empty (some t) = t

-- {root: reasons.get(root, "independent") for root in set(...)}
abbrev pub reason_or : Option String → String
reason_or none = "independent"
reason_or (some reason) = reason

pub record Groups : Type 0 where
  pub roots : List (ℕ × ℕ)
  pub reasons : List (ℕ × String)

abbrev pub groups_of : List (ℕ × String) → List (ℕ × ℕ) → Groups
groups_of reasons roots = record {
  roots = roots;
  reasons =
      map (λ root. (root, reason_or (get_reason root reasons)))
        (unique (map (λ entry. entry.1) roots));
}

-- {it.id: uf.find(it.id) for it in items}
unfoldable pub find_all : ℕ → List Item → (ℕ → ℕ) → Option (List (ℕ × ℕ))
find_all fuel [] parent = some []
find_all fuel (it ∷ items) parent = do
  (root, after) ← find_root fuel it.id parent
  rest ← find_all fuel items after
  some ((it.id, root) ∷ rest)

module _ (canonical_url lower : String → String) (is_in : String → String → Bool)
    (extract_attributed_names : String → List String) where
  abbrev pub url_key : Item → Option String
  url_key it = key_by canonical_url (truthy it.url)

  abbrev pub author_key : Item → Option String
  author_key it = key_by lower (truthy it.author_handle)

  -- Whether one of the names that a text credits is, or is part of, a name of the item.
  abbrev pub credits : List String → Item → Bool
  credits names b =
      let candidates = lower b.source_name ∷ lower (or_empty b.author_handle) ∷ [] in
      any
        (λ name.
          any (λ c. str_eq name c) candidates
          || any (λ c. not (str_eq c "") && is_in name c) candidates)
        names

  abbrev pub citation_calls : List Item → List Item → List UnionCall
  citation_calls all_items = concat_map (λ a.
      let names = extract_attributed_names a.normalized_text in
      map (λ b. (a.id, b.id, "citation"))
        (filter (λ b. not (a.id == b.id) && credits names b) all_items))

  abbrev pub union_calls : List Item → List UnionCall
  union_calls items =
      key_calls "same_url" url_key items
      ++ (key_calls "same_author" author_key items
          ++ (lineage_calls items items ++ citation_calls items items))

  abbrev pub singletons : UnionFind
  singletons = record { parent = λ x. x; reason = [] }

  -- As many steps as there are calls of union are enough for each find.
  unfoldable pub group_items : List Item → Option Groups
  group_items items = do
    let calls = union_calls items
    uf ← run_unions (length calls) calls singletons
    roots ← find_all (length calls) items uf.parent
    some (groups_of uf.reason roots)
