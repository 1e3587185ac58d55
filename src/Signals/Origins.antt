-- ===== src/Signals/Origins.antt =====
-- semi_intel/signals/origin_graph.py: build_origin_graph over the rows that its queries return. Row
-- ids are positive; posted_at is a time, and the texts of a graph are left out.
pub mod Counted
use semiconductor_intelligen.Prelude.{
  ℕ, String, Bool, true, false, not, ◌&&◌, ◌||◌, Option, none, some, List, [], ◌∷◌, ◌++◌, map, ltb,
  ◌==◌, if◌then◌else◌, is_some, ◌>>=◌, length, filter, find, concat_map,
}

-- An item of the candidate, with its source's name.
pub record ItemRow : Type 0 where
  pub id : ℕ
  pub source_id : ℕ
  pub source_name : String
  pub title : Option String
  pub url : Option String
  pub posted_at : Option ℕ
  pub quoted_signal_item_id : Option ℕ
  pub reply_to_signal_item_id : Option ℕ

-- A group of the candidate, with its entry of members_by_group.
pub record GroupRow : Type 0 where
  pub id : ℕ
  pub origin_signal_item_id : Option ℕ
  pub reason : String
  pub member_ids : List ℕ

pub record OriginNode : Type 0 where
  pub signal_item_id : ℕ
  pub source_id : ℕ
  pub source_name : String
  pub title : Option String
  pub url : Option String
  pub posted_at : Option ℕ
  pub is_origin : Bool
  pub group_id : ℕ

pub record OriginEdge : Type 0 where
  pub from_signal_item_id : ℕ
  pub to_signal_item_id : ℕ
  pub reason : String

pub record OriginGraph : Type 0 where
  pub origin : Option OriginNode
  pub nodes : List OriginNode
  pub edges : List OriginEdge
  pub independent_confirmations : ℕ
  pub echoes : ℕ

abbrev pub node : ItemRow → ℕ → Bool → OriginNode
node row group_id is_origin = record {
  signal_item_id = row.id;
  source_id = row.source_id;
  source_name = row.source_name;
  title = row.title;
  url = row.url;
  posted_at = row.posted_at;
  is_origin = is_origin;
  group_id = group_id;
}

-- items_by_id.get(id)
abbrev pub item_by_id : List ItemRow → ℕ → Option ItemRow
item_by_id rows id = find (λ (row : ItemRow). row.id == id) rows

-- group.origin_signal_item_id or (member_ids[0] if member_ids else None)
abbrev pub or_first : Option ℕ → List ℕ → Option ℕ
or_first (some origin) ids = some origin
or_first none [] = none
or_first none (id ∷ ids) = some id

abbrev pub origin_id : GroupRow → Option ℕ
origin_id group = or_first group.origin_signal_item_id group.member_ids

abbrev pub is_same : Option ℕ → ℕ → Bool
is_same none id = false
is_same (some origin) id = id == origin

-- none is the KeyError for a member that is no item of the candidate.
unfoldable pub member_nodes : List ItemRow → GroupRow → List ℕ → Option (List OriginNode)
member_nodes rows group [] = some []
member_nodes rows group (id ∷ ids) = item_by_id rows id >>= λ row.
    member_nodes rows group ids >>= λ rest.
    some (node row group.id (is_same (origin_id group) id) ∷ rest)

unfoldable pub group_nodes : List ItemRow → List GroupRow → Option (List OriginNode)
unfolding member_nodes
group_nodes rows [] = some []
group_nodes rows (group ∷ groups) = member_nodes rows group group.member_ids >>= λ own.
    group_nodes rows groups >>= λ rest. some (own ++ rest)

abbrev pub echo_edges_of : String → Option ℕ → List ℕ → List OriginEdge
echo_edges_of reason none ids = []
echo_edges_of reason (some origin) ids =
    map (λ id. record { from_signal_item_id = origin; to_signal_item_id = id; reason = reason })
      (filter (λ id. not (id == origin)) ids)

abbrev pub echo_edges : List GroupRow → List OriginEdge
echo_edges = concat_map (λ group. echo_edges_of group.reason (origin_id group) group.member_ids)

-- Where the parent is one of the candidate's items.
abbrev pub lineage_edge : List ItemRow → Option ℕ → ℕ → String → List OriginEdge
lineage_edge rows none id reason = []
lineage_edge rows (some parent) id reason =
    if is_some (item_by_id rows parent)
    then record { from_signal_item_id = parent; to_signal_item_id = id; reason = reason } ∷ []
    else []

abbrev pub lineage_edges : List ItemRow → List OriginEdge
lineage_edges rows =
    concat_map
      (λ row.
        lineage_edge rows row.quoted_signal_item_id row.id "quotes"
        ++ lineage_edge rows row.reply_to_signal_item_id row.id "replies to")
      rows

-- The order of (posted_at or "9999", signal_item_id).
abbrev pub is_before : Option ℕ → ℕ → Option ℕ → ℕ → Bool
is_before none a none b = ltb a b
is_before none a (some t) b = false
is_before (some s) a none b = true
is_before (some s) a (some t) b = ltb s t || (s == t && ltb a b)

abbrev pub least_node : OriginNode → List OriginNode → OriginNode
least_node m [] = m
least_node m (n ∷ nodes) =
    least_node
      (if is_before n.posted_at n.signal_item_id m.posted_at m.signal_item_id then n else m) nodes

-- [n for n in nodes if n.is_origin] or nodes
abbrev pub or_all : List OriginNode → List OriginNode → List OriginNode
or_all [] nodes = nodes
or_all (n ∷ origins) nodes = n ∷ origins

-- none is the ValueError of min on no node.
abbrev pub least_of : List OriginNode → Option OriginNode
least_of [] = none
least_of (n ∷ nodes) = some (least_node n nodes)

abbrev pub graph_of : List OriginNode → List OriginEdge → ℕ → ℕ → Option OriginGraph
graph_of nodes edges confirmations echoes =
    least_of (or_all (filter (λ (n : OriginNode). n.is_origin) nodes) nodes) >>= λ origin.
    some (record {
      origin = some origin;
      nodes = nodes;
      edges = edges;
      independent_confirmations = confirmations;
      echoes = echoes;
    })

abbrev pub singleton_nodes : List ItemRow → List OriginNode
singleton_nodes = map (λ row. node row 0 true)

abbrev pub grouped_graph : List ItemRow → List GroupRow → Option OriginGraph
grouped_graph rows [] =
    graph_of (singleton_nodes rows) (lineage_edges rows) (length (singleton_nodes rows)) 0
grouped_graph rows (group ∷ groups) =
    let echoes = echo_edges (group ∷ groups) in
    group_nodes rows (group ∷ groups) >>= λ nodes.
    graph_of nodes (echoes ++ lineage_edges rows) (length (group ∷ groups)) (length echoes)

unfoldable pub build_origin_graph : List ItemRow → List GroupRow → Option OriginGraph
build_origin_graph [] groups =
    some
      (record { origin = none; nodes = []; edges = []; independent_confirmations = 0; echoes = 0 })
build_origin_graph (row ∷ rows) groups = grouped_graph (row ∷ rows) groups
