-- ===== src/Signals/Tests.antt =====
-- Concrete runs of semi_intel/signals/source_lifecycle.py.
use semiconductor_intelligen.Prelude.{
  ℕ, ◌+◌, ◌*◌, String, ◌≡◌, refl, true, false, not, ◌&&◌, Option, none, some, List, [], ◌∷◌, ◌++◌,
  map, arith, str_eq, ltb, length, any, filter, unique, sorted,
}
use semiconductor_intelligen.Signals.Aging.{
  Observation, Aged, CandidateAge, day, is_within, classify,
}
use semiconductor_intelligen.Signals.Origins.{ItemRow, GroupRow, OriginGraph, build_origin_graph}
use semiconductor_intelligen.Signals.Origins.Counted.{build_origin_graph-counted}
use semiconductor_intelligen.Signals.Aging.Copies.{classify-copies}
use semiconductor_intelligen.Signals.Aging.Current.{classify-current}
use semiconductor_intelligen.Signals.Independence.{
  Item, Groups, find_root, link, union, run_unions, index_from, find_all, group_items,
}
use semiconductor_intelligen.Signals.Independence.Grouping.{IsGrouping, group_items-IsGrouping}
use semiconductor_intelligen.Signals.Independence.Recompute.{
  GroupTables, SourceCounts, is_group_of, recompute_independence_groups, recompute-counted,
}
use semiconductor_intelligen.Prelude.Dict.{get, put}
use semiconductor_intelligen.Signals.Source.{
  Source, bool, stamp, object, metadata_delivery_admitted_at, metadata_delivery_admission_required,
  parse_iso, source_metadata, source_delivery_admitted_at, source_requires_delivery_admission,
  clear_collection_identity_watermarks, admit_source_for_delivery,
}
use semiconductor_intelligen.Signals.Admission.{
  SignalItem, item_is_baseline, item_is_delivery_admitted, source_is_admission_controlled, Rows,
  candidate_transition_has_admitted_material,
}
use semiconductor_intelligen.Signals.Admission.Transition.{row_id}
use semiconductor_intelligen.Signals.Lifecycle.{first_success, succeed, set_muted, run}
use semiconductor_intelligen.Signals.Lifecycle.Gate.{clear-fails_closed, admit-no_replay}
use semiconductor_intelligen.Signals.Watermark.{
  notification_seen_item_ids_key, auto_promotion_seen_item_ids_key, read_candidate_seen_item_ids,
  write_candidate_seen_item_ids,
}
use semiconductor_intelligen.Signals.Watermark.Isolation.{read-write_self, read-write_other}
use semiconductor_intelligen.Signals.Watermark.Consumed.{snapshot-consumes}
use semiconductor_intelligen.Signals.Registry.{hardware_source}

-- The feed as it is registered, and as it is once it is admitted at time 10.
abbrev feed : Source
feed = hardware_source 1

abbrev admitted_feed : Source
admitted_feed = record feed {
  muted = false;
  provider_metadata = object (
      (metadata_delivery_admission_required, bool true)
      ∷ (metadata_delivery_admitted_at, stamp 10)
      ∷ []);
}

abbrev item_at : ℕ → ℕ → SignalItem
item_at id time = record { id = id; source_id = 1; collected_at = some time }

clear-fails_closed_example :
    item_is_delivery_admitted (item_at 7 20) (
      run
        (succeed 12 ∷ set_muted false ∷ first_success 15 ∷ [])
        (clear_collection_identity_watermarks admitted_feed))
    ≡ false
unfolding source_requires_delivery_admission source_metadata get
clear-fails_closed_example =
    clear-fails_closed (item_at 7 20) (succeed 12 ∷ set_muted false ∷ first_success 15 ∷ [])
      admitted_feed refl refl

admit-no_replay_example :
    item_is_delivery_admitted (item_at 7 20) (admit_source_for_delivery 10 feed)
    ≡ (ltb 10 20 && not (item_is_baseline (item_at 7 20) feed))
unfolding source_delivery_admitted_at source_metadata get parse_iso
admit-no_replay_example = admit-no_replay 10 20 (item_at 7 20) feed refl refl

-- A member that was admitted, and one of the muted feed.
abbrev members : Rows
members = (item_at 7 20, admitted_feed) ∷ []

abbrev newcomers : Rows
newcomers = (item_at 8 25, feed) ∷ []

snapshot-consumes_example :
    candidate_transition_has_admitted_material
      (read_candidate_seen_item_ids notification_seen_item_ids_key 3 (
        write_candidate_seen_item_ids notification_seen_item_ids_key 3 true
          (map row_id members)
          []))
      (members ++ newcomers)
    ≡ false
unfolding source_is_admission_controlled source_requires_delivery_admission source_metadata get
    item_is_delivery_admitted
snapshot-consumes_example =
    snapshot-consumes notification_seen_item_ids_key 3 members newcomers [] refl (refl, tt)

read-write_self_example :
    read_candidate_seen_item_ids notification_seen_item_ids_key 3
      (write_candidate_seen_item_ids notification_seen_item_ids_key 3 true (9 ∷ 4 ∷ []) [])
    ≡ some (sorted (9 ∷ 4 ∷ []))
read-write_self_example = read-write_self notification_seen_item_ids_key 3 true (9 ∷ 4 ∷ []) []

read-write_other_example :
    read_candidate_seen_item_ids auto_promotion_seen_item_ids_key 3
      (write_candidate_seen_item_ids notification_seen_item_ids_key 3 true (9 ∷ 4 ∷ []) [])
    ≡ read_candidate_seen_item_ids auto_promotion_seen_item_ids_key 3 []
read-write_other_example =
    read-write_other notification_seen_item_ids_key auto_promotion_seen_item_ids_key 3 true
      (9 ∷ 4 ∷ []) [] refl

-- Items 1 and 3 share a URL, 4 answers 3, and 2 stands alone.
abbrev post : ℕ → Option String → Option ℕ → Item
post n url reply = record {
  id = n;
  source_id = n;
  author_handle = none;
  url = url;
  quoted_signal_item_id = none;
  reply_to_signal_item_id = reply;
  normalized_text = "";
  source_name = "feed";
  posted_at = some n;
}

abbrev posts : List Item
posts =
    post 1 (some "u") none
    ∷ post 2 (some "v") none
    ∷ post 3 (some "u") none
    ∷ post 4 none (some 3)
    ∷ []

group_items-posts :
    group_items (λ s. s) (λ s. s) str_eq (λ s. []) posts
    ≡ some (record {
      roots = (1, 4) ∷ (2, 2) ∷ (3, 4) ∷ (4, 4) ∷ [];
      reasons = (4, "lineage") ∷ (2, "independent") ∷ [];
    })
unfolding group_items run_unions union link find_root find_all index_from get put unique
group_items-posts = refl

group_items-IsGrouping_example :
    (groups : Groups) × (group_items (λ s. s) (λ s. s) str_eq (λ s. []) posts ≡ some groups)
    × IsGrouping (λ s. s) (λ s. s) str_eq (λ s. []) posts groups
group_items-IsGrouping_example = group_items-IsGrouping (λ s. s) (λ s. s) str_eq (λ s. []) posts

recompute-counted_example :
    (db : GroupTables) × (counts : SourceCounts) × (recompute_independence_groups
        (λ s. s)
        (λ s. s)
        str_eq
        (λ s. [])
        7
        posts
        (record { groups = []; members = []; next_id = 1 })
      ≡ some (db, counts))
    × (length (filter (is_group_of 7) db.groups) ≡ counts.independent_source_group_count)
    × (filter (λ group. not (is_group_of 7 group)) db.groups ≡ [])
recompute-counted_example =
    recompute-counted (λ s. s) (λ s. s) str_eq (λ s. []) 7 posts
      (record { groups = []; members = []; next_id = 1 })

-- A candidate with two groups, first reported at days 1 and 9, and the second one with a later copy.
abbrev seen_at : ℕ → Observation
seen_at n = record { posted_at = some (n * day); collected_at = none }

abbrev aged : List (List Observation) → Aged
aged groups = record {
  latest_observed_at = none;
  first_observed_at = none;
  created_at = 0;
  groups = groups;
  members = [];
}

abbrev two_groups : List (List Observation)
two_groups = (seen_at 1 ∷ []) ∷ (seen_at 9 ∷ []) ∷ []

classify-copies_example :
    classify (20 * day) 14 (aged ((seen_at 1 ∷ seen_at 19 ∷ []) ∷ (seen_at 9 ∷ []) ∷ []))
    ≡ classify (20 * day) 14 (aged two_groups)
classify-copies_example =
    classify-copies (20 * day) 14 (aged two_groups)
      (aged ((seen_at 1 ∷ seen_at 19 ∷ []) ∷ (seen_at 9 ∷ []) ∷ [])) [] ((seen_at 9 ∷ []) ∷ [])
      (seen_at 1 ∷ []) (seen_at 19) (19 * day, false) refl refl refl (omega arith)

classify-current_example :
    (age : CandidateAge) × (classify (20 * day) 14 (aged two_groups) ≡ some age)
    × (age.is_current
        ≡ any (is_within (20 * day) (14 * day)) ((1 * day, false) ∷ (9 * day, false) ∷ []))
classify-current_example = classify-current (20 * day) 14 (aged two_groups) refl

-- Item 2 quotes item 1 and stands in its group, and item 3 stands alone.
abbrev row_of : ℕ → Option ℕ → ItemRow
row_of n quoted = record {
  id = n;
  source_id = n;
  source_name = "feed";
  title = none;
  url = none;
  posted_at = some n;
  quoted_signal_item_id = quoted;
  reply_to_signal_item_id = none;
}

abbrev item_rows : List ItemRow
item_rows = row_of 1 none ∷ row_of 2 (some 1) ∷ row_of 3 none ∷ []

abbrev group_rows : List GroupRow
group_rows =
    record { id = 1; origin_signal_item_id = some 1; reason = "lineage"; member_ids = 1 ∷ 2 ∷ [] }
    ∷ record { id = 2; origin_signal_item_id = none; reason = "independent"; member_ids = 3 ∷ [] }
    ∷ []

build_origin_graph-counted_example :
    (graph : OriginGraph) × (build_origin_graph item_rows group_rows ≡ some graph)
    × (length graph.nodes ≡ graph.independent_confirmations + graph.echoes)
build_origin_graph-counted_example =
    build_origin_graph-counted item_rows group_rows
      (((1, refl, refl), (refl, (refl, tt))), (((3, refl, refl), (refl, tt)), tt))
