-- ===== src/NodePool/Examples.antt =====
-- A pool and its nodes, for the theorems about node pools.
use yurt_app_manager.Prelude.{
  true, false, Option, none, some, List, [], ◌∷◌, ◌++◌, ◌==◌, not, String, Error, ok, ◌≡◌, ◌≢◌, ◌↔◌,
  refl, arith, eq_iff, All, get, items, ◌+◌, if◌then◌else◌,
}
use yurt_app_manager.NodePool.Types.{
  Taint, Node, NodeCondition, NodePool, NodePoolType, NodePoolRelatedAttributes,
  annotation_prev_attrs, label_current_node_pool,
}
use yurt_app_manager.NodePool.Taints.{conciliate_taints}
use yurt_app_manager.NodePool.Taints.Unique.{IsUnique, unmentioned, Fresh}
use yurt_app_manager.NodePool.Taints.RoundTrip.{conciliate_taints-IsUnique_iff}
use yurt_app_manager.NodePool.Attributes.{
  Json, attributes, deep_equal, concilate_node, remove_pool_related_attrs,
}
use yurt_app_manager.NodePool.Attributes.Lookups.{or_else, unless}
use yurt_app_manager.NodePool.Attributes.Membership.{
  concilate_node_joins, concilate_node_follows_change,
}
use yurt_app_manager.NodePool.Attributes.Repeated.{
  concilate_node_twice, concilate_node_never_settles, Writes,
  remove_pool_related_attrs-concilate_node,
}
use yurt_app_manager.NodePool.Status.{get_removed_nodes, count_nodes, is_node_ready}
use yurt_app_manager.NodePool.Status.Laws.{count_nodes_exact, number}
use yurt_app_manager.NodePool.Reconcile.{reconcile, next_status, Write}
use yurt_app_manager.NodePool.Reconcile.Laws.{
  reconcile_writes, visited_nodes, removal_plan, visit_plan, status_plan,
}
use yurt_app_manager.NodePool.Reconcile.Quiet.{reconcile_quiet}
use yurt_app_manager.Writes.{Server}

abbrev key_taint : String → Taint
key_taint k = record { key = k; value = ""; effect = "NoSchedule"; time_added = none }

abbrev edge_pool : NodePool
edge_pool = record {
  name = "edge";
  spec = record {
    kind = NodePoolType.edge;
    labels = some (("zone", "a") ∷ []);
    annotations = none;
    taints = some (key_taint "pool" ∷ []);
  };
  status = record { ready_node_num = 0; unready_node_num = 0; nodes = none };
}

abbrev old_attributes : NodePoolRelatedAttributes
old_attributes = record { labels = some (("old", "b") ∷ []); annotations = none; taints = none }

-- A marshaller that knows two texts.
abbrev two_texts : Json
two_texts = record {
  marshal = λ a. some "edge";
  unmarshal = λ s. if s == "old" then some old_attributes else some (attributes edge_pool);
}

abbrev plain_node : Node
plain_node = record {
  name = "n1";
  labels = none;
  annotations = none;
  taints = some (key_taint "own" ∷ []);
  conditions = [];
}

abbrev known_node : Node
known_node = record plain_node {
  annotations = some ((annotation_prev_attrs, "old") ∷ []);
  labels = some (("old", "b") ∷ []);
}

conciliate_taints-IsUnique_iff_example :
    IsUnique
      (conciliate_taints (key_taint "pool" ∷ []) (key_taint "own" ∷ []) (key_taint "own" ∷ []))
    ↔ All
        (λ t. Fresh t (key_taint "own" ∷ []))
        (unmentioned (key_taint "pool" ∷ []) (key_taint "own" ∷ []))
conciliate_taints-IsUnique_iff_example =
    conciliate_taints-IsUnique_iff (key_taint "pool" ∷ []) (key_taint "own" ∷ [])
      (key_taint "own" ∷ []) (tt, tt) (tt, tt)

edge_named : edge_pool.name ≢ ""
edge_named h = cc ((eq_iff "edge" "").1 h)

concilate_node_joins_example :
    (joined : Node) × (concilate_node two_texts edge_pool plain_node ≡ ok (joined, true))
    × ((j : String)
        → get joined.labels j ≡ (
            if label_current_node_pool == j
            then some "edge"
            else or_else (get edge_pool.spec.labels j) (get plain_node.labels j)))
    × ((j : String)
        → get joined.annotations j ≡ (
            if annotation_prev_attrs == j
            then some "edge"
            else or_else (get edge_pool.spec.annotations j) (get plain_node.annotations j)))
    × (items joined.taints
        ≡ unmentioned (items edge_pool.spec.taints) (items plain_node.taints)
          ++ items edge_pool.spec.taints)
concilate_node_joins_example =
    concilate_node_joins two_texts edge_pool plain_node edge_named "edge" refl refl (tt, tt)
      (tt, tt)

concilate_node_follows_change_example :
    (changed : Node) × (concilate_node two_texts edge_pool known_node ≡ ok (changed, true))
    × ((j : String)
        → get changed.labels j ≡ (
            if label_current_node_pool == j
            then some "edge"
            else or_else
                (get edge_pool.spec.labels j)
                (unless (get old_attributes.labels j) (get known_node.labels j))))
    × ((j : String)
        → get changed.annotations j ≡ (
            if annotation_prev_attrs == j
            then some "edge"
            else or_else
                (get edge_pool.spec.annotations j)
                (unless (get old_attributes.annotations j) (get known_node.annotations j))))
    × (items changed.taints
        ≡ unmentioned (items old_attributes.taints) (items known_node.taints)
          ++ items edge_pool.spec.taints)
unfolding deep_equal
concilate_node_follows_change_example =
    concilate_node_follows_change two_texts edge_pool known_node edge_named "old" "edge"
      old_attributes refl refl refl refl (tt, tt)

remove_pool_related_attrs-concilate_node_example :
    (joined left : Node) × (concilate_node two_texts edge_pool plain_node ≡ ok (joined, true))
    × (remove_pool_related_attrs two_texts joined ≡ ok left)
    × ((j : String)
        → get left.labels j ≡ (
            if label_current_node_pool == j
            then none
            else unless (get edge_pool.spec.labels j) (get plain_node.labels j)))
    × ((j : String)
        → get left.annotations j ≡ (
            if annotation_prev_attrs == j
            then none
            else unless (get edge_pool.spec.annotations j) (get plain_node.annotations j)))
    × (items left.taints ≡ unmentioned (items edge_pool.spec.taints) (items plain_node.taints))
remove_pool_related_attrs-concilate_node_example =
    remove_pool_related_attrs-concilate_node two_texts edge_pool plain_node "edge"
      (attributes edge_pool) edge_named refl refl refl (λ j. refl) (λ j. refl) refl (refl, tt) tt
      (tt, tt) (tt, tt)

abbrev empty_labels_pool : NodePool
empty_labels_pool = record edge_pool { spec = record edge_pool.spec { labels = some [] } }

-- The texts leave empty labels out.
abbrev leaves_out : Json
leaves_out = record {
  marshal = λ a. some "new";
  unmarshal = λ s. some (record { labels = none; annotations = none; taints = none });
}

concilate_node_never_settles_example : Writes leaves_out empty_labels_pool 3 plain_node
concilate_node_never_settles_example =
    concilate_node_never_settles leaves_out empty_labels_pool "new"
      (record { labels = none; annotations = none; taints = none }) refl refl refl refl 3 plain_node
      refl

abbrev no_condition : List NodeCondition → String → Option NodeCondition
no_condition cs s = none

count_nodes_exact_example :
    ((count_nodes no_condition 0 0 (plain_node ∷ [])).0
      ≡ 0 + number (is_node_ready no_condition) (plain_node ∷ []))
    × ((count_nodes no_condition 0 0 (plain_node ∷ [])).1
        ≡ 0 + number (λ n. not (is_node_ready no_condition n)) (plain_node ∷ []))
count_nodes_exact_example = count_nodes_exact no_condition (plain_node ∷ []) 0 0 (omega arith)

joins_once : (joined : Node) × (concilate_node two_texts edge_pool plain_node ≡ ok (joined, true))
joins_once =
    let (joined, done, _, _, _) =
      concilate_node_joins two_texts edge_pool plain_node edge_named "edge" refl refl (tt, tt)
        (tt, tt) in
    (joined, done)

concilate_node_twice_example :
    concilate_node two_texts edge_pool joins_once.0 ≡ ok (joins_once.0, false)
unfolding deep_equal
concilate_node_twice_example =
    concilate_node_twice two_texts edge_pool "edge" (attributes edge_pool) refl refl refl plain_node
      joins_once.0 true joins_once.1

abbrev refuses : Server Write
refuses log w = some Error.conflict

abbrev settled_pool : NodePool
settled_pool = record edge_pool {
  status = (next_status no_condition (λ l. l) edge_pool (plain_node ∷ [])).0;
}

visited_once : visited_nodes two_texts edge_pool (plain_node ∷ []) ≡ ok (joins_once.0 ∷ [])
visited_once = rw joins_once.1 refl

reconcile_quiet_example :
    reconcile two_texts refuses no_condition
      (λ l. l)
      (ok settled_pool)
      (ok (joins_once.0 ∷ []))
      (ok [])
      []
    ≡ (ok tt, [])
unfolding deep_equal get_removed_nodes
reconcile_quiet_example =
    reconcile_quiet two_texts edge_pool "edge" (attributes edge_pool) no_condition (λ l. l) refuses
      (plain_node ∷ []) (joins_once.0 ∷ []) [] refl refl refl (λ l. refl) visited_once refl

runs_quietly :
    reconcile two_texts refuses no_condition
      (λ l. l)
      (ok settled_pool)
      (ok (joins_once.0 ∷ []))
      (ok [])
      []
    ≡ (ok tt, [])
unfolding deep_equal get_removed_nodes
runs_quietly =
    reconcile_quiet two_texts edge_pool "edge" (attributes edge_pool) no_condition (λ l. l) refuses
      (plain_node ∷ []) (joins_once.0 ∷ []) [] refl refl refl (λ l. refl) visited_once refl

reconcile_writes_example :
    (removals visits : List Write) × (removal_plan two_texts
        (get_removed_nodes [] (joins_once.0 ∷ []))
      ≡ ok removals)
    × (visit_plan two_texts settled_pool (joins_once.0 ∷ []) ≡ ok visits)
    × ([]
        ≡ (removals ++ visits)
          ++ status_plan two_texts refuses no_condition (λ l. l) settled_pool (joins_once.0 ∷ []))
reconcile_writes_example =
    reconcile_writes two_texts refuses no_condition (λ l. l) settled_pool (joins_once.0 ∷ []) [] []
      runs_quietly
