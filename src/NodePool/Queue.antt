-- ===== src/NodePool/Queue.antt =====
-- EnqueueNodePoolForNode of
-- pkg/yurtappmanager/controller/nodepool/nodepool_enqueue_handlers.go: the names of the pools that
-- an event on a node puts on the work queue.
use yurt_app_manager.Prelude.{
  Bool, Option, none, some, List, [], ◌∷◌, ◌==◌, ◌||◌, not, String, get, value_of, has, ◌≡◌, ◌≢◌,
  arith, eq_iff, if◌then◌else◌,
}
use yurt_app_manager.NodePool.Types.{
  Node, NodeCondition, label_desired_node_pool, label_current_node_pool,
}
use yurt_app_manager.NodePool.Attributes.{equal_maps, equal_slices}
use yurt_app_manager.NodePool.Status.{is_node_ready}

pub on_create : Node → List String
on_create node = elim (get node.labels label_desired_node_pool) [ none ↦ [] | some np ↦ np ∷ [] ]

pub on_delete : Node → List String
on_delete node =
    let np = value_of node.labels label_current_node_pool in if np == "" then [] else np ∷ []

module _ (get_node_condition : List NodeCondition → String → Option NodeCondition) where
  same_ready : Node → Node → Bool
  same_ready new old =
      let b = is_node_ready get_node_condition old in
      if is_node_ready get_node_condition new then b else not b

  pub on_update : Node → Node → List String
  unfolding same_ready
  on_update old new =
      let new_np = value_of new.labels label_desired_node_pool in
      let old_np = value_of old.labels label_current_node_pool in
      if not (new_np == old_np)
      then if new_np == ""
        then old_np ∷ []
        else if old_np == ""
        then new_np ∷ []
        else old_np ∷ new_np ∷ []
      else if not (same_ready new old)
      then new_np ∷ []
      else if not (equal_maps new.labels old.labels)
          || not (equal_maps new.annotations old.annotations)
          || not (equal_slices new.taints old.taints)
      then new_np ∷ []
      else []

  -- A node that wishes for another pool than the one that it was in: an update of it queues the two
  -- pools as far as they have a name, and no other pool.
  pub has-on_update :
      (old new : Node) (pool : String)
      → value_of new.labels label_desired_node_pool ≢ value_of old.labels label_current_node_pool
      → pool ≢ ""
      → has pool (on_update old new) ≡ (
          value_of old.labels label_current_node_pool == pool
          || value_of new.labels label_desired_node_pool == pool)
  unfolding on_update
  has-on_update old new pool moved named = ground (
    arith,
    eq_iff (value_of new.labels label_desired_node_pool)
        (value_of old.labels label_current_node_pool),
    eq_iff (value_of new.labels label_desired_node_pool) "",
    eq_iff (value_of old.labels label_current_node_pool) "",
    eq_iff (value_of old.labels label_current_node_pool) pool,
    eq_iff (value_of new.labels label_desired_node_pool) pool,
  )
