-- ===== src/NodePool/Reconcile.antt =====
-- Reconcile of pkg/yurtappmanager/controller/nodepool/nodepool_controller.go. All that it reads it
-- reads before its first write, so the three reads are its arguments.
pub mod Laws
pub mod Quiet
use yurt_app_manager.Prelude.{
  ℕ, Bool, true, false, Option, none, some, List, [], ◌∷◌, ◌++◌, String, Error, Result, ok, err,
  panic, if◌then◌else◌,
}
use yurt_app_manager.NodePool.Types.{Node, NodeCondition, NodePool, NodePoolStatus}
use yurt_app_manager.NodePool.Attributes.{Json, remove_pool_related_attrs, concilate_node}
use yurt_app_manager.NodePool.Status.{
  get_removed_nodes, count_nodes, node_names, appended, conciliate_node_pool_status,
}
use yurt_app_manager.Writes.{Server, Writes, pure, lift, send, ◌>>=◌, ◌>>◌}

pub data Write : Type 0 where
  write_node : Node → Write
  write_status : String → NodePoolStatus → Write

-- client.IgnoreNotFound
abbrev ignore_not_found : Error → Result (Unit {0})
ignore_not_found Error.not_found = ok tt
ignore_not_found e = err e

module _ (get_node_condition : List NodeCondition → String → Option NodeCondition)
    (sort : List String → List String) where
  -- The status that the nodes of the pool call for, and whether it is to be written.
  pub next_status : NodePool → List Node → NodePoolStatus × Bool
  next_status pool desired =
      let (ready, unready) = count_nodes get_node_condition 0 0 desired in
      conciliate_node_pool_status sort ready unready (appended (node_names desired)) pool.status

module _ (json : Json) (answer : Server Write) where
  -- The loop over the nodes that leave the pool.
  pub remove_nodes : List Node → Writes Write (Unit {0})
  remove_nodes [] = pure tt
  remove_nodes (node ∷ nodes) = do
    stripped ← lift (remove_pool_related_attrs json node)
    send answer (write_node stripped)
    remove_nodes nodes

  pub write_if : Bool → Write → Writes Write (Unit {0})
  write_if updated w = if updated then send answer w else pure tt

  -- The loop over the nodes of the pool.
  pub visit_nodes : NodePool → List Node → Writes Write (Unit {0})
  unfolding write_if
  visit_nodes pool [] = pure tt
  visit_nodes pool (node ∷ nodes) = do
    visited ← lift (concilate_node json pool node)
    write_if visited.1 (write_node visited.0)
    visit_nodes pool nodes

  module _ (get_node_condition : List NodeCondition → String → Option NodeCondition)
      (sort : List String → List String) where
    pub reconcile_found : NodePool → List Node → List Node → Writes Write (Unit {0})
    unfolding remove_nodes visit_nodes next_status
    reconcile_found pool desired current = do
      remove_nodes (get_removed_nodes current desired)
      visit_nodes pool desired
      let status = next_status get_node_condition sort pool desired
      write_if status.1 (write_status pool.name status.0)

    -- The reads: the pool, the nodes that wish to be in it, the nodes that are in it.
    pub reconcile :
        Result NodePool → Result (List Node) → Result (List Node) → Writes Write (Unit {0})
    unfolding reconcile_found
    reconcile (ok pool) (ok desired) (ok current) = reconcile_found pool desired current
    reconcile (ok pool) (ok desired) (err e) = lift (ignore_not_found e)
    reconcile (ok pool) (err e) current = lift (ignore_not_found e)
    reconcile (err e) desired current = lift (ignore_not_found e)
    reconcile _ _ _ = lift panic
