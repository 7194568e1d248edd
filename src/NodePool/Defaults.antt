-- ===== src/NodePool/Defaults.antt =====
-- createNodePool and createDefaultNodePool of
-- pkg/yurtappmanager/controller/nodepool/nodepool_controller.go, which run beside the controller when
-- it starts. `create` and `sleep` are calls over a world `W`.
pub mod Present
mod Examples
use yurt_app_manager.Prelude.{
  ℕ, zero, suc, Bool, true, false, Option, none, some, String, Error, if◌then◌else◌,
}
use yurt_app_manager.NodePool.Types.{NodePoolType, NodePool}

-- A new pool with a name and a type.
abbrev pub new_pool : String → NodePoolType → NodePool
new_pool name pool_type = record {
  name = name;
  spec = record { kind = pool_type; labels = none; annotations = none; taints = none };
  status = record { ready_node_num = 0; unready_node_num = 0; nodes = none };
}

abbrev pub default_edge_node_pool_name : String
default_edge_node_pool_name = "default-edge-nodepool"

abbrev pub default_cloud_node_pool_name : String
default_cloud_node_pool_name = "default-nodepool"

abbrev pub is_already_exists : Error → Bool
is_already_exists Error.already_exists = true
is_already_exists _ = false

module _ {W : Type 0} (create : NodePool → W → Option Error × W) (sleep : W → W) where
  -- The attempts that are left: whether the pool was created.
  unfoldable pub attempts : ℕ → NodePool → W → Bool × W
  attempts zero pool w = (false, w)
  attempts (suc n) pool w =
      let (e, w1) = create pool w in
      let again = attempts n pool (sleep w1) in
      elim e [ none ↦ (true, w1) | some x ↦ if is_already_exists x then (false, w1) else again ]

  unfoldable pub create_node_pool : String → NodePoolType → W → Bool × W
  unfolding attempts
  create_node_pool name pool_type w = attempts 5 (new_pool name pool_type) w

  unfoldable pub create_default_node_pool : W → W
  unfolding create_node_pool
  create_default_node_pool w =
      let edge = create_node_pool default_edge_node_pool_name NodePoolType.edge w in
      (create_node_pool default_cloud_node_pool_name NodePoolType.cloud edge.1).1
