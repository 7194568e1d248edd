-- ===== src/NodePool/Defaults/Examples.antt =====
-- A server whose world is the names of its pools, for the theorem about the default pools.
use yurt_app_manager.Prelude.{
  Bool, true, Option, none, some, List, [], ◌∷◌, String, Error, has, ◌≡◌, ◌⊎◌, arith, eq_refl,
  if◌then◌else◌,
}
use yurt_app_manager.NodePool.Types.{NodePoolType, NodePool}
use yurt_app_manager.NodePool.Defaults.{
  new_pool, create_node_pool, create_default_node_pool, default_edge_node_pool_name,
  default_cloud_node_pool_name,
}
use yurt_app_manager.NodePool.Defaults.Present.{IsLawful, AllFail, create_default_node_pool-present}

abbrev present : List String → String → Bool
present w s = has s w

abbrev create : NodePool → List String → Option Error × List String
create p w = if has p.name w then (some Error.already_exists, w) else (none, p.name ∷ w)

abbrev sleep : List String → List String
sleep w = w

create-IsLawful : IsLawful present create sleep
create-IsLawful = record {
  created = λ p w h. ground (arith, eq_refl p.name);
  exists = λ p w e h j. ground (arith, eq_refl p.name);
  keeps = λ p w s h. ground arith;
  sleeps = λ w s h. h;
}

create_default_node_pool-present_example :
    ((present (create_default_node_pool create sleep ("a" ∷ [])) default_edge_node_pool_name ≡ true)
      ⊎ AllFail present create sleep 5
          (new_pool default_edge_node_pool_name NodePoolType.edge)
          ("a" ∷ []))
    × ((present (create_default_node_pool create sleep ("a" ∷ [])) default_cloud_node_pool_name
          ≡ true)
        ⊎ AllFail present create sleep 5
            (new_pool default_cloud_node_pool_name NodePoolType.cloud)
            (create_node_pool create sleep default_edge_node_pool_name NodePoolType.edge
              ("a" ∷ [])).1)
create_default_node_pool-present_example =
    create_default_node_pool-present present create sleep ("a" ∷ []) create-IsLawful
