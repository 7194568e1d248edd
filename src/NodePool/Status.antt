-- ===== src/NodePool/Status.antt =====
-- getRemovedNodes, isNodeReady, the counting loop of Reconcile and conciliateNodePoolStatus of
-- pkg/yurtappmanager/controller/nodepool/nodepool_controller.go.
pub mod Laws
use yurt_app_manager.Prelude.{
  ℕ, Bool, true, false, Option, none, some, List, [], ◌∷◌, ◌++◌, ◌==◌, ◌&&◌, ◌||◌, not, String,
  GoSlice, items, eqb, add32, if◌then◌else◌,
}
use yurt_app_manager.NodePool.Types.{Node, NodeCondition, NodePool, NodePoolStatus}

-- The inner loop of getRemovedNodes.
pub found_by_name : String → List Node → Bool
found_by_name name [] = false
found_by_name name (d ∷ ds) = name == d.name || found_by_name name ds

unfoldable pub get_removed_nodes : List Node → List Node → List Node
unfolding found_by_name
get_removed_nodes [] desired = []
get_removed_nodes (m ∷ ms) desired =
    let rest = get_removed_nodes ms desired in
    if found_by_name m.name desired then rest else m ∷ rest

-- `get_node_condition` stands for GetNodeCondition of Kubernetes's node utilities: the condition of
-- a kind, if the node has it. `sort` stands for sort.Strings.
module _ (get_node_condition : List NodeCondition → String → Option NodeCondition) where
  pub is_node_ready : Node → Bool
  is_node_ready node = elim (get_node_condition node.conditions "Ready") [
    | none ↦ false
    | some c ↦ c.status == "True"
  ]

  -- The two `int32` counters of Reconcile's loop, from their values so far.
  pub count_nodes : ℕ → ℕ → List Node → ℕ × ℕ
  unfolding is_node_ready
  count_nodes ready unready [] = (ready, unready)
  count_nodes ready unready (node ∷ nodes) =
      count_nodes (if is_node_ready node then add32 ready 1 else ready)
        (if is_node_ready node then unready else add32 unready 1) nodes

abbrev pub node_names : List Node → List String
node_names [] = []
node_names (n ∷ ns) = n.name ∷ node_names ns

-- `append` in a loop from the `nil` slice.
abbrev pub appended {ℓ} : {A : Type ℓ} → List A → GoSlice A
appended [] = none
appended (x ∷ xs) = some (x ∷ xs)

abbrev equal_names : List String → List String → Bool
equal_names [] [] = true
equal_names (a ∷ as') (b ∷ bs) = a == b && equal_names as' bs
equal_names _ _ = false

-- reflect.DeepEqual of two slices of texts.
abbrev pub equal_string_slices : GoSlice String → GoSlice String → Bool
equal_string_slices none none = true
equal_string_slices (some a) (some b) = equal_names a b
equal_string_slices _ _ = false

-- sort.Strings works in place and leaves `nil` as it is.
abbrev pub sort_slice : (List String → List String) → GoSlice String → GoSlice String
sort_slice sort none = none
sort_slice sort (some l) = some (sort l)

-- The status to write, and whether it has to be written.
pub conciliate_node_pool_status :
    (List String → List String) → ℕ → ℕ → GoSlice String → NodePoolStatus → NodePoolStatus × Bool
conciliate_node_pool_status sort ready unready nodes status =
    let sorted = sort_slice sort nodes in
    let old = sort_slice sort status.nodes in
    let same_nodes = equal_string_slices sorted old in
    (
      record {
        ready_node_num =
            if not (eqb ready status.ready_node_num) then ready else status.ready_node_num;
        unready_node_num =
            if not (eqb unready status.unready_node_num) then unready else status.unready_node_num;
        nodes = if not same_nodes then sorted else old;
      },
      not (eqb ready status.ready_node_num)
          || not (eqb unready status.unready_node_num)
          || not same_nodes,
    )
