-- ===== src/Daemon.antt =====
-- The YurtAppDaemon controller (pkg/yurtappmanager/controller/yurtappdaemon): the workloads of the
-- node pools. The sources are yurtappdaemon_controller.go, util.go, nodepool_enqueue_handlers.go and
-- workloadcontroller/{workload,util}.go. TolerationsTolerateTaint of k8s.io is the parameter
-- `tolerates`; the conditions are set as in AppSet.Conditions, whose code is the same.
pub mod Classification
pub mod Manage
pub mod Revision
pub mod Reconcile
pub mod Deployments
pub mod Examples
use yurt_app_manager.Prelude.{
  ℕ, zero, suc, Bool, true, false, Option, none, some, List, [], ◌∷◌, ◌++◌, ◌==◌, ◌&&◌, not, String,
  Error, Result, ok, err, panic, GoMap, lookup, insert, value_of, is_empty, if◌then◌else◌,
}
use yurt_app_manager.NodePool.Types.{Taint}

pub record Toleration : Type 0 where
  pub key : String
  pub operator : String
  pub value : String
  pub effect : String

pub record Workload : Type 0 where
  pub name : String
  pub namespace : String
  pub labels : GoMap String
  pub annotations : GoMap String
  pub tolerations : List Toleration
  pub node_selector : GoMap String

pub record NodePool : Type 0 where
  pub name : String
  pub taints : List Taint

abbrev pub label_current_node_pool : String
label_current_node_pool = "apps.openyurt.io/nodepool"

pub get_revision : Workload → String
get_revision w = value_of w.labels "apps.openyurt.io/controller-revision-hash"

pub get_node_pool_name : Workload → String
get_node_pool_name w = value_of w.annotations "apps.openyurt.io/ref-nodepool"

pub create_node_selector_by_nodepool_name : String → GoMap String
create_node_selector_by_nodepool_name pool = some ((label_current_node_pool, pool) ∷ [])

unfoldable pub taints_to_tolerations : List Taint → List Toleration
taints_to_tolerations [] = []
taints_to_tolerations (t ∷ ts) =
    record { key = t.key; operator = "Exists"; value = ""; effect = t.effect }
    ∷ taints_to_tolerations ts

-- reflect.DeepEqual of a map with the map of one entry.
abbrev pub is_selector_of : GoMap String → String → Bool
is_selector_of none pool = false
is_selector_of (some []) pool = false
is_selector_of (some ((k, v) ∷ [])) pool = k == label_current_node_pool && v == pool
is_selector_of (some ((k, v) ∷ _ ∷ _)) pool = false

module _ (tolerates : List Toleration → Taint → Bool) where
  pub is_tolerations_all_taints : List Toleration → List Taint → Bool
  is_tolerations_all_taints tolerations [] = true
  is_tolerations_all_taints tolerations (t ∷ ts) =
      tolerates tolerations t && is_tolerations_all_taints tolerations ts

  -- `match` of classifyWorkloads.
  pub is_current : String → String → Workload → NodePool → Bool
  unfolding is_tolerations_all_taints get_revision
  is_current expected name load pool =
      is_selector_of load.node_selector name
      && is_tolerations_all_taints load.tolerations pool.taints
      && get_revision load == expected

  pub needs_delete : List (String × NodePool) → List (String × Workload) → List Workload
  needs_delete pools [] = []
  needs_delete pools ((name, load) ∷ loads) =
      let rest = needs_delete pools loads in
      elim (lookup name pools) [ none ↦ load ∷ rest | some _ ↦ rest ]

  pub needs_update : String → List (String × NodePool) → List (String × Workload) → List Workload
  unfolding is_current
  needs_update expected pools [] = []
  needs_update expected pools ((name, load) ∷ loads) =
      let rest = needs_update expected pools loads in
      elim (lookup name pools) [
        | none ↦ rest
        | some pool ↦ if is_current expected name load pool then rest else load ∷ rest
      ]

  pub needs_create : List (String × Workload) → List (String × NodePool) → List String
  needs_create loads [] = []
  needs_create loads ((name, _) ∷ pools) =
      let rest = needs_create loads pools in
      elim (lookup name loads) [ none ↦ name ∷ rest | some _ ↦ rest ]

  -- The workloads to delete and to update, and the names of the pools to create one for.
  pub classify_workloads :
      String
      → List (String × Workload)
      → List (String × NodePool)
      → List Workload × List Workload × List String
  unfolding needs_delete needs_update needs_create
  classify_workloads expected loads pools =
      (needs_delete pools loads, needs_update expected pools loads, needs_create loads pools)

abbrev pub index_pools : List (String × NodePool) → List NodePool → List (String × NodePool)
index_pools m [] = m
index_pools m (p ∷ ps) = index_pools (insert p.name p m) ps

-- `selector` is the error of the selector, if it is not one. A failed list of the node pools is
-- answered with no pools, and no error.
unfoldable pub get_name_to_node_pools :
    Option Error → Result (List NodePool) → Result (List (String × NodePool))
get_name_to_node_pools (some e) listed = err e
get_name_to_node_pools none (ok pools) = ok (index_pools [] pools)
get_name_to_node_pools none (err e) = ok []
get_name_to_node_pools none panic = panic

abbrev pub index_workloads : List (String × Workload) → List Workload → List (String × Workload)
index_workloads m [] = m
index_workloads m (w ∷ ws) =
    if get_node_pool_name w == ""
    then index_workloads m ws
    else index_workloads (insert (get_node_pool_name w) w m) ws

pub get_node_pool_to_workload : Result (List Workload) → Result (List (String × Workload))
get_node_pool_to_workload (ok loads) = ok (index_workloads [] loads)
get_node_pool_to_workload (err e) = err e
get_node_pool_to_workload panic = panic

-- The requests for all the daemons, where they can be listed.
pub add_all_yurt_app_daemon_to_work_queue :
    Result (List (String × String)) → List (String × String) → List (String × String)
add_all_yurt_app_daemon_to_work_queue (ok daemons) queue = queue ++ daemons
add_all_yurt_app_daemon_to_work_queue (err e) queue = queue
add_all_yurt_app_daemon_to_work_queue panic queue = queue
