-- ===== src/Ingress.antt =====
-- The YurtIngress controller (pkg/yurtappmanager/controller/yurtingress/yurtingress_controller.go):
-- its types and the functions on pools; the children have the reconciliation and the status.
pub mod PoolsDiff
pub mod Addresses
pub mod Steps
pub mod Reconcile
mod Examples
use yurt_app_manager.Prelude.{
  ℕ, zero, suc, ◌-◌, Bool, true, false, Option, none, some, List, [], ◌∷◌, ◌++◌, ◌==◌, ◌&&◌, String,
  GoSlice, items, is_empty, if◌then◌else◌,
}

pub record IngressPool : Type 0 where
  pub name : String
  pub ingress_ips : List String

pub record ConditionInfo : Type 0 where
  pub kind : String
  pub last_transition_time : ℕ
  pub reason : String
  pub message : String

pub record IngressNotReadyPool : Type 0 where
  pub pool : IngressPool
  pub info : Option ConditionInfo

pub record Status : Type 0 where
  pub replicas : ℕ
  pub ready_num : ℕ
  pub unready_num : ℕ
  pub ingress_controller_image : String
  pub ingress_webhook_cert_gen_image : String
  pub ready_pools : GoSlice IngressPool
  pub not_ready_pools : GoSlice IngressNotReadyPool

pub record YurtIngress : Type 0 where
  pub name : String
  pub deleting : Bool
  pub has_finalizer : Bool
  pub replicas : ℕ
  pub ingress_controller_image : String
  pub ingress_webhook_cert_gen_image : String
  pub pools : GoSlice IngressPool
  pub status : Status

pub is_str_array_equal : List String → List String → Bool
is_str_array_equal [] [] = true
is_str_array_equal [] (t ∷ ts) = false
is_str_array_equal (s ∷ ss) [] = false
is_str_array_equal (s ∷ ss) (t ∷ ts) = s == t && is_str_array_equal ss ts

abbrev pub pool_named : String → List IngressPool → Option IngressPool
pool_named s [] = none
pool_named s (p ∷ ps) = if p.name == s then some p else pool_named s ps

abbrev pub known_in : List IngressPool → List IngressPool → List IngressPool
known_in others [] = []
known_in others (p ∷ ps) =
    let rest = known_in others ps in
    elim (pool_named p.name others) [ none ↦ rest | some _ ↦ p ∷ rest ]

abbrev pub unknown_in : List IngressPool → List IngressPool → List IngressPool
unknown_in others [] = []
unknown_in others (p ∷ ps) =
    let rest = unknown_in others ps in
    elim (pool_named p.name others) [ none ↦ p ∷ rest | some _ ↦ rest ]

-- Added, removed, unchanged. An empty slice is `nil`, since all three are only appended to.
unfoldable pub get_pools :
    List IngressPool → List IngressPool → List IngressPool × List IngressPool × List IngressPool
get_pools desired current =
    (unknown_in current desired, unknown_in desired current, known_in current desired)

abbrev pub pools_of : List IngressNotReadyPool → List IngressPool
pools_of [] = []
pools_of (p ∷ ps) = p.pool ∷ pools_of ps

unfoldable pub get_current_pools : YurtIngress → List IngressPool
get_current_pools ying =
    items ying.status.ready_pools ++ pools_of (items ying.status.not_ready_pools)

unfoldable pub get_desired_pool : YurtIngress → String → Option IngressPool
get_desired_pool ying s = pool_named s (items ying.pools)

pub get_current_pool : YurtIngress → String → Option IngressPool
unfolding get_current_pools
get_current_pool ying s = pool_named s (get_current_pools ying)

abbrev pub remove_ready : String → List IngressPool → List IngressPool
remove_ready s [] = []
remove_ready s (p ∷ ps) = let rest = remove_ready s ps in if p.name == s then ps else p ∷ rest

abbrev pub remove_not_ready : String → List IngressNotReadyPool → List IngressNotReadyPool
remove_not_ready s [] = []
remove_not_ready s (p ∷ ps) =
    let rest = remove_not_ready s ps in if p.pool.name == s then ps else p ∷ rest

-- The first pool of that name goes, the ready ones first: the status, and whether there was one. The
-- numbers, which are never negative here, are not counted below 0.
unfoldable pub remove_pool_from_condition : Status → String → Status × Bool
remove_pool_from_condition status s = elim (pool_named s (items status.ready_pools)) [
  | some _ ↦ (
    record status {
      ready_pools = some (remove_ready s (items status.ready_pools));
      ready_num = status.ready_num - 1;
    },
    true,
  )
  | none ↦ elim (pool_named s (pools_of (items status.not_ready_pools))) [
    | some _ ↦ (
      record status {
        not_ready_pools = some (remove_not_ready s (items status.not_ready_pools));
        unready_num = status.unready_num - 1;
      },
      true,
    )
    | none ↦ (status, false)
  ]
]

-- A deployment, with the pool of its label; its conditions have the fields of ConditionInfo.
pub record Deployment : Type 0 where
  pub pool : String
  pub ready_replicas : ℕ
  pub conditions : List ConditionInfo

-- The last condition tells.
pub get_unready_deployment_condition : List ConditionInfo → Option ConditionInfo
get_unready_deployment_condition [] = none
get_unready_deployment_condition (c ∷ []) =
    some (record c { kind = if c.kind == "ReplicaFailure" then "Failure" else "Pending" })
get_unready_deployment_condition (c ∷ d ∷ cs) = get_unready_deployment_condition (d ∷ cs)
