-- ===== src/AppSet/Types.antt =====
-- pkg/yurtappmanager/apis/apps/v1alpha1/yurtappset_types.go and pool.go of
-- pkg/yurtappmanager/controller/yurtappset, as far as the controller reads and writes them.
use yurt_app_manager.Prelude.{ℕ, ℤ, Bool, String, Option, List, GoMap}

pub record Condition : Type 0 where
  pub kind : String
  pub status : String
  pub last_transition_time : ℕ
  pub reason : String
  pub message : String

-- An entry of the topology; the patch is its raw text.
pub record PoolConfig : Type 0 where
  pub name : String
  pub replicas : Option ℕ
  pub patch : Option String

-- What a pool's workload shows of itself.
pub record Workload : Type 0 where
  pub name : String
  pub namespace : String
  pub labels : GoMap String
  pub annotations : GoMap String
  pub replicas : Option ℕ
  pub ready_replicas : ℕ
  pub observed_generation : ℕ

pub record Pool : Type 0 where
  pub name : String
  pub namespace : String
  pub pool_ref : Workload
  pub observed_generation : ℕ
  pub replicas : ℕ
  pub ready_replicas : ℕ
  pub patch_info : String

pub record YurtAppSetPatches : Type 0 where
  pub replicas : ℕ
  pub patch : String

-- A pointer to an `int32`: where it points, and what stands there.
pub record Int32Pointer : Type 0 where
  pub address : ℕ
  pub value : ℕ

pub record YurtAppSetStatus : Type 0 where
  pub observed_generation : ℕ
  pub collision_count : Option Int32Pointer
  pub current_revision : String
  pub conditions : List Condition
  pub pool_replicas : GoMap ℕ
  pub ready_replicas : ℕ
  pub replicas : ℕ
  pub template_type : String

pub record YurtAppSet : Type 0 where
  pub name : String
  pub namespace : String
  pub generation : ℕ
  pub deleting : Bool
  pub has_stateful_set_template : Bool
  pub has_deployment_template : Bool
  -- the labels of the templates, where there are such
  pub stateful_set_labels : GoMap String
  pub deployment_labels : GoMap String
  pub pools : List PoolConfig
  pub revision_history_limit : Option ℤ
  pub status : YurtAppSetStatus
