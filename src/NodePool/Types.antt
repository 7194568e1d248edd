-- ===== src/NodePool/Types.antt =====
-- pkg/yurtappmanager/apis/apps/v1alpha1/nodepool_types.go, the attributes of nodepool_controller.go,
-- and what the controller reads and writes of a Kubernetes node. `none` is `nil`.
use yurt_app_manager.Prelude.{ℕ, String, Option, List, GoMap, GoSlice}

-- Two taints are told apart by key and effect; `time_added` is a time stamp.
pub record Taint : Type 0 where
  pub key : String
  pub value : String
  pub effect : String
  pub time_added : Option ℕ

pub record NodeCondition : Type 0 where
  pub kind : String
  pub status : String

pub record Node : Type 0 where
  pub name : String
  pub labels : GoMap String
  pub annotations : GoMap String
  pub taints : GoSlice Taint
  pub conditions : List NodeCondition

pub data NodePoolType : Type 0 where
  edge cloud : NodePoolType

pub record NodePoolSpec : Type 0 where
  pub kind : NodePoolType
  pub labels : GoMap String
  pub annotations : GoMap String
  pub taints : GoSlice Taint

pub record NodePoolStatus : Type 0 where
  pub ready_node_num : ℕ
  pub unready_node_num : ℕ
  pub nodes : GoSlice String

pub record NodePool : Type 0 where
  pub name : String
  pub spec : NodePoolSpec
  pub status : NodePoolStatus

pub record NodePoolRelatedAttributes : Type 0 where
  pub labels : GoMap String
  pub annotations : GoMap String
  pub taints : GoSlice Taint

-- well_known_labels_annotations.go
abbrev pub label_desired_node_pool : String
label_desired_node_pool = "apps.openyurt.io/desired-nodepool"

abbrev pub label_current_node_pool : String
label_current_node_pool = "apps.openyurt.io/nodepool"

abbrev pub annotation_prev_attrs : String
annotation_prev_attrs = "nodepool.openyurt.io/previous-attributes"
