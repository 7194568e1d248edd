-- ===== src/Webhook/NodePools.antt =====
-- pkg/yurtappmanager/webhook/nodepool: the defaults and the validation of node pools, and
-- nodepool_conversion.go of pkg/yurtappmanager/apis/apps/v1beta1. ValidateAnnotations of k8s.io is the
-- parameter `annotations_error`, strings.ToLower is `to_lower`, and `list_nodes` lists the nodes that
-- have the labels.
pub mod Laws
use Prim.Native.String.{◌++◌}
use yurt_app_manager.Prelude.{
  ℕ, Bool, true, false, Option, none, some, List, [], ◌∷◌, ◌==◌, ◌||◌, not, String, Error, Result,
  ok, err, panic, GoMap, GoSlice, items, insert, if◌then◌else◌,
}
use yurt_app_manager.NodePool.Types.{Taint, label_current_node_pool}
use yurt_app_manager.AppSet.Adapter.{LabelSelector}
use yurt_app_manager.Webhook.Fields.{FieldError, ErrorList, invalid, forbidden, children}

pub record ObjectMeta : Type 0 where
  pub name : String
  pub labels : GoMap String
  pub annotations : GoMap String

-- The spec and the status of both versions have the same fields.
pub record Spec : Type 0 where
  pub kind : String
  pub selector : Option LabelSelector
  pub labels : GoMap String
  pub annotations : GoMap String
  pub taints : GoSlice Taint

pub record Status : Type 0 where
  pub ready_node_num : ℕ
  pub unready_node_num : ℕ
  pub nodes : GoSlice String

-- The version v1alpha1, the hub.
pub record AlphaNodePool : Type 0 where
  pub meta : ObjectMeta
  pub spec : Spec
  pub status : Status

pub record BetaNodePool : Type 0 where
  pub meta : ObjectMeta
  pub spec : Spec
  pub status : Status

abbrev pub copy_spec : Spec → Spec → Spec
copy_spec dst src = record dst {
  kind = src.kind;
  selector = src.selector;
  annotations = src.annotations;
  taints = src.taints;
}

-- The source and what the destination was before.
pub convert_to : BetaNodePool → AlphaNodePool → AlphaNodePool
convert_to src dst = record {
  meta = src.meta;
  spec = copy_spec dst.spec src.spec;
  status = src.status;
}

pub convert_from : BetaNodePool → AlphaNodePool → BetaNodePool
convert_from dst src = record {
  meta = src.meta;
  spec = copy_spec dst.spec src.spec;
  status = src.status;
}

-- Default: the selector and the label of the type.
unfoldable pub set_defaults : (String → String) → AlphaNodePool → AlphaNodePool
set_defaults to_lower np = record np {
  spec = record np.spec {
    selector = some (record {
      match_labels = some ((label_current_node_pool, np.meta.name) ∷ []);
      match_expressions = [];
    });
  };
  meta = record np.meta {
    labels =
        some (insert "openyurt.io/node-pool-type" (to_lower np.spec.kind) (items np.meta.labels));
  };
}

module _ (annotations_error : GoMap String → Option Error) where
  unfoldable pub validate_node_pool_spec : Spec → ErrorList
  validate_node_pool_spec spec = elim (annotations_error spec.annotations) [
    | none ↦ []
    | some e ↦ invalid (children ("spec" ∷ "annotations" ∷ [])) "invalid annotations" ∷ []
  ]

  unfoldable pub validate_node_pool_spec_update : Spec → Spec → ErrorList
  unfolding validate_node_pool_spec
  validate_node_pool_spec_update spec old = elim (validate_node_pool_spec spec) [
    | e ∷ es ↦ e ∷ es
    | [] ↦
        if not (spec.kind == old.kind)
        then invalid (children ("spec" ∷ "type" ∷ [])) "pool type can't be changed" ∷ []
        else []
  ]

abbrev pub not_deletable : String → ErrorList
not_deletable detail = forbidden (children ("metadata" ∷ "name" ∷ [])) detail ∷ []

-- A selector that is nil is dereferenced.
unfoldable pub validate_node_pool_deletion :
    (GoMap String → Result (List String)) → AlphaNodePool → Result ErrorList
validate_node_pool_deletion list_nodes np =
    if np.meta.name == "default-nodepool" || np.meta.name == "default-edge-nodepool"
    then ok (not_deletable ("default nodepool " ++ np.meta.name ++ " forbidden to delete"))
    else elim np.spec.selector [
      | none ↦ panic
      | some selector ↦ elim (list_nodes selector.match_labels) [
        | panic ↦ panic
        | err e ↦ ok (not_deletable "fail to get nodes associated to the pool")
        | ok [] ↦ ok []
        | ok (n ∷ ns) ↦
            ok (not_deletable "cannot remove nonempty pool, please drain the pool before deleting")
      ]
    ]
