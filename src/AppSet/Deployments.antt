-- ===== src/AppSet/Deployments.antt =====
-- DeploymentAdapter of pkg/yurtappmanager/controller/yurtappset/adapter/deployment_adapter.go: the
-- deployment of a pool. What it calls for a deployment is the record Library, the functions that it
-- shares with StatefulSetAdapter are those of AppSet.Adapter and AppSet.Template.
pub mod Applied
mod Examples
use yurt_app_manager.Prelude.{
  ℕ, Bool, Option, none, some, List, [], ◌∷◌, ◌==◌, not, String, Error, Result, ok, err, panic,
  ◌>>=◌, GoMap, items, insert, put, value_of, if◌then◌else◌,
}
use yurt_app_manager.AppSet.Adapter
use yurt_app_manager.AppSet.Adapter.{
  YurtAppSetTemplate, PoolTopology, LabelSelector, PodTemplateSpec,
  attach_node_affinity_and_tolerations, find_pool, put_each, pool_name_label_key,
  controller_revision_hash_label_key, annotation_patch_key,
}
use yurt_app_manager.AppSet.Template.{get_pool_prefix}

pub record DeploymentTemplate : Type 0 where
  pub labels : GoMap String
  pub annotations : GoMap String
  pub strategy : String
  pub min_ready_seconds : ℕ
  pub paused : Bool
  pub progress_deadline_seconds : Option ℕ
  pub template : PodTemplateSpec

pub record Deployment : Type 0 where
  pub name : String
  pub namespace : String
  pub generate_name : String
  pub labels : GoMap String
  pub annotations : GoMap String
  pub owners : List String
  pub selector : Option LabelSelector
  pub replicas : Option ℕ
  pub strategy : String
  pub min_ready_seconds : ℕ
  pub paused : Bool
  pub progress_deadline_seconds : Option ℕ
  pub revision_history_limit : Option ℕ
  pub template : PodTemplateSpec
  pub observed_generation : ℕ
  pub ready_replicas : ℕ

pub record Library : Type 0 where
  pub common : Adapter.Library
  pub set_controller_reference : YurtAppSetTemplate → Deployment → Result Deployment
  pub strategic_merge : String → Deployment → Result Deployment

-- The replicas that are asked for and those that are ready.
pub get_details : Deployment → ℕ × ℕ
get_details set = (elim set.replicas [ none ↦ 0 | some r ↦ r ], set.ready_replicas)

pub is_expected : Deployment → String → Bool
is_expected set revision = not (value_of set.labels controller_revision_hash_label_key == revision)

-- PoolHasPatch, of a deployment.
pub clear_patch : Deployment → Deployment
clear_patch set = elim set.annotations [
  | none ↦ set
  | some m ↦ record set { annotations = some (insert annotation_patch_key "" m) }
]

-- `template` is the deployment template of the YurtAppSet.
module _ (library : Library) (yas : YurtAppSetTemplate) (pool revision : String) where
  pub with_metadata : LabelSelector → DeploymentTemplate → Deployment → Deployment
  with_metadata selector template set = record set {
    namespace = yas.namespace;
    labels = some (
        insert pool_name_label_key pool (
          insert controller_revision_hash_label_key revision (
            put_each (items selector.match_labels)
              (put_each (items template.labels) (items set.labels)))));
    annotations = some (put_each (items template.annotations) (items set.annotations));
    generate_name = get_pool_prefix library.common yas.name pool;
  }

  pub with_spec : LabelSelector → DeploymentTemplate → PoolTopology → ℕ → Deployment → Deployment
  with_spec selectors template config replicas set =
      let pods : PodTemplateSpec = record template.template {
        labels = some (
            insert controller_revision_hash_label_key revision
              (insert pool_name_label_key pool (items template.template.labels)));
      } in
      record set {
        selector = some selectors;
        replicas = some replicas;
        strategy = template.strategy;
        template = record pods { spec = attach_node_affinity_and_tolerations pods.spec config };
        revision_history_limit = yas.revision_history_limit;
        min_ready_seconds = template.min_ready_seconds;
        paused = template.paused;
        progress_deadline_seconds = template.progress_deadline_seconds;
      }

  -- The patch of the pool, which is recorded in an annotation.
  unfoldable pub apply_patch : Option String → Deployment → Result (Option Error × Deployment)
  unfolding clear_patch
  apply_patch none set = ok (none, clear_patch set)
  apply_patch (some raw) set = elim (library.strategic_merge raw set) [
    | err e ↦ ok (some e, set)
    | panic ↦ panic
    | ok patched ↦ ok (
      none,
      record patched {
        annotations = some (insert annotation_patch_key raw (items patched.annotations));
      },
    )
  ]

  -- The error, if any, and the deployment as it was then.
  unfoldable pub apply_found :
      PoolTopology
      → LabelSelector
      → DeploymentTemplate
      → ℕ
      → Deployment
      → Result (Option Error × Deployment)
  unfolding with_metadata with_spec apply_patch
  apply_found config selector template replicas set =
      put pool_name_label_key pool selector.match_labels >>= λ match_labels.
      let filled = with_metadata selector template set in
      elim (library.set_controller_reference yas filled) [
        | err e ↦ ok (some e, filled)
        | panic ↦ panic
        | ok owned ↦ apply_patch config.patch (
            with_spec (record selector { match_labels = match_labels }) template config replicas
              owned)
      ]

  unfoldable pub apply_pool_template :
      Option DeploymentTemplate → ℕ → Deployment → Result (Option Error × Deployment)
  unfolding apply_found
  apply_pool_template deployment replicas set = elim (find_pool pool yas.pools) [
    | none ↦ ok (some (Error.message "fail to find pool config"), set)
    | some config ↦ elim deployment [
      | none ↦ panic
      | some template ↦ elim yas.selector [
        | none ↦ panic
        | some selector ↦ apply_found config selector template replicas set
      ]
    ]
  ]
