-- ===== src/AppSet/Template.antt =====
-- ApplyPoolTemplate of StatefulSetAdapter in
-- pkg/yurtappmanager/controller/yurtappset/adapter/statefulset_adapter.go, with getPoolPrefix,
-- PoolHasPatch and CreateNewPatchedObject of adapter_util.go.
pub mod Applied
use Prim.Native.String.{◌++◌}
use yurt_app_manager.Prelude.{
  ℕ, Bool, true, false, Option, none, some, String, Error, Result, ok, err, panic, ◌>>=◌, GoMap,
  items, insert, put, if◌then◌else◌,
}
use yurt_app_manager.AppSet.Adapter.{
  Library, YurtAppSetTemplate, StatefulSetTemplate, StatefulSet, PoolTopology, LabelSelector,
  PodTemplateSpec, attach_node_affinity_and_tolerations, find_pool, put_each, pool_name_label_key,
  controller_revision_hash_label_key, annotation_patch_key,
}

pub get_pool_prefix : Library → String → String → String
get_pool_prefix library name pool =
    let prefix = name ++ "-" ++ pool ++ "-" in
    if library.is_dns_prefix prefix then prefix else name ++ "-"

-- A set of a pool without a patch has its annotation cleared, if it has annotations.
pub clear_patch : StatefulSet → StatefulSet
clear_patch set = elim set.annotations [
  | none ↦ set
  | some m ↦ record set { annotations = some (insert annotation_patch_key "" m) }
]

pub create_new_patched_object : Library → String → StatefulSet → Result StatefulSet
create_new_patched_object library raw set = library.strategic_merge raw set >>= λ patched.
    ok (record patched {
      annotations = some (insert annotation_patch_key raw (items patched.annotations));
    })

module _ (library : Library) (yas : YurtAppSetTemplate) (pool revision : String) where
  -- The metadata, which is filled before anything can fail.
  pub with_metadata : LabelSelector → StatefulSetTemplate → StatefulSet → StatefulSet
  unfolding get_pool_prefix
  with_metadata selector template set = record set {
    namespace = yas.namespace;
    labels = some (
        insert pool_name_label_key pool (
          insert controller_revision_hash_label_key revision (
            put_each (items selector.match_labels)
              (put_each (items template.labels) (items set.labels)))));
    annotations = some (put_each (items template.annotations) (items set.annotations));
    generate_name = get_pool_prefix library yas.name pool;
  }

  pub with_pod_labels : PodTemplateSpec → PodTemplateSpec
  with_pod_labels template = record template {
    labels = some (
        insert controller_revision_hash_label_key revision
          (insert pool_name_label_key pool (items template.labels)));
  }

  pub with_spec : LabelSelector → StatefulSetTemplate → PoolTopology → ℕ → StatefulSet → StatefulSet
  unfolding with_pod_labels
  with_spec selectors template config replicas set =
      let pods = with_pod_labels template.template in
      record set {
        selector = some selectors;
        replicas = some replicas;
        update_strategy = template.update_strategy;
        template = record pods { spec = attach_node_affinity_and_tolerations pods.spec config };
        revision_history_limit = yas.revision_history_limit;
        pod_management_policy = template.pod_management_policy;
        service_name = template.service_name;
        volume_claim_templates = template.volume_claim_templates;
      }

  unfoldable pub apply_patch :
      Library → Option String → StatefulSet → Result (Option Error × StatefulSet)
  unfolding clear_patch create_new_patched_object
  apply_patch lib none set = ok (none, clear_patch set)
  apply_patch lib (some raw) set = elim (create_new_patched_object lib raw set) [
    | ok patched ↦ ok (none, patched)
    | err e ↦ ok (some e, set)
    | panic ↦ panic
  ]

  -- The error, if any, and the set as it was then.
  unfoldable pub apply_found :
      PoolTopology
      → LabelSelector
      → StatefulSetTemplate
      → ℕ
      → StatefulSet
      → Result (Option Error × StatefulSet)
  apply_found config selector template replicas set =
      put pool_name_label_key pool selector.match_labels >>= λ match_labels.
      elim (library.set_controller_reference yas (with_metadata selector template set)) [
        | err e ↦ ok (some e, with_metadata selector template set)
        | panic ↦ panic
        | ok owned ↦ apply_patch library config.patch (
            with_spec (record selector { match_labels = match_labels }) template config replicas
              owned)
      ]

  unfoldable pub apply_pool_template : ℕ → StatefulSet → Result (Option Error × StatefulSet)
  unfolding apply_found
  apply_pool_template replicas set = elim (find_pool pool yas.pools) [
    | none ↦ ok (some (Error.message "fail to find pool config"), set)
    | some config ↦ elim yas.stateful_set [
      | none ↦ panic
      | some template ↦ elim yas.selector [
        | none ↦ panic
        | some selector ↦ apply_found config selector template replicas set
      ]
    ]
  ]
