-- ===== src/AppSet/PoolControl/Examples.antt =====
-- A set of one pool, for the theorem about what is read back of it.
use yurt_app_manager.Prelude.{true, none, some, [], ◌∷◌, ok, insert, ◌≡◌, refl, eq_iff}
use yurt_app_manager.AppSet.Adapter.{
  Library, YurtAppSetTemplate, StatefulSetTemplate, StatefulSet, PoolTopology, LabelSelector,
  pool_name_label_key,
}
use yurt_app_manager.AppSet.Template.{
  apply_pool_template, apply_found, apply_patch, with_spec, with_metadata, clear_patch,
}
use yurt_app_manager.AppSet.PoolControl.{convert_to_pool, empty_set}
use yurt_app_manager.AppSet.PoolControl.Conversions.{convert_to_pool-apply_pool_template}

abbrev keeps_all : Library
keeps_all = record {
  is_dns_prefix = λ s. true;
  set_controller_reference = λ yas set. ok (record set { owners = yas.name ∷ [] });
  strategic_merge = λ raw set. ok set;
}

abbrev zone_topology : PoolTopology
zone_topology = record {
  name = "hangzhou";
  match_expressions = [];
  tolerations = none;
  patch = none;
}

abbrev app_selector : LabelSelector
app_selector = record { match_labels = some (("app", "a") ∷ []); match_expressions = [] }

abbrev app_template : StatefulSetTemplate
app_template = record {
  labels = some (("app", "a") ∷ []);
  annotations = none;
  update_strategy = "";
  pod_management_policy = "";
  service_name = "";
  volume_claim_templates = [];
  template = empty_set.template;
}

abbrev app : YurtAppSetTemplate
app = record {
  name = "app";
  namespace = "default";
  pools = zone_topology ∷ [];
  selector = some app_selector;
  stateful_set = some app_template;
  revision_history_limit = none;
}

abbrev created_set : StatefulSet
created_set = clear_patch (
    with_spec keeps_all app "hangzhou" "r1"
      (record app_selector {
        match_labels = some (insert pool_name_label_key "hangzhou" (("app", "a") ∷ []));
      })
      app_template zone_topology 2
      (record (with_metadata keeps_all app "hangzhou" "r1" app_selector app_template empty_set) {
        owners = "app" ∷ [];
      }))

convert_to_pool-apply_pool_template_example :
    convert_to_pool created_set
    ≡ ok (record {
      name = "hangzhou";
      namespace = created_set.namespace;
      pool_ref = created_set;
      observed_generation = created_set.observed_generation;
      replicas = 2;
      ready_replicas = created_set.ready_replicas;
      patch_info = "";
    })
unfolding apply_pool_template apply_found apply_patch
convert_to_pool-apply_pool_template_example =
    convert_to_pool-apply_pool_template keeps_all app "hangzhou" "r1" 2 empty_set created_set
      zone_topology (λ yas set owned h. (cc h, cc h)) refl refl
      (λ h. cc ((eq_iff "hangzhou" "").1 h)) refl
