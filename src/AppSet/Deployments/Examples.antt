-- ===== src/AppSet/Deployments/Examples.antt =====
-- A deployment of one pool, for the theorem about what ApplyPoolTemplate fills.
use yurt_app_manager.Prelude.{true, false, none, some, [], ◌∷◌, ok, insert, refl}
use yurt_app_manager.AppSet.Adapter.{
  YurtAppSetTemplate, PoolTopology, LabelSelector, PodTemplateSpec, pool_name_label_key,
}
use yurt_app_manager.AppSet.Deployments.{
  DeploymentTemplate, Deployment, Library, clear_patch, with_metadata, with_spec, apply_patch,
  apply_found, apply_pool_template,
}
use yurt_app_manager.AppSet.Deployments.Applied.{IsSettled, apply_pool_template-IsSettled}

abbrev owning : Library
owning = record {
  common = record {
    is_dns_prefix = λ s. true;
    set_controller_reference = λ yas set. ok set;
    strategic_merge = λ raw set. ok set;
  };
  set_controller_reference = λ yas set. ok (record set { owners = yas.name ∷ [] });
  strategic_merge = λ raw set. ok set;
}

abbrev hangzhou : PoolTopology
hangzhou = record { name = "hangzhou"; match_expressions = []; tolerations = none; patch = none }

abbrev selector : LabelSelector
selector = record { match_labels = some (("app", "a") ∷ []); match_expressions = [] }

abbrev web : YurtAppSetTemplate
web = record {
  name = "web";
  namespace = "default";
  pools = hangzhou ∷ [];
  selector = some selector;
  stateful_set = none;
  revision_history_limit = none;
}

abbrev no_pods : PodTemplateSpec
no_pods = record {
  labels = none;
  annotations = none;
  spec = record { affinity = none; tolerations = none; containers = "" };
}

abbrev web_template : DeploymentTemplate
web_template = record {
  labels = some (("app", "a") ∷ []);
  annotations = none;
  strategy = "Recreate";
  min_ready_seconds = 5;
  paused = false;
  progress_deadline_seconds = none;
  template = no_pods;
}

abbrev empty_deployment : Deployment
empty_deployment = record {
  name = "";
  namespace = "";
  generate_name = "";
  labels = none;
  annotations = none;
  owners = [];
  selector = none;
  replicas = none;
  strategy = "";
  min_ready_seconds = 0;
  paused = false;
  progress_deadline_seconds = none;
  revision_history_limit = none;
  template = no_pods;
  observed_generation = 0;
  ready_replicas = 0;
}

abbrev created : Deployment
created = clear_patch (
    with_spec owning web "hangzhou" "r1"
      (record selector {
        match_labels = some (insert pool_name_label_key "hangzhou" (("app", "a") ∷ []));
      })
      web_template hangzhou 2
      (record (with_metadata owning web "hangzhou" "r1" selector web_template empty_deployment) {
        owners = "web" ∷ [];
      }))

apply_pool_template-IsSettled_example : IsSettled "hangzhou" "r1" 2 created
unfolding apply_pool_template apply_found apply_patch
apply_pool_template-IsSettled_example =
    apply_pool_template-IsSettled owning web "hangzhou" "r1" (some web_template) 2 empty_deployment
      created hangzhou (λ yas set owned h. (cc h, cc h)) refl refl refl
