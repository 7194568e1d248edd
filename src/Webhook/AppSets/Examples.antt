-- ===== src/Webhook/AppSets/Examples.antt =====
-- YurtAppSets and YurtAppDaemons, and libraries that accept what they are given, for the theorems
-- about the validation of specs.
use yurt_app_manager.Prelude.{
  Bool, true, false, Option, none, some, List, [], ◌∷◌, ◌++◌, ◌==◌, String, ok, GoSlice, All, ◌≡◌,
  refl, eq_iff, eq_refl, inr,
}
use yurt_app_manager.AppSet.Adapter.{LabelSelector}
use yurt_app_manager.Webhook.Fields.{PathElement, children}
use yurt_app_manager.Webhook.Templates.{
  StatefulSetTemplate, DeploymentTemplate, WorkloadTemplate, Library, validate_replicas,
  validate_workload_template_update, validate_selector_match, validate_deployment_pods,
  validate_sets_template, validate_deployments_template, validate_deployment,
  validate_template_count,
}
use yurt_app_manager.Webhook.Templates.Updates.{validate_workload_template_update_sound}
use yurt_app_manager.Webhook.AppSets.{
  Pool, Spec, validate_selector, validate_pool_template, validate_pool_name, validate_node_selector,
  validate_pool_tolerations, validate_pools, validate_yurt_app_set_spec,
  validate_yurt_app_set_topology,
}
use yurt_app_manager.Webhook.AppSets.Accepted.{IsValid, validate_yurt_app_set_spec-IsValid}
use yurt_app_manager.Webhook.AppSets.Kept.{IsKept, validate_yurt_app_set_topology_sound}

-- A library that finds no errors.
abbrev pub lenient : Library
lenient = record {
  validate_label_selector = λ _ _. [];
  label_selector_as_selector = λ _. inr (record { empty = false; matches = λ _. true });
  name_is_dns_label = λ _. [];
  convert_node_selector_term = λ term. inr term;
  validate_node_selector_term = λ _ _. [];
  convert_toleration = λ toleration. inr toleration;
  validate_tolerations = λ _ _. [];
  convert_pod_template_spec = λ template. inr template;
  validate_pod_template_spec_for_stateful_set = λ _ _ _. [];
  validate_pod_template_spec = λ _ _. [];
  validate_nonnegative_field = λ _ _. [];
  same_stateful_set = λ a b. a.others == b.others;
  same_deployment = λ a b. a.others == b.others;
}

abbrev pub spec_path : List PathElement
spec_path = children ("spec" ∷ [])

abbrev pub app_selector : LabelSelector
app_selector = record { match_labels = some (("app", "a") ∷ []); match_expressions = [] }

abbrev deployment_of : String → DeploymentTemplate
deployment_of strategy = record {
  labels = some (("app", "a") ∷ []);
  spec = record {
    replicas = none;
    template = record { labels = some (("app", "a") ∷ []); spec = "nginx" };
    strategy = strategy;
    others = "";
  };
}

abbrev two_pools : List Pool
two_pools =
    record { name = "beijing"; node_selector_term = "a"; tolerations = none }
    ∷ record { name = "hangzhou"; node_selector_term = "b"; tolerations = none }
    ∷ []

abbrev set_of : Option DeploymentTemplate → Spec
set_of deployment = record {
  selector = some app_selector;
  template = record { stateful_set = none; deployment = deployment };
  pools = two_pools;
  revision_history_limit = some 10;
}

accepted_set :
    validate_yurt_app_set_spec lenient spec_path (set_of (some (deployment_of "Recreate"))) ≡ ok []
unfolding validate_yurt_app_set_spec validate_selector validate_pool_template
    validate_template_count validate_sets_template validate_deployments_template
    validate_deployment_pods validate_selector_match validate_deployment validate_pools
    validate_pool_name validate_node_selector validate_pool_tolerations
accepted_set = refl

validate_yurt_app_set_spec-IsValid_example :
    IsValid lenient (set_of (some (deployment_of "Recreate")))
validate_yurt_app_set_spec-IsValid_example =
    validate_yurt_app_set_spec-IsValid lenient spec_path (set_of (some (deployment_of "Recreate")))
      accepted_set

abbrev same_slice : GoSlice String → GoSlice String → Bool
same_slice a b = true

validate_yurt_app_set_topology_sound_example :
    All (λ old. All (λ p. p.name ≡ old.name → IsKept ◌==◌ same_slice old p) two_pools) two_pools
unfolding validate_yurt_app_set_topology
validate_yurt_app_set_topology_sound_example =
    validate_yurt_app_set_topology_sound lenient ◌==◌ same_slice spec_path two_pools two_pools
      (IsValid.names (
        validate_yurt_app_set_spec-IsValid lenient spec_path
          (set_of (some (deployment_of "Recreate"))) accepted_set))
      refl

abbrev pub workload_of : String → WorkloadTemplate
workload_of strategy = record { stateful_set = none; deployment = some (deployment_of strategy) }

validate_workload_template_update_sound_example :
    ((t o : StatefulSetTemplate)
      → none ≡ some t
      → none ≡ some o
      → (t.spec.others ≡ o.spec.others)
        × (validate_replicas lenient t.spec.replicas
              (spec_path ++ children ("statefulSetTemplate" ∷ []))
            ≡ []))
    × ((t o : DeploymentTemplate)
        → some (deployment_of "Recreate") ≡ some t
        → some (deployment_of "RollingUpdate") ≡ some o
        → (t.spec.others ≡ o.spec.others)
          × (validate_replicas lenient t.spec.replicas
                (spec_path ++ children ("deploymentTemplate" ∷ []))
              ≡ []))
unfolding validate_workload_template_update
validate_workload_template_update_sound_example =
    validate_workload_template_update_sound lenient spec_path (workload_of "Recreate")
      (workload_of "RollingUpdate")
      ((λ a b h. (eq_iff a.others b.others).0 h), λ a. eq_refl a.others)
      ((λ a b h. (eq_iff a.others b.others).0 h), λ a. eq_refl a.others) refl
