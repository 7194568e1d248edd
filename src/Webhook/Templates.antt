-- ===== src/Webhook/Templates.antt =====
-- The workload templates, whose validation yurtappset_validation.go and yurtappdaemon_validation.go of
-- pkg/yurtappmanager/webhook have in common: the latter repeats the functions modelled here. What they
-- call of Kubernetes is the record Library. The parts of a template that are only compared or handed
-- on are texts.
pub mod Updates
use Prim.Native.String.{◌++◌ as ◌+++◌}
use yurt_app_manager.Prelude.{
  ℤ, ℕ, zero, suc, Bool, true, false, Option, none, some, List, [], ◌∷◌, ◌++◌, ◌+◌, ◌==◌, not,
  String, Error, GoMap, ◌⊎◌, inl, inr, if◌then◌else◌,
}
use yurt_app_manager.AppSet.Adapter.{LabelSelector}
use yurt_app_manager.Webhook.Fields.{
  PathElement, FieldError, ErrorList, required, invalid, forbidden, children,
}

pub record PodTemplate : Type 0 where
  pub labels : GoMap String
  pub spec : String

-- `rolling_update` is nil, or has a partition, which may be nil.
pub record UpdateStrategy : Type 0 where
  pub kind : String
  pub rolling_update : Option (Option ℤ)

pub record StatefulSetSpec : Type 0 where
  pub replicas : Option ℤ
  pub template : PodTemplate
  pub update_strategy : UpdateStrategy
  pub others : String

pub record DeploymentSpec : Type 0 where
  pub replicas : Option ℤ
  pub template : PodTemplate
  pub strategy : String
  pub others : String

pub record StatefulSetTemplate : Type 0 where
  pub labels : GoMap String
  pub spec : StatefulSetSpec

pub record DeploymentTemplate : Type 0 where
  pub labels : GoMap String
  pub spec : DeploymentSpec

pub record WorkloadTemplate : Type 0 where
  pub stateful_set : Option StatefulSetTemplate
  pub deployment : Option DeploymentTemplate

pub record Selector : Type 0 where
  pub empty : Bool
  pub matches : GoMap String → Bool

-- `same_stateful_set` and `same_deployment` are Semantic.DeepEqual.
pub record Library : Type 0 where
  pub validate_label_selector : LabelSelector → List PathElement → ErrorList
  pub label_selector_as_selector : Option LabelSelector → Error ⊎ Selector
  pub name_is_dns_label : String → List String
  pub convert_node_selector_term : String → Error ⊎ String
  pub validate_node_selector_term : String → List PathElement → ErrorList
  pub convert_toleration : String → Error ⊎ String
  pub validate_tolerations : List String → List PathElement → ErrorList
  pub convert_pod_template_spec : PodTemplate → Error ⊎ PodTemplate
  pub validate_pod_template_spec_for_stateful_set :
      PodTemplate → Selector → List PathElement → ErrorList
  pub validate_pod_template_spec : PodTemplate → List PathElement → ErrorList
  pub validate_nonnegative_field : ℤ → List PathElement → ErrorList
  pub same_stateful_set : StatefulSetSpec → StatefulSetSpec → Bool
  pub same_deployment : DeploymentSpec → DeploymentSpec → Bool

unfoldable pub validate_selector_match : PodTemplate → Selector → List PathElement → ErrorList
validate_selector_match template selector path =
    if selector.empty
    then []
    else if selector.matches template.labels
    then []
    else invalid (path ++ children ("metadata" ∷ "labels" ∷ []))
        "`selector` does not match template `labels`"
      ∷ []

abbrev pub replicas_path : List String
replicas_path = "spec" ∷ "replicas" ∷ []

-- A partition of a rolling update is refused.
unfoldable pub validate_partition : UpdateStrategy → List PathElement → ErrorList
validate_partition strategy path =
    if strategy.kind == "RollingUpdate"
    then elim strategy.rolling_update [
      | some (some partition) ↦
          invalid
            (path ++ children ("spec" ∷ "updateStrategy" ∷ "rollingUpdate" ∷ "partition" ∷ []))
            "partition in statefulSetTemplate will not be used"
          ∷ []
      | some none ↦ []
      | none ↦ []
    ]
    else []

unfoldable pub validate_stateful_set : StatefulSetTemplate → List PathElement → ErrorList
unfolding validate_partition
validate_stateful_set template path = elim template.spec.replicas [
  | none ↦ validate_partition template.spec.update_strategy path
  | some r ↦
      invalid (path ++ children replicas_path) "replicas in statefulSetTemplate will not be used"
      ∷ validate_partition template.spec.update_strategy path
]

unfoldable pub validate_deployment : DeploymentTemplate → List PathElement → ErrorList
validate_deployment template path = elim template.spec.replicas [
  | none ↦ []
  | some r ↦
      invalid (path ++ children replicas_path) "replicas in deploymentTemplate will not be used"
      ∷ []
]

module _ (library : Library) where
  abbrev pub validate_replicas : Option ℤ → List PathElement → ErrorList
  validate_replicas none path = []
  validate_replicas (some r) path =
      library.validate_nonnegative_field r (path ++ children replicas_path)

  -- The fields that may change are taken from the old spec for the comparison.
  unfoldable pub validate_deployment_update :
      DeploymentTemplate → DeploymentTemplate → List PathElement → ErrorList
  validate_deployment_update template old path =
      let compared : DeploymentSpec = record template.spec {
        replicas = old.spec.replicas;
        template = old.spec.template;
        strategy = old.spec.strategy;
      } in
      let negative = validate_replicas template.spec.replicas path in
      if not (library.same_deployment compared old.spec)
      then forbidden (path ++ children ("spec" ∷ []))
          "updates to deployTemplate spec for fields other than 'template', 'strategy' and 'replicas' are forbidden"
        ∷ negative
      else negative

  unfoldable pub validate_stateful_set_update :
      StatefulSetTemplate → StatefulSetTemplate → List PathElement → ErrorList
  validate_stateful_set_update template old path =
      let compared : StatefulSetSpec = record template.spec {
        replicas = old.spec.replicas;
        template = old.spec.template;
        update_strategy = old.spec.update_strategy;
      } in
      let negative = validate_replicas template.spec.replicas path in
      if not (library.same_stateful_set compared old.spec)
      then forbidden (path ++ children ("spec" ∷ []))
          "updates to statefulsetTemplate spec for fields other than 'template', and 'updateStrategy' are forbidden"
        ∷ negative
      else negative

  -- A template is compared only where both versions have it.
  unfoldable pub validate_workload_template_update :
      WorkloadTemplate → WorkloadTemplate → List PathElement → ErrorList
  unfolding validate_deployment_update validate_stateful_set_update
  validate_workload_template_update template old path =
      of_sets template.stateful_set old.stateful_set
      ++ of_deployments template.deployment old.deployment
    where
      of_sets : Option StatefulSetTemplate → Option StatefulSetTemplate → ErrorList
      of_sets (some t) (some o) =
          validate_stateful_set_update t o (path ++ children ("statefulSetTemplate" ∷ []))
      of_sets none o = []
      of_sets (some t) none = []

      of_deployments : Option DeploymentTemplate → Option DeploymentTemplate → ErrorList
      of_deployments (some t) (some o) =
          validate_deployment_update t o (path ++ children ("deploymentTemplate" ∷ []))
      of_deployments none o = []
      of_deployments (some t) none = []

  -- The checks of the pods of a StatefulSet; the second part is whether the validation goes on.
  unfoldable pub validate_set_pods :
      StatefulSetTemplate → Selector → List PathElement → ErrorList × Bool
  validate_set_pods template selector path =
      elim (library.convert_pod_template_spec template.spec.template) [
        | inl e ↦ (
          invalid (children ("spec" ∷ []))
                "Convert_v1_PodTemplateSpec_To_core_PodTemplateSpec failed"
              ∷ [],
          false,
        )
        | inr core ↦ (
          library.validate_pod_template_spec_for_stateful_set core selector
              (path ++ children ("statefulSetTemplate" ∷ "spec" ∷ "template" ∷ [])),
          true,
        )
      ]

  unfoldable pub validate_deployment_pods :
      DeploymentTemplate → Selector → List PathElement → ErrorList
  unfolding validate_selector_match
  validate_deployment_pods template selector path =
      let pods = path ++ children ("deploymentTemplate" ∷ "spec" ∷ "template" ∷ []) in
      elim (library.convert_pod_template_spec template.spec.template) [
        | inl e ↦
            invalid (children ("spec" ∷ []))
              "Convert_v1_PodTemplateSpec_To_core_PodTemplateSpec failed"
            ∷ []
        | inr core ↦
            validate_selector_match core selector pods
            ++ library.validate_pod_template_spec core pods
      ]

-- Whether the labels of a template are those that the selector looks for.
abbrev pub validate_labels : GoMap String → Selector → List PathElement → String → ErrorList
validate_labels labels selector path kind =
    if selector.matches labels
    then []
    else invalid (path ++ children (kind ∷ "metadata" ∷ "labels" ∷ []))
        "`selector` does not match template `labels`"
      ∷ []

-- `validate_sets` and `validate_deployments` are validateStatefulSet and validateDeployment of the
-- webhook.
module _ (library : Library) (validate_sets : StatefulSetTemplate → List PathElement → ErrorList)
    (validate_deployments : DeploymentTemplate → List PathElement → ErrorList) where
  unfoldable pub validate_sets_template :
      Option StatefulSetTemplate → Selector → List PathElement → ErrorList × Bool
  unfolding validate_set_pods
  validate_sets_template none selector path = ([], true)
  validate_sets_template (some template) selector path =
      let (errors, goes_on) = validate_set_pods library template selector path in
      (
        validate_labels template.labels selector path "statefulSetTemplate"
            ++ validate_sets template (path ++ children ("statefulSetTemplate" ∷ []))
            ++ errors,
        goes_on,
      )

  unfoldable pub validate_deployments_template :
      Option DeploymentTemplate → Selector → List PathElement → ErrorList
  unfolding validate_deployment_pods
  validate_deployments_template none selector path = []
  validate_deployments_template (some template) selector path =
      validate_labels template.labels selector path "deploymentTemplate"
      ++ validate_deployments template (path ++ children ("deploymentTemplate" ∷ []))
      ++ validate_deployment_pods library template selector path

abbrev pub template_count : WorkloadTemplate → ℕ
template_count template =
    (elim template.stateful_set [ none ↦ 0 | some t ↦ 1 ])
    + elim template.deployment [ none ↦ 0 | some t ↦ 1 ]

-- One of the two templates is to be given, and only one; `kinds` names those of the message.
unfoldable pub validate_template_count : String → WorkloadTemplate → List PathElement → ErrorList
validate_template_count kinds template path = of_count (template_count template)
  where
    of_count : ℕ → ErrorList
    of_count zero = required path ("should provide one of " +++ kinds) ∷ []
    of_count (suc zero) = []
    of_count (suc (suc n)) = invalid path ("should provide only one of " +++ kinds) ∷ []
