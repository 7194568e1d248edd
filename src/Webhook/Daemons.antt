-- ===== src/Webhook/Daemons.antt =====
-- pkg/yurtappmanager/webhook/yurtappdaemon/yurtappdaemon_validation.go: the validation of
-- YurtAppDaemons. Replicas are not refused here; the pods and the updates of the templates are
-- validated as in Webhook.Templates.
pub mod Accepted
use yurt_app_manager.Prelude.{
  Bool, true, false, Option, none, some, List, [], ◌∷◌, ◌++◌, String, Error, ◌⊎◌, inl, inr,
  if◌then◌else◌,
}
use yurt_app_manager.AppSet.Adapter.{LabelSelector}
use yurt_app_manager.Webhook.Fields.{PathElement, FieldError, ErrorList, invalid, children}
use yurt_app_manager.Webhook.Templates.{
  StatefulSetTemplate, DeploymentTemplate, WorkloadTemplate, Selector, Library, validate_partition,
  validate_sets_template, validate_deployments_template, validate_template_count,
  validate_workload_template_update,
}
use yurt_app_manager.Webhook.AppSets.{validate_selector}

pub record Spec : Type 0 where
  pub selector : Option LabelSelector
  pub template : WorkloadTemplate

unfoldable pub validate_stateful_set : StatefulSetTemplate → List PathElement → ErrorList
unfolding validate_partition
validate_stateful_set template path = validate_partition template.spec.update_strategy path

unfoldable pub validate_deployment : DeploymentTemplate → List PathElement → ErrorList
validate_deployment template path = []

abbrev pub template_kinds : String
template_kinds = "(statefulSetTemplate/deploymentTemplate)"

module _ (library : Library) (path : List PathElement) where
  unfoldable pub validate_workload_template :
      WorkloadTemplate → Selector → List PathElement → ErrorList
  unfolding validate_template_count validate_sets_template validate_deployments_template
      validate_stateful_set validate_deployment
  validate_workload_template template selector at =
      let (sets, goes_on) =
        validate_sets_template library validate_stateful_set validate_deployment
          template.stateful_set selector at in
      validate_template_count template_kinds template at
      ++ sets
      ++ (if goes_on
          then validate_deployments_template library validate_stateful_set validate_deployment
              template.deployment selector at
          else [])

  -- The template, where the selector is one.
  abbrev pub validate_selected : Error ⊎ Selector → WorkloadTemplate → ErrorList
  validate_selected (inl e) template = invalid (path ++ children ("selector" ∷ [])) "" ∷ []
  validate_selected (inr selector) template =
      validate_workload_template template selector (path ++ children ("template" ∷ []))

  unfoldable pub validate_yurt_app_daemon_spec : Spec → ErrorList
  unfolding validate_selector
  validate_yurt_app_daemon_spec spec =
      validate_selector library spec.selector path
      ++ validate_selected (library.label_selector_as_selector spec.selector) spec.template

  unfoldable pub validate_yurt_app_daemon_spec_update : Spec → Spec → ErrorList
  unfolding validate_workload_template_update
  validate_yurt_app_daemon_spec_update spec old =
      validate_workload_template_update library spec.template old.template
        (path ++ children ("template" ∷ []))
