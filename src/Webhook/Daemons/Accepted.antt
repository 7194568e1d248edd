-- ===== src/Webhook/Daemons/Accepted.antt =====
-- What the controller may rely on in a YurtAppDaemon that the webhook has accepted.
use yurt_app_manager.Prelude.{
  ◌+◌, append-eq-nil, some, List, [], ◌∷◌, ◌++◌, Error, length, items, ◌≡◌, ◌≢◌, ◌⊎◌, inl, inr,
}
use yurt_app_manager.AppSet.Adapter.{LabelSelector}
use yurt_app_manager.Webhook.Fields.{PathElement, children}
use yurt_app_manager.Webhook.Templates.{
  WorkloadTemplate, Selector, Library, template_count, validate_template_count,
  validate_sets_template,
}
use yurt_app_manager.Webhook.AppSets.{validate_selector}
use yurt_app_manager.Webhook.AppSets.Accepted.{
  validate_selector-eq-nil, validate_template_count-eq-nil,
}
use yurt_app_manager.Webhook.Daemons.{
  Spec, template_kinds, validate_stateful_set, validate_deployment, validate_workload_template,
  validate_selected, validate_yurt_app_daemon_spec,
}

validate_selected-eq-nil :
    (library : Library) (path : List PathElement) (selected : Error ⊎ Selector)
    (template : WorkloadTemplate)
    → validate_selected library path selected template ≡ []
    → template_count template ≡ 1
unfolding validate_workload_template
validate_selected-eq-nil library path (inl e) template h = cc
validate_selected-eq-nil library path (inr selector) template h =
    let at = path ++ children ("template" ∷ []) in
    let (sets, goes_on) =
      validate_sets_template library validate_stateful_set validate_deployment template.stateful_set
        selector at in
    let (front, _) =
      append-eq-nil (validate_template_count template_kinds template at ++ sets) _ h in
    let (counted, _) =
      append-eq-nil (validate_template_count template_kinds template at) sets front in
    validate_template_count-eq-nil template_kinds template at counted

-- A YurtAppDaemon that the webhook accepts has a selector that looks for something, and one workload
-- template and not two.
pub validate_yurt_app_daemon_spec_sound :
    (library : Library) (path : List PathElement) (spec : Spec)
    → validate_yurt_app_daemon_spec library path spec ≡ []
    → ((l : LabelSelector) × (spec.selector ≡ some l)
        × (length (items l.match_labels) + length l.match_expressions ≢ 0))
      × (template_count spec.template ≡ 1)
unfolding validate_yurt_app_daemon_spec
validate_yurt_app_daemon_spec_sound library path spec h =
    let (own, template) =
      append-eq-nil (validate_selector library spec.selector path)
        (validate_selected library path (library.label_selector_as_selector spec.selector)
          spec.template)
        h in
    (
      validate_selector-eq-nil library spec.selector path own,
      validate_selected-eq-nil library path _ spec.template template,
    )
