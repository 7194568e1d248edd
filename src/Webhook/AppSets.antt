-- ===== src/Webhook/AppSets.antt =====
-- pkg/yurtappmanager/webhook/yurtappset: the defaults and the validation of YurtAppSets. The log line
-- that prints the labels of the deployment template is part of the model, since it dereferences it.
pub mod Accepted
pub mod Kept
pub mod Examples
use Prim.Native.String.{◌++◌ as ◌+++◌}
use yurt_app_manager.Prelude.{
  ℕ, zero, suc, ◌+◌, Bool, true, false, Option, none, some, List, [], ◌∷◌, ◌++◌, ◌==◌, not, String,
  Error, Result, ok, err, panic, GoMap, GoSlice, items, has, is_empty, length, eqb, lookup, insert,
  ◌⊎◌, inl, inr, if◌then◌else◌,
}
use yurt_app_manager.AppSet.Adapter.{LabelSelector}
use yurt_app_manager.Webhook.Fields.{
  PathElement, FieldError, ErrorList, required, invalid, forbidden, children,
}
use yurt_app_manager.Webhook.Templates.{
  WorkloadTemplate, Selector, Library, validate_stateful_set, validate_deployment,
  validate_sets_template, validate_deployments_template, validate_template_count,
  validate_workload_template_update,
}

-- The term that selects the nodes and the tolerations are texts.
pub record Pool : Type 0 where
  pub name : String
  pub node_selector_term : String
  pub tolerations : GoSlice String

pub record Spec : Type 0 where
  pub selector : Option LabelSelector
  pub template : WorkloadTemplate
  pub pools : List Pool
  pub revision_history_limit : Option ℕ

-- The selector is given, is valid and looks for something.
unfoldable pub validate_selector : Library → Option LabelSelector → List PathElement → ErrorList
validate_selector library none path = required (path ++ children ("selector" ∷ [])) "" ∷ []
validate_selector library (some selector) path =
    library.validate_label_selector selector (path ++ children ("selector" ∷ []))
    ++ (if eqb (length (items selector.match_labels) + length selector.match_expressions) 0
        then invalid (path ++ children ("selector" ∷ []))
            "empty selector is invalid for statefulset"
          ∷ []
        else [])

abbrev pub template_kinds : String
template_kinds = "(statefulSetTemplate/deploymentTemplate/daemonSetTemplate)"

unfoldable pub validate_pool_template :
    Library → WorkloadTemplate → Selector → List PathElement → ErrorList
unfolding validate_template_count validate_sets_template validate_deployments_template
    validate_stateful_set validate_deployment
validate_pool_template library template selector path =
    let (sets, goes_on) =
      validate_sets_template library validate_stateful_set validate_deployment template.stateful_set
        selector path in
    validate_template_count template_kinds template path
    ++ sets
    ++ (if goes_on
        then validate_deployments_template library validate_stateful_set validate_deployment
            template.deployment selector path
        else [])

abbrev join : List String → String
join [] = ""
join (s ∷ []) = s
join (s ∷ t ∷ ss) = s +++ ", " +++ join (t ∷ ss)

abbrev pub pool_path : List PathElement → ℕ → String → List PathElement
pool_path path i field =
    path
    ++ PathElement.child "topology"
      ∷ PathElement.child "pools"
      ∷ PathElement.index i
      ∷ PathElement.child field
      ∷ []

module _ (library : Library) (path : List PathElement) where
  -- The name of a pool, against those before it.
  unfoldable pub validate_pool_name : ℕ → List String → String → ErrorList
  validate_pool_name i before name =
      (if name == "" then required (pool_path path i "name") "" ∷ [] else [])
      ++ (if has name before
          then invalid (pool_path path i "name") ("duplicated pool name " +++ name) ∷ []
          else [])
      ++ elim (library.name_is_dns_label name) [
        | [] ↦ []
        | e ∷ es ↦ invalid (pool_path path i "name") ("invalid pool name " +++ join (e ∷ es)) ∷ []
      ]

  unfoldable pub validate_node_selector : ℕ → String → ErrorList
  validate_node_selector i term = elim (library.convert_node_selector_term term) [
    | inl e ↦
        invalid (pool_path path i "nodeSelectorTerm")
          "Convert_v1_NodeSelectorTerm_To_core_NodeSelectorTerm failed"
        ∷ []
    | inr core ↦ library.validate_node_selector_term core (pool_path path i "nodeSelectorTerm")
  ]

  -- The errors of the conversions, and what could be converted.
  unfoldable pub convert_tolerations : ℕ → List String → ErrorList × List String
  convert_tolerations i [] = ([], [])
  convert_tolerations i (t ∷ ts) =
      let (errors, converted) = convert_tolerations i ts in
      elim (library.convert_toleration t) [
        | inl e ↦ (
          invalid (pool_path path i "tolerations") "Convert_v1_Toleration_To_core_Toleration failed"
              ∷ errors,
          converted,
        )
        | inr core ↦ (errors, core ∷ converted)
      ]

  unfoldable pub validate_pool_tolerations : ℕ → GoSlice String → ErrorList
  unfolding convert_tolerations
  validate_pool_tolerations i none = []
  validate_pool_tolerations i (some tolerations) =
      let (errors, converted) = convert_tolerations i tolerations in
      errors ++ library.validate_tolerations converted (pool_path path i "tolerations")

  -- The loop over the pools, from the index of the first; `before` are the names before it.
  unfoldable pub validate_pools : ℕ → List String → List Pool → ErrorList
  unfolding validate_pool_name validate_node_selector validate_pool_tolerations
  validate_pools i before [] = []
  validate_pools i before (p ∷ ps) =
      validate_pool_name i before p.name
      ++ validate_node_selector i p.node_selector_term
      ++ validate_pool_tolerations i p.tolerations
      ++ validate_pools (suc i) (p.name ∷ before) ps

  -- The template, where the selector is one.
  abbrev pub validate_selected : Error ⊎ Selector → WorkloadTemplate → ErrorList
  validate_selected (inl e) template = invalid (path ++ children ("selector" ∷ [])) "" ∷ []
  validate_selected (inr selector) template =
      validate_pool_template library template selector (path ++ children ("workloadTemplate" ∷ []))

  unfoldable pub validate_yurt_app_set_spec : Spec → Result ErrorList
  unfolding validate_selector validate_pools
  validate_yurt_app_set_spec spec = elim spec.template.deployment [
    | none ↦ panic
    | some _ ↦ ok (
        validate_selector library spec.selector path
        ++ validate_selected (library.label_selector_as_selector spec.selector) spec.template
        ++ validate_pools zero [] spec.pools)
  ]

abbrev pub index_pools : List (String × Pool) → List Pool → List (String × Pool)
index_pools m [] = m
index_pools m (p ∷ ps) = index_pools (insert p.name p m) ps

-- `same_term` and `same_tolerations` are Semantic.DeepEqual.
module _ (same_term : String → String → Bool)
    (same_tolerations : GoSlice String → GoSlice String → Bool) (path : List PathElement) where
  unfoldable pub validate_kept : ℕ → Pool → Pool → ErrorList
  validate_kept i old pool =
      (if not (same_term old.node_selector_term pool.node_selector_term)
        then forbidden (pool_path path i "nodeSelectorTerm") "may not be changed in an update" ∷ []
        else [])
      ++ (if not (same_tolerations old.tolerations pool.tolerations)
          then forbidden (pool_path path i "tolerations") "may not be changed in an update" ∷ []
          else [])

  unfoldable pub validate_from : List (String × Pool) → ℕ → List Pool → ErrorList
  unfolding validate_kept
  validate_from olds i [] = []
  validate_from olds i (p ∷ ps) =
      let rest = validate_from olds (suc i) ps in
      elim (lookup p.name olds) [ none ↦ rest | some old ↦ validate_kept i old p ++ rest ]

  unfoldable pub validate_yurt_app_set_topology : List Pool → List Pool → ErrorList
  unfolding validate_from
  validate_yurt_app_set_topology pools olds = validate_from (index_pools [] olds) zero pools

  unfoldable pub validate_yurt_app_set_spec_update : Library → Spec → Spec → ErrorList
  unfolding validate_yurt_app_set_topology validate_workload_template_update
  validate_yurt_app_set_spec_update library spec old =
      validate_workload_template_update library spec.template old.template
        (path ++ children ("workloadTemplate" ∷ []))
      ++ validate_yurt_app_set_topology spec.pools old.pools
