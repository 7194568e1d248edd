-- ===== src/Webhook/AppSets/Accepted.antt =====
-- What the controller may rely on in a YurtAppSet that the webhook has accepted.
use yurt_app_manager.Prelude.{
  ℕ, zero, suc, ◌+◌, append-eq-nil, ok_inj, false, Option, none, some, List, [], ◌∷◌, ◌++◌, ◌==◌,
  String, Error, ok, has, length, items, ◌≡◌, ◌≢◌, refl, arith, eq_iff, Option-cases, Bool-cases,
  inl, inr, ◌⊎◌,
}
use yurt_app_manager.AppSet.Adapter.{LabelSelector}
use yurt_app_manager.Webhook.Fields.{PathElement, children}
use yurt_app_manager.Webhook.Templates.{
  WorkloadTemplate, Selector, Library, template_count, validate_template_count,
  validate_sets_template, validate_stateful_set, validate_deployment,
}
use yurt_app_manager.Webhook.AppSets.{
  Pool, Spec, validate_selector, validate_selected, template_kinds, validate_pool_template,
  validate_pool_name, validate_pools, validate_yurt_app_set_spec, validate_node_selector,
  validate_pool_tolerations,
}

-- The names of the pools are given, valid, and different from each other and from those before.
abbrev pub HasValidNames : Library → List String → List Pool → Type 0
HasValidNames library before [] = Unit
HasValidNames library before (p ∷ ps) =
    (p.name ≢ "")
    × (has p.name before ≡ false)
    × (library.name_is_dns_label p.name ≡ [])
    × HasValidNames library (p.name ∷ before) ps

validate_pool_name-eq-nil :
    (library : Library) (path : List PathElement) (i : ℕ) (before : List String) (name : String)
    → validate_pool_name library path i before name ≡ []
    → (name ≢ "") × (has name before ≡ false) × (library.name_is_dns_label name ≡ [])
unfolding validate_pool_name
validate_pool_name-eq-nil library path i before name h = elim (Bool-cases (name == "")) [
  | inl e ↦ cc (rw (e, validate_pool_name) at h)
  | inr e ↦ elim (Bool-cases (has name before)) [
    | inl f ↦ cc (rw (e, f, validate_pool_name) at h)
    | inr f ↦ (λ x. cc (e, (eq_iff name "").1 x), f, ground arith)
  ]
]

validate_pools-eq-nil :
    (library : Library) (path : List PathElement) (i : ℕ) (before : List String) (pools : List Pool)
    → validate_pools library path i before pools ≡ []
    → HasValidNames library before pools
unfolding validate_pools
validate_pools-eq-nil library path i before [] h = tt
validate_pools-eq-nil library path i before (p ∷ ps) h =
    let (first, rest) =
      append-eq-nil _ (validate_pools library path (suc i) (p.name ∷ before) ps) h in
    let (second, _) =
      append-eq-nil _ (validate_pool_tolerations library path i p.tolerations) first in
    let (names, _) =
      append-eq-nil _ (validate_node_selector library path i p.node_selector_term) second in
    let (a, b, c) = validate_pool_name-eq-nil library path i before p.name names in
    (a, b, c, validate_pools-eq-nil library path (suc i) (p.name ∷ before) ps rest)

-- A spec as the controller wants it: a selector that looks for something, one template, and pools
-- with names of their own.
pub record IsValid (library : Library) (spec : Spec) : Type 0 where
  pub selector : LabelSelector
  pub selected : spec.selector ≡ some selector
  pub looks : length (items selector.match_labels) + length selector.match_expressions ≢ 0
  pub one_template : template_count spec.template ≡ 1
  pub names : HasValidNames library [] spec.pools

pub validate_selector-eq-nil :
    (library : Library) (selector : Option LabelSelector) (path : List PathElement)
    → validate_selector library selector path ≡ []
    → (l : LabelSelector) × (selector ≡ some l)
      × (length (items l.match_labels) + length l.match_expressions ≢ 0)
unfolding validate_selector
validate_selector-eq-nil library none path h = cc
validate_selector-eq-nil library (some l) path h =
    let (_, rest) =
      append-eq-nil (library.validate_label_selector l (path ++ children ("selector" ∷ []))) _ h in
    (l, refl, ground arith)

pub validate_template_count-eq-nil :
    (kinds : String) (template : WorkloadTemplate) (path : List PathElement)
    → validate_template_count kinds template path ≡ []
    → template_count template ≡ 1
unfolding validate_template_count
validate_template_count-eq-nil kinds template path h = elim (Option-cases template.stateful_set) [
  | inl e ↦ elim (Option-cases template.deployment) [
    | inl f ↦ cc (rw (e, f, validate_template_count) at h)
    | inr (t, f) ↦ rw (e, f) refl
  ]
  | inr (t, e) ↦ elim (Option-cases template.deployment) [
    | inl f ↦ rw (e, f) refl
    | inr (u, f) ↦ cc (rw (e, f, validate_template_count) at h)
  ]
]

validate_pool_template-eq-nil :
    (library : Library) (template : WorkloadTemplate) (selector : Selector)
    (path : List PathElement)
    → validate_pool_template library template selector path ≡ []
    → template_count template ≡ 1
unfolding validate_pool_template
validate_pool_template-eq-nil library template selector path h =
    let (sets, goes_on) =
      validate_sets_template library validate_stateful_set validate_deployment template.stateful_set
        selector path in
    let (front, _) =
      append-eq-nil (validate_template_count template_kinds template path ++ sets) _ h in
    let (counted, _) =
      append-eq-nil (validate_template_count template_kinds template path) sets front in
    validate_template_count-eq-nil template_kinds template path counted

validate_selected-eq-nil :
    (library : Library) (path : List PathElement) (selected : Error ⊎ Selector)
    (template : WorkloadTemplate)
    → validate_selected library path selected template ≡ []
    → template_count template ≡ 1
validate_selected-eq-nil library path (inl e) template h = cc
validate_selected-eq-nil library path (inr selector) template h =
    validate_pool_template-eq-nil library template selector _ h

-- A YurtAppSet that the webhook accepts has a selector that looks for something, one workload template
-- and not two, and pools whose names are given, are DNS labels and differ from each other.
pub validate_yurt_app_set_spec-IsValid :
    (library : Library) (path : List PathElement) (spec : Spec)
    → validate_yurt_app_set_spec library path spec ≡ ok []
    → IsValid library spec
unfolding validate_yurt_app_set_spec
validate_yurt_app_set_spec-IsValid library path spec h =
    elim (Option-cases spec.template.deployment) [
      | inl e ↦ cc (rw (e, validate_yurt_app_set_spec) at h)
      | inr (t, e) ↦
          (let all = ok_inj (rw (e, validate_yurt_app_set_spec) at h) in
            let (front, pools) =
              append-eq-nil _ (validate_pools library path zero [] spec.pools) all in
            let (own, template) =
              append-eq-nil (validate_selector library spec.selector path)
                (validate_selected library path (library.label_selector_as_selector spec.selector)
                  spec.template)
                front in
            let (selector, selected, looks) =
              validate_selector-eq-nil library spec.selector path own in
            record {
              selector = selector;
              selected = selected;
              looks = looks;
              one_template = validate_selected-eq-nil library path _ spec.template template;
              names = validate_pools-eq-nil library path zero [] spec.pools pools;
            })
    ]
