-- ===== src/Webhook/Templates/Updates.antt =====
-- Which updates of the workload templates are accepted.
use yurt_app_manager.Prelude.{
  append-eq-nil, Bool, true, some, List, [], ◌∷◌, ◌++◌, String, subst, ◌≡◌, ◌↔◌, sym, Bool-cases,
  inl, inr,
}
use yurt_app_manager.Webhook.Fields.{PathElement, children}
use yurt_app_manager.Webhook.Templates.{
  StatefulSetTemplate, StatefulSetSpec, DeploymentTemplate, DeploymentSpec, WorkloadTemplate,
  Library, validate_replicas, validate_stateful_set_update, validate_deployment_update,
  validate_workload_template_update,
}

-- Laws of the library: semantic equality, of specs whose other fields are a text, compares the other
-- fields among all, and holds of equal specs.
abbrev pub ComparesOthers : {A : Type 0} → (A → A → Bool) → (A → String) → Type 0
ComparesOthers {A} same others =
    ((a b : A) → same a b ≡ true → others a ≡ others b) × ((a : A) → same a a ≡ true)

module _ (library : Library) (path : List PathElement) where
  pub validate_stateful_set_update_iff :
      (template old : StatefulSetTemplate)
      → ComparesOthers library.same_stateful_set (λ s. s.others)
      → (validate_stateful_set_update library template old path ≡ []) ↔ (
          (template.spec.others ≡ old.spec.others)
          × (validate_replicas library template.spec.replicas path ≡ []))
  unfolding validate_stateful_set_update
  validate_stateful_set_update_iff template old law = (there, back)
    where
      compared : StatefulSetSpec
      compared = record template.spec {
        replicas = old.spec.replicas;
        template = old.spec.template;
        update_strategy = old.spec.update_strategy;
      }

      there :
          validate_stateful_set_update library template old path ≡ []
          → (template.spec.others ≡ old.spec.others)
            × (validate_replicas library template.spec.replicas path ≡ [])
      there h = elim (Bool-cases (library.same_stateful_set compared old.spec)) [
        | inl e ↦ (law.0 compared old.spec e, rw (e, validate_stateful_set_update) at h)
        | inr e ↦ cc (rw (e, validate_stateful_set_update) at h)
      ]

      same_as_old :
          template.spec.others ≡ old.spec.others
          → library.same_stateful_set compared old.spec ≡ true
      same_as_old e =
          subst (λ s. library.same_stateful_set s old.spec ≡ true)
            (λ i. record old.spec { others = sym e i }) (law.1 old.spec)

      back :
          (template.spec.others ≡ old.spec.others)
            × (validate_replicas library template.spec.replicas path ≡ [])
          → validate_stateful_set_update library template old path ≡ []
      back h = rw (same_as_old h.0, validate_stateful_set_update) h.1

  pub validate_deployment_update_iff :
      (template old : DeploymentTemplate)
      → ComparesOthers library.same_deployment (λ s. s.others)
      → (validate_deployment_update library template old path ≡ []) ↔ (
          (template.spec.others ≡ old.spec.others)
          × (validate_replicas library template.spec.replicas path ≡ []))
  unfolding validate_deployment_update
  validate_deployment_update_iff template old law = (there, back)
    where
      compared : DeploymentSpec
      compared = record template.spec {
        replicas = old.spec.replicas;
        template = old.spec.template;
        strategy = old.spec.strategy;
      }

      there :
          validate_deployment_update library template old path ≡ []
          → (template.spec.others ≡ old.spec.others)
            × (validate_replicas library template.spec.replicas path ≡ [])
      there h = elim (Bool-cases (library.same_deployment compared old.spec)) [
        | inl e ↦ (law.0 compared old.spec e, rw (e, validate_deployment_update) at h)
        | inr e ↦ cc (rw (e, validate_deployment_update) at h)
      ]

      same_as_old :
          template.spec.others ≡ old.spec.others → library.same_deployment compared old.spec ≡ true
      same_as_old e =
          subst (λ s. library.same_deployment s old.spec ≡ true)
            (λ i. record old.spec { others = sym e i }) (law.1 old.spec)

      back :
          (template.spec.others ≡ old.spec.others)
            × (validate_replicas library template.spec.replicas path ≡ [])
          → validate_deployment_update library template old path ≡ []
      back h = rw (same_as_old h.0, validate_deployment_update) h.1

-- Where no error is reported, an update of the workload templates changes, of a template that both
-- versions have, only the replicas, the pods and the strategy, and the replicas that it gives pass the
-- check for non-negative fields; semantic equality is taken to
-- compare what the fields that may not change are.
pub validate_workload_template_update_sound :
    (library : Library) (path : List PathElement) (template old : WorkloadTemplate)
    → ComparesOthers library.same_stateful_set (λ s. s.others)
    → ComparesOthers library.same_deployment (λ s. s.others)
    → validate_workload_template_update library template old path ≡ []
    → ((t o : StatefulSetTemplate)
        → template.stateful_set ≡ some t
        → old.stateful_set ≡ some o
        → (t.spec.others ≡ o.spec.others)
          × (validate_replicas library t.spec.replicas
                (path ++ children ("statefulSetTemplate" ∷ []))
              ≡ []))
      × ((t o : DeploymentTemplate)
          → template.deployment ≡ some t
          → old.deployment ≡ some o
          → (t.spec.others ≡ o.spec.others)
            × (validate_replicas library t.spec.replicas
                  (path ++ children ("deploymentTemplate" ∷ []))
                ≡ []))
unfolding validate_workload_template_update
validate_workload_template_update_sound library path template old sets deployments h = (
  λ t o e f.
      (validate_stateful_set_update_iff library (path ++ children ("statefulSetTemplate" ∷ [])) t o
          sets).0
        (append-eq-nil _ _ (rw (e, f, validate_workload_template_update) at h)).0,
  λ t o e f.
      (validate_deployment_update_iff library (path ++ children ("deploymentTemplate" ∷ [])) t o
          deployments).0
        (append-eq-nil _ _ (rw (e, f, validate_workload_template_update) at h)).1,
)
