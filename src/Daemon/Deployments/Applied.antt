-- ===== src/Daemon/Deployments/Applied.antt =====
-- What classifyWorkloads makes of a deployment that applyTemplate has filled.
use yurt_app_manager.Prelude.{
  Bool, true, Option, none, some, List, [], ◌∷◌, ◌++◌, String, ok, ◌>>=◌, bind-eq-ok, ok_inj, items,
  lookup, ◌≡◌, refl, sym, ap, ◌∙◌, arith, eq_refl, Option-cases, inl, inr, put,
}
use yurt_app_manager.NodePool.Types.{Taint}
use yurt_app_manager.AppSet.Adapter.{
  LabelSelector, Affinity, controller_revision_hash_label_key, pool_name_label_key,
}
use yurt_app_manager.Daemon.{
  Toleration, NodePool, taints_to_tolerations, is_tolerations_all_taints, is_current, get_revision,
  create_node_selector_by_nodepool_name,
}
use yurt_app_manager.Daemon.Classification.{
  ToleratesExisting, is_tolerations_all_taints-taints_to_tolerations,
}
use yurt_app_manager.Daemon.Deployments.{
  DaemonTemplate, DeploymentTemplate, DeploymentSpec, Deployment, Library, annotation_ref_node_pool,
  apply_template, with_metadata, with_spec, with_pod, drop_required, to_workload,
}

-- SetControllerReference changes the owners only.
abbrev pub KeepsTemplate : Library → Type 0
KeepsTemplate library =
    (yad : DaemonTemplate) (set owned : Deployment)
    → library.set_controller_reference yad set ≡ ok owned
    → (owned.labels ≡ set.labels) × (owned.annotations ≡ set.annotations) × (owned.spec ≡ set.spec)

-- A law of the library: what some tolerations tolerate, more of them do.
abbrev pub ToleratesMore : (List Toleration → Taint → Bool) → Type 0
ToleratesMore tolerates =
    (before after : List Toleration) (t : Taint)
    → tolerates after t ≡ true
    → tolerates (before ++ after) t ≡ true

all_tolerated_more :
    (tolerates : List Toleration → Taint → Bool)
    → ToleratesMore tolerates
    → (before after : List Toleration) (taints : List Taint)
    → is_tolerations_all_taints tolerates after taints ≡ true
    → is_tolerations_all_taints tolerates (before ++ after) taints ≡ true
unfolding is_tolerations_all_taints
all_tolerated_more tolerates more before after [] h = refl
all_tolerated_more tolerates more before after (t ∷ ts) h =
    ground (arith, more before after t, all_tolerated_more tolerates more before after ts)

-- The deployment shows the pool, its revision, its nodes and tolerations for its taints.
pub record IsApplied (pool : NodePool) (revision : String) (deploy : Deployment) : Type 0 where
  pub revision_label :
      lookup controller_revision_hash_label_key (items deploy.labels) ≡ some revision
  pub ref_pool : lookup annotation_ref_node_pool (items deploy.annotations) ≡ some pool.name
  pub selects : deploy.spec.template.node_selector ≡ create_node_selector_by_nodepool_name pool.name
  pub own : List Toleration
  pub tolerations_eq : deploy.spec.template.tolerations ≡ own ++ taints_to_tolerations pool.taints

module _ (pool : NodePool) (revision : String) where
  with_spec-eq-ok :
      (spec done : DeploymentSpec)
      → with_spec pool revision spec ≡ ok done
      → (affinity : Option Affinity) × (done.template
          ≡ with_pod pool revision affinity spec.template)
  unfolding with_spec
  with_spec-eq-ok spec done h = elim (Option-cases spec.selector) [
    | inl e ↦ cc (rw (e, with_spec) at h)
    | inr (selector, e) ↦
        (let (labels, _, rest) =
            bind-eq-ok (put pool_name_label_key pool.name selector.match_labels)
              (λ m. drop_required spec.template.affinity >>= λ affinity. ok (record spec {
                selector = some (record selector { match_labels = m });
                template = with_pod pool revision affinity spec.template;
              }))
              (rw (e, with_spec) at h) in
          let (affinity, _, last) =
            bind-eq-ok (drop_required spec.template.affinity)
              (λ affinity. ok (record spec {
                selector = some (record selector { match_labels = labels });
                template = with_pod pool revision affinity spec.template;
              }))
              rest in
          (affinity, sym (ap (λ d. d.template) (ok_inj last))))
  ]

module _ (library : Library) (yad : DaemonTemplate) (pool : NodePool) (revision : String) where
  owned-IsApplied :
      (l : LabelSelector) (t : DeploymentTemplate) (set owned : Deployment) (spec : DeploymentSpec)
      → KeepsTemplate library
      → with_spec pool revision t.spec ≡ ok spec
      → library.set_controller_reference yad
          (record (with_metadata library yad pool revision l t set) { spec = spec })
        ≡ ok owned
      → IsApplied pool revision owned
  unfolding with_metadata with_pod
  owned-IsApplied l t set owned spec keeps e f =
      let (labels, annotations, specs) =
        keeps yad (record (with_metadata library yad pool revision l t set) { spec = spec }) owned
          f in
      let (affinity, template) = with_spec-eq-ok pool revision t.spec spec e in
      record {
        revision_label = ap (λ m. lookup controller_revision_hash_label_key (items m)) labels;
        ref_pool = ap (λ m. lookup annotation_ref_node_pool (items m)) annotations;
        selects = ap (λ s. s.template.node_selector) specs ∙ ap (λ t. t.node_selector) template;
        own = t.spec.template.tolerations;
        tolerations_eq = ap (λ s. s.template.tolerations) specs ∙ ap (λ t. t.tolerations) template;
      }

  -- What applyTemplate returns shows the pool and the revision.
  pub apply_template-IsApplied :
      (set done : Deployment)
      → KeepsTemplate library
      → apply_template library yad pool revision set ≡ ok done
      → IsApplied pool revision done
  unfolding apply_template
  apply_template-IsApplied set done keeps h = elim (Option-cases yad.deployment) [
    | inl e ↦ cc (rw (e, apply_template) at h)
    | inr (t, e) ↦ elim (Option-cases yad.selector) [
      | inl f ↦ cc (rw (e, f, apply_template) at h)
      | inr (l, f) ↦
          (let (spec, made, rest) =
              bind-eq-ok (with_spec pool revision t.spec)
                (λ spec.
                  library.set_controller_reference yad
                    (record (with_metadata library yad pool revision l t set) { spec = spec }))
                (rw (e, f, apply_template) at h) in
            owned-IsApplied l t set done spec keeps made rest)
    ]
  ]

-- A workload that shows the pool and the revision is current.
is_current-IsApplied :
    (tolerates : List Toleration → Taint → Bool) (pool : NodePool) (revision : String)
    (deploy : Deployment)
    → ToleratesExisting tolerates
    → ToleratesMore tolerates
    → IsApplied pool revision deploy
    → is_current tolerates revision pool.name (to_workload deploy) pool ≡ true
unfolding is_current get_revision to_workload create_node_selector_by_nodepool_name
is_current-IsApplied tolerates pool revision deploy existing more applied =
    let labelled : get_revision (to_workload deploy) ≡ revision =
      ap (λ (o : Option String). elim o [ none ↦ "" | some v ↦ v ]) applied.revision_label in
    let tolerated =
      all_tolerated_more tolerates more applied.own (taints_to_tolerations pool.taints) pool.taints
        (is_tolerations_all_taints-taints_to_tolerations tolerates pool.taints existing) in
    rw
      (
        applied.selects,
        create_node_selector_by_nodepool_name,
        applied.tolerations_eq,
        tolerated,
        labelled,
        eq_refl pool.name,
        eq_refl revision,
      )
      refl

-- A deployment that applyTemplate has filled for a pool is current for it.
pub is_current-apply_template :
    (library : Library) (yad : DaemonTemplate) (pool : NodePool) (revision : String)
    (tolerates : List Toleration → Taint → Bool) (set done : Deployment)
    → KeepsTemplate library
    → ToleratesExisting tolerates
    → ToleratesMore tolerates
    → apply_template library yad pool revision set ≡ ok done
    → is_current tolerates revision pool.name (to_workload done) pool ≡ true
is_current-apply_template library yad pool revision tolerates set done keeps existing more h =
    is_current-IsApplied tolerates pool revision done existing more
      (apply_template-IsApplied library yad pool revision set done keeps h)
