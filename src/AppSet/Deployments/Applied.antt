-- ===== src/AppSet/Deployments/Applied.antt =====
-- What a deployment that ApplyPoolTemplate has filled shows, where the pool has no patch.
use yurt_app_manager.Prelude.{
  ℕ, false, Option, none, some, List, String, Error, Result, ok, err, panic, bind-eq-ok, GoMap,
  ok_inj, items, lookup, put, value_of, ◌≡◌, refl, sym, ap, subst, eq_refl, Option-cases, inl, inr,
}
use yurt_app_manager.AppSet.Adapter.{
  YurtAppSetTemplate, PoolTopology, LabelSelector, NodeSelectorRequirement, find_pool,
  pool_name_label_key, controller_revision_hash_label_key, annotation_patch_key,
}
use yurt_app_manager.AppSet.Deployments.{
  DeploymentTemplate, Deployment, Library, get_details, is_expected, clear_patch, with_metadata,
  with_spec, apply_patch, apply_found, apply_pool_template,
}

-- SetControllerReference changes the owners only.
abbrev pub KeepsMetadata : Library → Type 0
KeepsMetadata library =
    (yas : YurtAppSetTemplate) (set owned : Deployment)
    → library.set_controller_reference yas set ≡ ok owned
    → (owned.labels ≡ set.labels) × (owned.annotations ≡ set.annotations)

-- What managePools compares: the deployment is of the pool and the revision, has the replicas and no
-- patch.
pub record IsSettled (pool revision : String) (replicas : ℕ) (set : Deployment) : Type 0 where
  pub of_pool : lookup pool_name_label_key (items set.labels) ≡ some pool
  pub current : is_expected set revision ≡ false
  pub details : (get_details set).0 ≡ replicas
  pub no_patch : value_of set.annotations annotation_patch_key ≡ ""

clear_patch-IsSettled :
    (pool revision : String) (replicas : ℕ) (set : Deployment) (m : List (String × String))
    → set.annotations ≡ some m
    → lookup pool_name_label_key (items set.labels) ≡ some pool
    → lookup controller_revision_hash_label_key (items set.labels) ≡ some revision
    → set.replicas ≡ some replicas
    → IsSettled pool revision replicas (clear_patch set)
unfolding clear_patch is_expected get_details
clear_patch-IsSettled pool revision replicas set m a p r n =
    let labelled : value_of set.labels controller_revision_hash_label_key ≡ revision =
      ap (λ (o : Option String). elim o [ none ↦ "" | some v ↦ v ]) r in
    rw (a, clear_patch)
      (record {
        of_pool = p;
        current = rw (labelled, eq_refl revision) refl;
        details = rw (n) refl;
        no_patch = refl;
      })

module _ (library : Library) (yas : YurtAppSetTemplate) (pool revision : String)
    (keeps : KeepsMetadata library) where
  owned-IsSettled :
      (config : PoolTopology) (own selector : LabelSelector) (template : DeploymentTemplate)
      (replicas : ℕ) (set owned : Deployment)
      → library.set_controller_reference yas
          (with_metadata library yas pool revision selector template set)
        ≡ ok owned
      → IsSettled pool revision replicas
          (clear_patch (with_spec library yas pool revision own template config replicas owned))
  unfolding with_metadata with_spec
  owned-IsSettled config own selector template replicas set owned e =
      let (labels, annotations) =
        keeps yas (with_metadata library yas pool revision selector template set) owned e in
      clear_patch-IsSettled pool revision replicas _ _ annotations
        (ap (λ m. lookup pool_name_label_key (items m)) labels)
        (ap (λ m. lookup controller_revision_hash_label_key (items m)) labels) refl

  unpatched :
      (patch : Option String) (set done : Deployment)
      → patch ≡ none
      → apply_patch library yas pool revision patch set ≡ ok (none, done)
      → done ≡ clear_patch set
  unfolding apply_patch
  unpatched none set done e h = sym (ap (λ (r : Option Error × Deployment). r.1) (ok_inj h))
  unpatched (some raw) set done e h = cc

  apply_found-IsSettled :
      (config : PoolTopology) (selector : LabelSelector) (template : DeploymentTemplate)
      (replicas : ℕ) (set done : Deployment)
      → config.patch ≡ none
      → apply_found library yas pool revision config selector template replicas set
        ≡ ok (none, done)
      → IsSettled pool revision replicas done
  unfolding apply_found
  apply_found-IsSettled config selector template replicas set done no_patch h =
      let (labels, _, rest) =
        bind-eq-ok (put pool_name_label_key pool selector.match_labels)
          (finish selector.match_expressions) h in
      of_owned labels (library.set_controller_reference yas filled) refl rest
    where
      filled : Deployment
      filled = with_metadata library yas pool revision selector template set

      finish : List NodeSelectorRequirement → GoMap String → Result (Option Error × Deployment)
      finish expressions labels = elim (library.set_controller_reference yas filled) [
        | err e ↦ ok (some e, filled)
        | panic ↦ panic
        | ok owned ↦ apply_patch library yas pool revision config.patch (
            with_spec library yas pool revision
              (record { match_labels = labels; match_expressions = expressions }) template config
              replicas owned)
      ]

      of_owned :
          (labels : GoMap String) (r : Result Deployment)
          → library.set_controller_reference yas filled ≡ r
          → ◌≡◌ {A = Result (Option Error × Deployment)}
              (elim r [
                | err e ↦ ok (some e, filled)
                | panic ↦ panic
                | ok owned ↦ apply_patch library yas pool revision config.patch (
                    with_spec library yas pool revision
                      (record {
                        match_labels = labels;
                        match_expressions = selector.match_expressions;
                      })
                      template
                      config
                      replicas
                      owned)
              ])
              (ok (none, done))
          → IsSettled pool revision replicas done
      of_owned labels (err e) k rest = cc
      of_owned labels panic k rest = cc
      of_owned labels (ok owned) k rest =
          let own : LabelSelector = record {
            match_labels = labels;
            match_expressions = selector.match_expressions;
          } in
          subst (IsSettled pool revision replicas)
            (sym (
              unpatched config.patch
                (with_spec library yas pool revision own template config replicas owned) done
                no_patch rest))
            (owned-IsSettled config own selector template replicas set owned k)

-- Where the pool is in the topology without a patch and the template could be applied, the deployment
-- that ApplyPoolTemplate fills belongs to the pool, is not reported as of another revision, has the
-- replicas asked for and records no patch: nothing for which managePools updates a pool.
pub apply_pool_template-IsSettled :
    (library : Library) (yas : YurtAppSetTemplate) (pool revision : String)
    (deployment : Option DeploymentTemplate) (replicas : ℕ) (set done : Deployment)
    (config : PoolTopology)
    → KeepsMetadata library
    → find_pool pool yas.pools ≡ some config
    → config.patch ≡ none
    → apply_pool_template library yas pool revision deployment replicas set ≡ ok (none, done)
    → IsSettled pool revision replicas done
unfolding apply_pool_template
apply_pool_template-IsSettled library yas pool revision deployment replicas set done config keeps
      found no_patch h =
    elim (Option-cases deployment) [
      | inl e ↦ cc (rw (found, e, apply_pool_template) at h)
      | inr (template, e) ↦ elim (Option-cases yas.selector) [
        | inl f ↦ cc (rw (found, e, f, apply_pool_template) at h)
        | inr (selector, f) ↦
            apply_found-IsSettled library yas pool revision keeps config selector template replicas
              set done no_patch (rw (found, e, f, apply_pool_template) at h)
      ]
    ]
