-- ===== src/AppSet/Template/Applied.antt =====
-- What a set that ApplyPoolTemplate has filled shows, where the pool has no patch.
use yurt_app_manager.Prelude.{
  ℕ, Option, none, some, List, String, Error, Result, ok, err, panic, items, lookup, value_of, ◌≡◌,
  refl, ap, subst, ◌∙◌, GoMap,
}
use yurt_app_manager.AppSet.Adapter.{
  Library, YurtAppSetTemplate, StatefulSetTemplate, StatefulSet, put_each, PoolTopology,
  LabelSelector, find_pool, pool_name_label_key, controller_revision_hash_label_key,
  annotation_patch_key,
}
use yurt_app_manager.AppSet.Template.{
  apply_pool_template, apply_found, apply_patch, clear_patch, with_spec, with_metadata,
}

-- SetControllerReference changes the owners only: the labels and the annotations stay.
abbrev pub KeepsMetadata : Library → Type 0
KeepsMetadata library =
    (yas : YurtAppSetTemplate) (set owned : StatefulSet)
    → library.set_controller_reference yas set ≡ ok owned
    → (owned.labels ≡ set.labels) × (owned.annotations ≡ set.annotations)

pub record IsApplied (pool revision : String) (replicas : ℕ) (set : StatefulSet) : Type 0 where
  pub pool_label : lookup pool_name_label_key (items set.labels) ≡ some pool
  pub revision_label : lookup controller_revision_hash_label_key (items set.labels) ≡ some revision
  pub patch_annotation : value_of set.annotations annotation_patch_key ≡ ""
  pub replicas_eq : set.replicas ≡ some replicas

clear_patch-IsApplied :
    {pool revision : String} {replicas : ℕ} (set : StatefulSet) (m : List (String × String))
    → set.annotations ≡ some m
    → lookup pool_name_label_key (items set.labels) ≡ some pool
    → lookup controller_revision_hash_label_key (items set.labels) ≡ some revision
    → set.replicas ≡ some replicas
    → IsApplied pool revision replicas (clear_patch set)
unfolding clear_patch
clear_patch-IsApplied set m a p r n =
    rw a (record { pool_label = p; revision_label = r; patch_annotation = refl; replicas_eq = n })

module _ (library : Library) (yas : YurtAppSetTemplate) (pool revision : String) (l : LabelSelector)
    (t : StatefulSetTemplate) (set : StatefulSet) where
  with_metadata-pool :
      lookup pool_name_label_key (items (with_metadata library yas pool revision l t set).labels)
      ≡ some pool
  unfolding with_metadata
  with_metadata-pool = refl

  with_metadata-revision :
      lookup controller_revision_hash_label_key
        (items (with_metadata library yas pool revision l t set).labels)
      ≡ some revision
  unfolding with_metadata
  with_metadata-revision = refl

  with_metadata-annotations :
      (with_metadata library yas pool revision l t set).annotations
      ≡ some (put_each (items t.annotations) (items set.annotations))
  unfolding with_metadata
  with_metadata-annotations = refl

set_of-ok :
    {set done : StatefulSet} {e : Option Error}
    → ◌≡◌ {A = Result (Option Error × StatefulSet)} (ok (e, set)) (ok (none, done))
    → set ≡ done
set_of-ok {set} h =
    ap
      (λ (r : Result (Option Error × StatefulSet)). elim r [
        | ok p ↦ p.1
        | err _ ↦ set
        | panic ↦ set
      ])
      h

pub apply_pool_template-IsApplied :
    (library : Library) (yas : YurtAppSetTemplate) (pool revision : String) (replicas : ℕ)
    (set done : StatefulSet) (config : PoolTopology)
    → KeepsMetadata library
    → find_pool pool yas.pools ≡ some config
    → config.patch ≡ none
    → apply_pool_template library yas pool revision replicas set ≡ ok (none, done)
    → IsApplied pool revision replicas done
unfolding apply_pool_template apply_found with_spec apply_patch
apply_pool_template-IsApplied library yas pool revision replicas set done config keeps found
      no_patch h =
    of_template yas.stateful_set yas.selector refl refl
  where
    of_template :
        (t : Option StatefulSetTemplate) (l : Option LabelSelector)
        → yas.stateful_set ≡ t
        → yas.selector ≡ l
        → IsApplied pool revision replicas done
    of_template none l e f = cc (rw (found, e, apply_pool_template, apply_found) at h)
    of_template (some t) none e f = cc (rw (found, e, f, apply_pool_template, apply_found) at h)
    of_template (some t) (some l) e f = of_labels l.match_labels refl
      where
        of_labels : (m : GoMap String) → l.match_labels ≡ m → IsApplied pool revision replicas done
        of_labels none g = cc (rw (found, e, f, g, apply_pool_template, apply_found) at h)
        of_labels (some m) g =
            of_owned
              (library.set_controller_reference yas (
                with_metadata library yas pool revision (record l { match_labels = some m }) t set))
              refl
          where
            of_owned :
                (r : Result StatefulSet)
                → library.set_controller_reference yas (
                    with_metadata library yas pool revision
                      (record l { match_labels = some m })
                      t
                      set)
                  ≡ r
                → IsApplied pool revision replicas done
            of_owned (err x) k = cc (rw (found, e, f, g, k, apply_pool_template, apply_found) at h)
            of_owned panic k = cc (rw (found, e, f, g, k, apply_pool_template, apply_found) at h)
            of_owned (ok owned) k =
                let (labels, annotations) =
                  keeps yas
                    (with_metadata library yas pool revision (record l { match_labels = some m }) t
                      set)
                    owned k in
                subst (IsApplied pool revision replicas)
                  (set_of-ok (
                    rw (found, e, f, g, k, no_patch, apply_pool_template, apply_found, apply_patch)
                      at h))
                  (clear_patch-IsApplied _ _
                    (annotations
                      ∙ with_metadata-annotations library yas pool revision
                          (record l { match_labels = some m }) t set)
                    (ap (λ m. lookup pool_name_label_key (items m)) labels
                      ∙ with_metadata-pool library yas pool revision
                          (record l { match_labels = some m }) t set)
                    (ap (λ m. lookup controller_revision_hash_label_key (items m)) labels
                      ∙ with_metadata-revision library yas pool revision
                          (record l { match_labels = some m }) t set)
                    refl)
