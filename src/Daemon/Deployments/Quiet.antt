-- ===== src/Daemon/Deployments/Quiet.antt =====
-- Deployments and classifyWorkloads together: what applyTemplate fills is left alone.
use yurt_app_manager.Prelude.{
  Bool, true, false, some, List, [], ◌∷◌, String, ok, lookup, has, has-keys, eq_refl, keys, All,
  ◌≡◌, refl, sym, subst, arith,
}
use yurt_app_manager.NodePool.Types.{Taint}
use yurt_app_manager.Daemon.{
  Toleration, Workload, NodePool, is_current, classify_workloads, needs_delete, needs_update,
}
use yurt_app_manager.Daemon.Classification.{ToleratesExisting, has-classify_workloads}
use yurt_app_manager.Daemon.Deployments.{
  DaemonTemplate, Deployment, Library, apply_template, to_workload,
}
use yurt_app_manager.Daemon.Deployments.Applied.{
  KeepsTemplate, ToleratesMore, is_current-apply_template,
}

-- The workload recorded under a name was read from a deployment that applyTemplate filled for the
-- pool of that name.
pub record IsFilled (library : Library) (yad : DaemonTemplate) (revision : String)
    (pools : List (String × NodePool)) (entry : String × Workload) : Type 0 where
  pub pool : NodePool
  pub found : lookup entry.0 pools ≡ some pool
  pub named : pool.name ≡ entry.0
  pub set : Deployment
  pub filled : Deployment
  pub applied : apply_template library yad pool revision set ≡ ok filled
  pub read : entry.1 ≡ to_workload filled

module _ (library : Library) (yad : DaemonTemplate) (revision : String)
    (pools : List (String × NodePool)) (tolerates : List Toleration → Taint → Bool) where
  IsFilled-is_current :
      (entry : String × Workload) (f : IsFilled library yad revision pools entry)
      → KeepsTemplate library
      → ToleratesExisting tolerates
      → ToleratesMore tolerates
      → is_current tolerates revision entry.0 entry.1 f.pool ≡ true
  IsFilled-is_current entry f keeps existing more =
      subst (λ n. is_current tolerates revision n entry.1 f.pool ≡ true) f.named
        (subst (λ l. is_current tolerates revision f.pool.name l f.pool ≡ true) (sym f.read)
          (is_current-apply_template library yad f.pool revision tolerates f.set f.filled keeps
            existing more f.applied))

  needs_delete-IsFilled :
      (loads : List (String × Workload))
      → All (IsFilled library yad revision pools) loads
      → needs_delete tolerates pools loads ≡ []
  unfolding needs_delete
  needs_delete-IsFilled [] h = refl
  needs_delete-IsFilled ((n, l) ∷ loads) h =
      rw (h.0.found, needs_delete) (needs_delete-IsFilled loads h.1)

  needs_update-IsFilled :
      (loads : List (String × Workload))
      → KeepsTemplate library
      → ToleratesExisting tolerates
      → ToleratesMore tolerates
      → All (IsFilled library yad revision pools) loads
      → needs_update tolerates revision pools loads ≡ []
  unfolding needs_update
  needs_update-IsFilled [] keeps existing more h = refl
  needs_update-IsFilled ((n, l) ∷ loads) keeps existing more h =
      rw (h.0.found, needs_update, IsFilled-is_current (n, l) h.0 keeps existing more)
        (needs_update-IsFilled loads keeps existing more h.1)

nothing_in : (l : List String) → ((s : String) → has s l ≡ false) → l ≡ []
nothing_in [] h = refl
nothing_in (x ∷ xs) h = cc (rw (eq_refl x) at (h x))

needs_create-covered :
    (tolerates : List Toleration → Taint → Bool) (expected : String)
    (loads : List (String × Workload)) (pools : List (String × NodePool))
    → ((s : String) → has s (keys pools) ≡ true → has s (keys loads) ≡ true)
    → (classify_workloads tolerates expected loads pools).2 ≡ []
needs_create-covered tolerates expected loads pools covered = nothing_in _ λ s.
    ground
      (arith, has-classify_workloads tolerates expected s loads pools, covered s, has-keys s loads)

-- Where every node pool has a workload recorded under its name, every recorded workload was read
-- from a deployment that applyTemplate filled for the pool of that name and for the revision, and
-- SetControllerReference and the tolerations behave as documented, classifyWorkloads finds nothing
-- to delete, to update or to create.
pub classify_workloads_quiet :
    (library : Library) (yad : DaemonTemplate) (revision : String)
    (tolerates : List Toleration → Taint → Bool) (loads : List (String × Workload))
    (pools : List (String × NodePool))
    → KeepsTemplate library
    → ToleratesExisting tolerates
    → ToleratesMore tolerates
    → All (IsFilled library yad revision pools) loads
    → ((s : String) → has s (keys pools) ≡ true → has s (keys loads) ≡ true)
    → classify_workloads tolerates revision loads pools ≡ ([], [], [])
unfolding classify_workloads
classify_workloads_quiet library yad revision tolerates loads pools keeps existing more filled
      covered =
    rw
      (
        needs_delete-IsFilled library yad revision pools tolerates loads filled,
        needs_update-IsFilled library yad revision pools tolerates loads keeps existing more filled,
        needs_create-covered tolerates revision loads pools covered,
      )
      refl
