-- ===== src/Daemon/Deployments/Managed.antt =====
-- Deployments that applyTemplate has filled, under manageWorkloads.
use yurt_app_manager.Prelude.{
  ℕ, Bool, true, none, some, List, String, Error, has, keys, All, ◌≡◌, refl,
}
use yurt_app_manager.NodePool.Types.{Taint}
use yurt_app_manager.AppSet.Conditions.{new_condition, set_condition}
use yurt_app_manager.Daemon.{Toleration, Workload, NodePool}
use yurt_app_manager.Daemon.Classification.{ToleratesExisting}
use yurt_app_manager.Daemon.Manage.{
  WorkloadControl, YurtAppDaemon, delete_workloads, manage_workloads_provision, update_workloads,
  manage_classified, manage_workloads,
}
use yurt_app_manager.Daemon.Deployments.{DaemonTemplate, Library}
use yurt_app_manager.Daemon.Deployments.Applied.{KeepsTemplate, ToleratesMore}
use yurt_app_manager.Daemon.Deployments.Quiet.{IsFilled, classify_workloads_quiet}

-- Where every node pool has a workload recorded under its name, every recorded workload was read
-- from a deployment that applyTemplate filled for the pool of that name and for the revision, and
-- SetControllerReference and the tolerations behave as documented, manageWorkloads makes no call: the
-- world stays, there is no error, and the status has the names of the pools and the condition that the
-- workloads are updated.
pub manage_workloads_quiet :
    {W : Type 0} (control : WorkloadControl W) (order : ℕ → ℕ → List ℕ)
    (aggregate : List Error → Error) (text : Error → String) (now : ℕ) (daemon : YurtAppDaemon)
    (library : Library) (yad : DaemonTemplate) (revision : String)
    (tolerates : List Toleration → Taint → Bool) (loads : List (String × Workload))
    (pools : List (String × NodePool)) (w : W)
    → KeepsTemplate library
    → ToleratesExisting tolerates
    → ToleratesMore tolerates
    → All (IsFilled library yad revision pools) loads
    → ((s : String) → has s (keys pools) ≡ true → has s (keys loads) ≡ true)
    → manage_workloads control order aggregate text tolerates now daemon loads pools revision w ≡ (
      record daemon.status {
        node_pools = some (keys pools);
        conditions =
            set_condition daemon.status.conditions
              (new_condition now "WorkLoadUpdated" "True" "" "");
      },
      none,
      w,
    )
unfolding manage_workloads manage_classified manage_workloads_provision update_workloads
    delete_workloads
manage_workloads_quiet control order aggregate text now daemon library yad revision tolerates loads
      pools w keeps existing more filled covered =
    rw
      (classify_workloads_quiet library yad revision tolerates loads pools keeps existing more
        filled covered)
      refl
