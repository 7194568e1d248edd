-- ===== src/Daemon/Reconcile.antt =====
-- Reconcile of pkg/yurtappmanager/controller/yurtappdaemon/yurtappdaemon_controller.go, over a world `W`.
-- The reconciler has a control for deployments only: `deployments`.
mod Examples
use yurt_app_manager.Prelude.{
  ℕ, Bool, true, false, Option, none, some, List, [], ◌∷◌, String, Error, Result, ok, err, panic,
  if◌then◌else◌,
}
use yurt_app_manager.NodePool.Types.{Taint}
use yurt_app_manager.AppSet.Revision.{ControllerRevision, History}
use yurt_app_manager.Daemon.{
  Toleration, Workload, NodePool, get_name_to_node_pools, get_node_pool_to_workload,
}
use yurt_app_manager.Daemon.Manage
use yurt_app_manager.Daemon.Manage.{
  WorkloadControl, DaemonStatus, YurtAppDaemon, manage_workloads, calculate_status,
  update_yurt_app_daemon,
}
use yurt_app_manager.Daemon.Revision
use yurt_app_manager.Daemon.Revision.{construct_yurt_app_daemon_revisions}

module _ {W : Type 0} where
  -- The control, if the reconciler has one for the template, and the type of the template.
  unfoldable pub get_template_controls :
      Option (WorkloadControl W)
      → Option (WorkloadControl W)
      → YurtAppDaemon
      → Result (Option (WorkloadControl W) × String)
  get_template_controls sets deployments yad =
      if yad.has_stateful_set_template
      then ok (sets, "StatefulSet")
      else if yad.has_deployment_template
      then ok (deployments, "Deployment")
      else err (Error.message "The appropriate WorkloadTemplate was not found")

  unfoldable pub update_status :
      Manage.Api W
      → YurtAppDaemon
      → DaemonStatus
      → DaemonStatus
      → ControllerRevision
      → ℕ
      → String
      → W
      → Result (Unit {0}) × W
  unfolding calculate_status update_yurt_app_daemon
  update_status api yad new old current count template w =
      let (updated, w1) =
        update_yurt_app_daemon api yad old (calculate_status new current.name count template) w in
      (elim updated [ ok _ ↦ ok tt | err e ↦ err e | panic ↦ panic ], w1)

  module _ (revision_api : Revision.Api W) (status_api : Manage.Api W) (history : History)
      (fuel : ℕ) (order : ℕ → ℕ → List ℕ) (aggregate : List Error → Error) (text : Error → String)
      (tolerates : List Toleration → Taint → Bool) (selector_error : Option Error)
      (list_node_pools : W → Result (List NodePool) × W) (now : ℕ) where
    -- From the workloads and the node pools to the status. `expected` is the update revision.
    unfoldable pub reconcile_workloads :
        WorkloadControl W
        → String
        → YurtAppDaemon
        → ControllerRevision
        → ControllerRevision
        → ℕ
        → W
        → Result (Unit {0}) × W
    unfolding manage_workloads get_node_pool_to_workload get_name_to_node_pools update_status
    reconcile_workloads control template yad current expected count w =
        let (all, w1) = control.get_all_workloads w in
        let (listed, w2) = list_node_pools w1 in
        elim (get_node_pool_to_workload all) [
          | err e ↦ (err e, w1)
          | panic ↦ (panic, w1)
          | ok loads ↦ elim (get_name_to_node_pools selector_error listed) [
            | err e ↦ (err e, w1)
            | panic ↦ (panic, w2)
            | ok pools ↦
                (let (status, failed, w3) =
                    manage_workloads control order aggregate text tolerates now yad loads pools
                      expected.name w2 in
                  let (updated, w4) =
                    update_status status_api yad status yad.status current count template w3 in
                  elim failed [ some e ↦ (err e, w3) | none ↦ (updated, w4) ])
          ]
        ]

    unfoldable pub reconcile_found :
        Option (WorkloadControl W)
        → Option (WorkloadControl W)
        → YurtAppDaemon
        → W
        → Result (Unit {0}) × W
    unfolding construct_yurt_app_daemon_revisions get_template_controls reconcile_workloads
    reconcile_found sets deployments yad w =
        let (revisions, count, w1) =
          construct_yurt_app_daemon_revisions revision_api history fuel yad w in
        if yad.deleting then (ok tt, w) else elim revisions [
          | err e ↦ (err e, w1)
          | panic ↦ (panic, w1)
          | ok (current, update) ↦ elim (get_template_controls sets deployments yad) [
            | err e ↦ (err e, w1)
            | panic ↦ (panic, w1)
            | ok (none, template) ↦ (err (Error.message "fail to find control"), w1)
            | ok (some control, template) ↦
                reconcile_workloads control template yad current update count w1
          ]
        ]

    -- The controls of the reconciler: there is none for StatefulSets.
    unfoldable pub reconcile : WorkloadControl W → Result YurtAppDaemon → W → Result (Unit {0}) × W
    unfolding reconcile_found
    reconcile deployments (err Error.not_found) w = (ok tt, w)
    reconcile deployments (err e) w = (err e, w)
    reconcile deployments panic w = (panic, w)
    reconcile deployments (ok yad) w = reconcile_found none (some deployments) yad w
