-- ===== src/Daemon/Manage.antt =====
-- manageWorkloads, manageWorkloadsProvision, calculateStatus and updateYurtAppDaemon of
-- pkg/yurtappmanager/controller/yurtappdaemon/yurtappdaemon_controller.go over a world `W`.
use yurt_app_manager.Prelude.{
  ℕ, ℤ, GoMap, zero, suc, Bool, true, false, Option, none, some, List, [], ◌∷◌, ◌++◌, ◌==◌, ◌&&◌,
  ◌||◌, not, String, Error, Result, ok, err, panic, GoSlice, eqb, keys, length, lookup, is_empty,
  if◌then◌else◌,
}
use yurt_app_manager.NodePool.Types.{Taint}
use yurt_app_manager.Daemon.{Toleration, Workload, NodePool, classify_workloads, get_node_pool_name}
use yurt_app_manager.AppSet.Types.{Condition}
use yurt_app_manager.AppSet.Conditions.{new_condition, set_condition}
use yurt_app_manager.AppSet.Status.{same_conditions}
use yurt_app_manager.AppSet.Update.{get_elem?, as_list}
use yurt_app_manager.Util.SlowStart.{slow_start_batch}

pub record WorkloadControl (W : Type 0) : Type 0 where
  pub get_all_workloads : W → Result (List Workload) × W
  pub create_workload : NodePool → String → W → Option Error × W
  pub update_workload : Workload → NodePool → String → W → Option Error × W
  pub delete_workload : Workload → W → Option Error × W

pub record DaemonStatus : Type 0 where
  pub observed_generation : ℕ
  pub collision_count : Option ℕ
  pub current_revision : String
  pub conditions : List Condition
  pub template_type : String
  pub node_pools : GoSlice String

pub record YurtAppDaemon : Type 0 where
  pub name : String
  pub namespace : String
  pub generation : ℕ
  pub deleting : Bool
  pub has_stateful_set_template : Bool
  pub has_deployment_template : Bool
  -- the labels of the templates, where there are such
  pub stateful_set_labels : GoMap String
  pub deployment_labels : GoMap String
  pub revision_history_limit : Option ℤ
  pub status : DaemonStatus

abbrev pub pool_at : List (String × NodePool) → String → NodePool
pool_at pools name = elim (lookup name pools) [
  | none ↦ record { name = ""; taints = [] }
  | some p ↦ p
]

module _ {W : Type 0} (control : WorkloadControl W) where
  -- A time-out counts as done.
  pub create_call : List (String × NodePool) → String → List String → ℕ → W → Option Error × W
  create_call pools revision creates index w = elim (get_elem? creates index) [
    | none ↦ (none, w)
    | some name ↦
        (let (e, w1) = control.create_workload (pool_at pools name) revision w in
          (
            elim e [
              | none ↦ none
              | some Error.timeout ↦ none
              | some x ↦ some (Error.wrapped "create workload by nodepool error" x)
            ],
            w1,
          ))
  ]

  unfoldable pub delete_workloads : List Workload → W → List Error × W
  delete_workloads [] w = ([], w)
  delete_workloads (d ∷ ds) w =
      let (e, w1) = control.delete_workload d w in
      let (errors, w2) = delete_workloads ds w1 in
      (elim e [ none ↦ errors | some x ↦ Error.wrapped "delete workload error" x ∷ errors ], w2)

  pub update_call : List (String × NodePool) → String → List Workload → ℕ → W → Option Error × W
  update_call pools revision updates index w = elim (get_elem? updates index) [
    | none ↦ (none, w)
    | some u ↦ control.update_workload u (pool_at pools (get_node_pool_name u)) revision w
  ]

  -- `aggregate` is NewAggregate of apimachinery, `text` the Error method.
  module _ (order : ℕ → ℕ → List ℕ) (aggregate : List Error → Error) (text : Error → String) where
    abbrev pub batch_result : Option (ℕ × Option Error × W) → W → Option Error × W
    batch_result none w = (none, w)
    batch_result (some (n, e, w')) w = (e, w')

    -- Whether there was anything to do, and the errors.
    unfoldable pub manage_workloads_provision :
        List (String × NodePool) → String → List Workload → List String → W → Bool × List Error × W
    unfolding create_call delete_workloads
    manage_workloads_provision pools revision deletes creates w =
        let (created, w1) =
          (if is_empty creates
            then (none, w)
            else batch_result
                (slow_start_batch (create_call pools revision creates) order (length creates) 1 w)
                w) in
        let (errors, w2) = delete_workloads deletes w1 in
        (not (is_empty creates) || not (is_empty deletes), as_list created ++ errors, w2)

    unfoldable pub update_workloads :
        List (String × NodePool) → String → List Workload → W → Option Error × W
    unfolding update_call
    update_workloads pools revision updates w =
        if is_empty updates
        then (none, w)
        else batch_result
            (slow_start_batch (update_call pools revision updates) order (length updates) 1 w) w

    -- manageWorkloads after its call of classifyWorkloads.
    unfoldable pub manage_classified :
        ℕ
        → YurtAppDaemon
        → List (String × NodePool)
        → String
        → W
        → List Workload × List Workload × List String
        → DaemonStatus × Option Error × W
    unfolding manage_workloads_provision update_workloads
    manage_classified now daemon pools revision w (deletes, updates, creates) =
        let (provisioned, errors, w1) =
          manage_workloads_provision pools revision deletes creates w in
        let status : DaemonStatus = record daemon.status { node_pools = some (keys pools) } in
        let conditions =
          (if provisioned
            then set_condition status.conditions
                (new_condition now "WorkLoadProvisioned" "True" "" "")
            else status.conditions) in
        let (updated, w2) = update_workloads pools revision updates w1 in
        elim errors [
          | e ∷ es ↦ (
            record status {
              conditions = set_condition status.conditions (
                  new_condition now "WorkLoadProvisioned" "False" "Error"
                    (text (aggregate (e ∷ es))));
            },
            some (Error.wrapped "fail to manage workload provision" (aggregate (e ∷ es))),
            w1,
          )
          | [] ↦ (
            record status {
              conditions = set_condition conditions (elim updated [
                | none ↦ new_condition now "WorkLoadUpdated" "True" "" ""
                | some x ↦ new_condition now "WorkLoadUpdated" "False" "Error" (text x)
              ]);
            },
            updated,
            w2,
          )
        ]

    unfoldable pub manage_workloads :
        (List Toleration → Taint → Bool)
        → ℕ
        → YurtAppDaemon
        → List (String × Workload)
        → List (String × NodePool)
        → String
        → W
        → DaemonStatus × Option Error × W
    unfolding manage_classified
    manage_workloads tolerates now daemon loads pools revision w =
        manage_classified now daemon pools revision w
          (classify_workloads tolerates revision loads pools)

unfoldable pub calculate_status : DaemonStatus → String → ℕ → String → DaemonStatus
calculate_status status current count template = record status {
  collision_count = some count;
  current_revision = if status.current_revision == "" then current else status.current_revision;
  template_type = template;
}

abbrev pub same_names : List String → List String → Bool
same_names [] [] = true
same_names [] (t ∷ ts) = false
same_names (s ∷ ss) [] = false
same_names (s ∷ ss) (t ∷ ts) = s == t && same_names ss ts

abbrev pub same_slice : GoSlice String → GoSlice String → Bool
same_slice none none = true
same_slice none (some l) = false
same_slice (some l) none = false
same_slice (some l) (some m) = same_names l m

-- Whether nothing is to be written; a collision count that is `nil` is dereferenced, where the
-- revisions are the same.
pub same_status : YurtAppDaemon → DaemonStatus → DaemonStatus → Result Bool
same_status daemon old new =
    if not (old.current_revision == new.current_revision)
    then ok false
    else elim old.collision_count [
      | none ↦ panic
      | some c ↦ elim new.collision_count [
        | none ↦ panic
        | some d ↦ ok (
            eqb c d
            && old.template_type == new.template_type
            && eqb daemon.generation new.observed_generation
            && same_slice old.node_pools new.node_pools
            && same_conditions old.conditions new.conditions)
      ]
    ]

pub record Api (W : Type 0) : Type 0 where
  pub update_status : YurtAppDaemon → W → Option Error × W
  pub get : String → String → W → Result YurtAppDaemon × W

module _ {W : Type 0} (api : Api W) where
  pub retry_update : ℕ → DaemonStatus → YurtAppDaemon → W → Result YurtAppDaemon × W
  retry_update zero status daemon w =
      let obj : YurtAppDaemon = record daemon { status = status } in
      let (e, w1) = api.update_status obj w in (elim e [ none ↦ ok obj | some x ↦ err x ], w1)
  retry_update (suc retries) status daemon w =
      let obj : YurtAppDaemon = record daemon { status = status } in
      let (e, w1) = api.update_status obj w in
      let (got, w2) = api.get daemon.namespace daemon.name w1 in
      elim e [
        | none ↦ (ok obj, w1)
        | some x ↦ elim got [
          | err y ↦ (err y, w2)
          | panic ↦ (panic, w2)
          | ok tmp ↦ retry_update retries status tmp w2
        ]
      ]

  unfoldable pub update_yurt_app_daemon :
      YurtAppDaemon → DaemonStatus → DaemonStatus → W → Result YurtAppDaemon × W
  unfolding retry_update same_status
  update_yurt_app_daemon daemon old new w = elim (same_status daemon old new) [
    | err e ↦ (err e, w)
    | panic ↦ (panic, w)
    | ok true ↦ (ok daemon, w)
    | ok false ↦ retry_update 5 (record new { observed_generation = daemon.generation }) daemon w
  ]
