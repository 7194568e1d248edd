-- ===== src/AppSet/Construct.antt =====
-- createControllerRevision and constructYurtAppSetRevisions of
-- pkg/yurtappmanager/controller/yurtappset/revision.go, and Reconcile of yurtappset_controller.go.
-- `fuel` bounds the attempts to create a revision.
use yurt_app_manager.Prelude.{
  ℕ, Bool, false, Option, none, some, List, [], ◌∷◌, String, Error, Result, ok, err, panic,
  if◌then◌else◌,
}
use yurt_app_manager.AppSet.Types.{YurtAppSet}
use yurt_app_manager.AppSet.Revision.{
  ControllerRevision, History, Api, last?, named, collisions, changed_in_place, beside,
  next_revision, clean_expired_revision, create_from, out_of_fuel, new_revision,
}
use yurt_app_manager.AppSet.Pools.{ControlInterface, get_name_to_pool, get_next_patches}
use yurt_app_manager.AppSet.Update.{manage_pools}
use yurt_app_manager.AppSet.Status
use yurt_app_manager.AppSet.Status.{update_status}

module _ {W : Type 0} (api : Api W) (history : History) (fuel : ℕ) where
  unfoldable pub create_controller_revision :
      YurtAppSet → ControllerRevision → ℕ → W → Result ControllerRevision × ℕ × W
  create_controller_revision parent revision count w =
      out_of_fuel count w (create_from api history fuel parent revision count w)

  -- Whether the last revision is the last of the equal ones.
  abbrev pub is_immediately_prior : List ControllerRevision → List ControllerRevision → Bool
  is_immediately_prior revisions equal = elim (last? revisions) [
    | none ↦ false
    | some r ↦ elim (last? equal) [ none ↦ false | some e ↦ history.equal_revision r e ]
  ]

  -- The update revision: the last one, an older one that is rolled back to, or a new one; and the
  -- slice of revisions, in which a roll-back has changed the older one.
  unfoldable pub settle_revision :
      YurtAppSet
      → List ControllerRevision
      → ControllerRevision
      → ℕ
      → W
      → Result (ControllerRevision × List ControllerRevision) × ℕ × W
  unfolding create_controller_revision
  settle_revision yas revisions made count w =
      elim (last? (history.find_equal_revisions revisions made)) [
        | none ↦ beside revisions (create_controller_revision yas made count w)
        | some equal ↦ elim (last? revisions) [
          | none ↦ (panic, count, w)
          | some latest ↦
              (let rolled : ControllerRevision = record equal { revision = made.revision } in
                let (e, w1) = api.update rolled w in
                if history.equal_revision latest equal
                then (ok (latest, revisions), count, w)
                else (
                  elim e [ none ↦ ok (rolled, changed_in_place rolled revisions) | some x ↦ err x ],
                  count,
                  w1,
                ))
        ]
      ]

  -- The revisions that are left: the current one, the update revision and the collision count.
  unfoldable pub construct_from :
      YurtAppSet
      → List ControllerRevision
      → W
      → Result (ControllerRevision × ControllerRevision) × ℕ × W
  unfolding settle_revision
  construct_from yas revisions w =
      let count = collisions yas.status.collision_count in
      elim (new_revision api history yas (next_revision revisions) count) [
        | err e ↦ (err e, count, w)
        | panic ↦ (panic, count, w)
        | ok made ↦
            (let (settled, count', w1) = settle_revision yas revisions made count w in
              (
                elim settled [
                  | err e ↦ err e
                  | panic ↦ panic
                  | ok (update, standing) ↦ elim (named yas.status.current_revision standing) [
                    | none ↦ ok (update, update)
                    | some current ↦ ok (current, update)
                  ]
                ],
                count',
                w1,
              ))
      ]

  unfoldable pub construct_yurt_app_set_revisions :
      YurtAppSet → W → Result (ControllerRevision × ControllerRevision) × ℕ × W
  unfolding construct_from
  construct_yurt_app_set_revisions yas w =
      let count = collisions yas.status.collision_count in
      let (histories, w1) = api.controlled_histories yas w in
      elim histories [
        | err e ↦ (err e, count, w1)
        | panic ↦ (panic, count, w1)
        | ok revisions ↦
            (let (cleaned, w2) =
                clean_expired_revision api history yas (history.sort_controller_revisions revisions)
                  w1 in
              elim cleaned [
                | err e ↦ (err e, count, w2)
                | panic ↦ (panic, count, w2)
                | ok kept ↦ construct_from yas kept w2
              ])
      ]

  -- The controls of the pools of each template type.
  pub get_pool_controls :
      ControlInterface W
      → ControlInterface W
      → YurtAppSet
      → Result (ControlInterface W × List (ControlInterface W))
  get_pool_controls sets deployments yas =
      if yas.has_stateful_set_template
      then ok (sets, deployments ∷ [])
      else if yas.has_deployment_template
      then ok (deployments, sets ∷ [])
      else err (Error.message "The appropriate WorkloadTemplate was not found")

  module _ (status_api : Status.Api W) (sets deployments : ControlInterface W)
      (order : ℕ → ℕ → List ℕ) (sort : List String → List String) (aggregate : List Error → Error)
      (text : Error → String) (fresh now : ℕ) where
    -- The error of managePools is an event only: the status is written all the same.
    pub reconcile_pools :
        YurtAppSet
        → ControlInterface W
        → List (ControlInterface W)
        → String
        → String
        → ℕ
        → W
        → Result YurtAppSet × W
    reconcile_pools yas control others current expected count w =
        let (pools, w1) = get_name_to_pool control w in
        elim pools [
          | err e ↦ (ok yas, w1)
          | panic ↦ (panic, w1)
          | ok name_to_pool ↦
              (let (status, _, w2) =
                  manage_pools control others order sort aggregate text now yas name_to_pool
                    (get_next_patches yas.pools) expected w1 in
                update_status status_api control fresh now yas status yas.status name_to_pool
                  current count w2)
        ]

    pub reconcile_found : YurtAppSet → W → Result YurtAppSet × W
    unfolding reconcile_pools construct_yurt_app_set_revisions get_pool_controls
    reconcile_found yas w =
        let (revisions, count, w1) = construct_yurt_app_set_revisions yas w in
        if yas.deleting then (ok yas, w) else elim revisions [
          | err e ↦ (err e, w1)
          | panic ↦ (panic, w1)
          | ok (current, update) ↦ elim (get_pool_controls sets deployments yas) [
            | err e ↦ (err e, w1)
            | panic ↦ (panic, w1)
            | ok (control, others) ↦
                reconcile_pools yas control others current.name update.name count w1
          ]
        ]

    -- The set, where it is found; `none` where it is gone.
    pub reconcile : Result YurtAppSet → W → Result (Option YurtAppSet) × W
    unfolding reconcile_found
    reconcile (err Error.not_found) w = (ok none, w)
    reconcile (err e) w = (err e, w)
    reconcile panic w = (panic, w)
    reconcile (ok yas) w = done (reconcile_found yas w)
      where
        done : Result YurtAppSet × W → Result (Option YurtAppSet) × W
        done (ok y, w') = (ok (some y), w')
        done (err e, w') = (err e, w')
        done (panic, w') = (panic, w')
