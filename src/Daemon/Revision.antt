-- ===== src/Daemon/Revision.antt =====
-- pkg/yurtappmanager/controller/yurtappdaemon/revision.go: the revisions of a YurtAppDaemon, the same
-- code as for a YurtAppSet over another type. The API calls are the record Api over a world `W`,
-- the functions of k8s.io the record History of AppSet.Revision.
pub mod SameAsSet
use yurt_app_manager.Prelude.{
  GoMap, pos, negsuc, ℕ, zero, suc, ◌+◌, ◌-◌, ◌>>=◌, Bool, true, false, Option, none, some, List,
  [], ◌∷◌, ◌==◌, String, Error, Result, ok, err, panic, leb, add32, length, if◌then◌else◌,
}
use yurt_app_manager.AppSet.Revision.{
  ControllerRevision, History, last?, drop, named, changed_in_place, beside, out_of_fuel,
  next_revision,
}
use yurt_app_manager.Daemon.Manage.{YurtAppDaemon}

pub record Api (W : Type 0) : Type 0 where
  pub controlled_histories : YurtAppDaemon → W → Result (List ControllerRevision) × W
  pub create : ControllerRevision → W → Option Error × W
  pub get : String → String → W → Result ControllerRevision × W
  pub update : ControllerRevision → W → Option Error × W
  pub delete : ControllerRevision → W → Option Error × W
  pub get_yurt_app_daemon_patch : YurtAppDaemon → Result String

abbrev pub collisions : Option ℕ → ℕ
collisions none = 0
collisions (some n) = n

module _ {W : Type 0} (api : Api W) (history : History) where
  -- The loop of cleanExpiredRevision: the live revision is passed over.
  unfoldable pub clean_from : String → ℕ → List ControllerRevision → W → Option Error × W
  clean_from live exceed [] w = (none, w)
  clean_from live zero (r ∷ rs) w = (none, w)
  clean_from live (suc exceed) (r ∷ rs) w =
      let passed = clean_from live exceed rs w in
      let (e, w1) = api.delete r w in
      let deleted = clean_from live exceed rs w1 in
      if r.name == live then passed else elim e [ none ↦ deleted | some x ↦ (some x, w1) ]

  -- With a negative limit the slice after the loop is out of range.
  unfoldable pub clean_expired_revision :
      YurtAppDaemon → List ControllerRevision → W → Result (List ControllerRevision) × W
  unfolding clean_from
  clean_expired_revision yad revisions w = elim yad.revision_history_limit [
    | none ↦ (panic, w)
    | some (pos limit) ↦
        (let exceed = length revisions - limit in
          let (e, w1) = clean_from yad.status.current_revision exceed revisions w in
          if leb (length revisions) limit
          then (ok revisions, w)
          else (elim e [ none ↦ ok (drop exceed revisions) | some x ↦ err x ], w1))
    | some (negsuc n) ↦
        (let (e, w1) =
            clean_from yad.status.current_revision (length revisions + suc n) revisions w in
          (elim e [ none ↦ panic | some x ↦ err x ], w1))
  ]

  -- The attempts to create a revision, on fuel; each collision counts.
  unfoldable pub create_from :
      ℕ → YurtAppDaemon → ControllerRevision → ℕ → W → Option (Result ControllerRevision × ℕ × W)
  create_from zero parent revision count w = none
  create_from (suc fuel) parent revision count w =
      let clone : ControllerRevision = record revision {
        name = history.name_at parent.name revision count;
      } in
      let (e, w1) = api.create clone w in
      let (got, w2) = api.get parent.namespace clone.name w1 in
      let again = create_from fuel parent revision (add32 count 1) w2 in
      elim e [
        | none ↦ some (ok clone, count, w1)
        | some Error.already_exists ↦ elim got [
          | err x ↦ some (err x, count, w2)
          | panic ↦ some (panic, count, w2)
          | ok exists ↦ if exists.raw == clone.raw then some (ok exists, count, w2) else again
        ]
        | some x ↦ some (err x, count, w1)
      ]

  unfoldable pub new_revision : YurtAppDaemon → ℕ → ℕ → Result ControllerRevision
  new_revision yad revision count = api.get_yurt_app_daemon_patch yad >>= λ patch.
      if yad.has_stateful_set_template
      then placed yad.stateful_set_labels patch
      else if yad.has_deployment_template
      then placed yad.deployment_labels patch
      else err (Error.message "YurtAppDaemon need specific WorkloadTemplate")
    where
      placed : GoMap String → String → Result ControllerRevision
      placed labels patch =
          history.new_controller_revision yad.name labels patch revision count >>= λ cr.
          ok (record cr { namespace = yad.namespace })

  module _ (fuel : ℕ) where
    unfoldable pub settle_revision :
        YurtAppDaemon
        → List ControllerRevision
        → ControllerRevision
        → ℕ
        → W
        → Result (ControllerRevision × List ControllerRevision) × ℕ × W
    unfolding create_from
    settle_revision yad revisions made count w =
        elim (last? (history.find_equal_revisions revisions made)) [
          | none ↦ beside revisions (out_of_fuel count w (create_from fuel yad made count w))
          | some equal ↦ elim (last? revisions) [
            | none ↦ (panic, count, w)
            | some latest ↦
                (let rolled : ControllerRevision = record equal { revision = made.revision } in
                  let (e, w1) = api.update rolled w in
                  if history.equal_revision latest equal
                  then (ok (latest, revisions), count, w)
                  else (
                    elim e [
                      | none ↦ ok (rolled, changed_in_place rolled revisions)
                      | some x ↦ err x
                    ],
                    count,
                    w1,
                  ))
          ]
        ]

    unfoldable pub construct_from :
        YurtAppDaemon
        → List ControllerRevision
        → W
        → Result (ControllerRevision × ControllerRevision) × ℕ × W
    unfolding settle_revision new_revision
    construct_from yad revisions w =
        let count = collisions yad.status.collision_count in
        elim (new_revision yad (next_revision revisions) count) [
          | err e ↦ (err e, count, w)
          | panic ↦ (panic, count, w)
          | ok made ↦
              (let (settled, count', w1) = settle_revision yad revisions made count w in
                (
                  elim settled [
                    | err e ↦ err e
                    | panic ↦ panic
                    | ok (update, standing) ↦ elim (named yad.status.current_revision standing) [
                      | none ↦ ok (update, update)
                      | some current ↦ ok (current, update)
                    ]
                  ],
                  count',
                  w1,
                ))
        ]

    -- The current revision and the update revision, and the collision count.
    unfoldable pub construct_yurt_app_daemon_revisions :
        YurtAppDaemon → W → Result (ControllerRevision × ControllerRevision) × ℕ × W
    unfolding clean_expired_revision construct_from
    construct_yurt_app_daemon_revisions yad w =
        let count = collisions yad.status.collision_count in
        let (histories, w1) = api.controlled_histories yad w in
        elim histories [
          | err e ↦ (err e, count, w1)
          | panic ↦ (panic, count, w1)
          | ok revisions ↦
              (let (cleaned, w2) =
                  clean_expired_revision yad (history.sort_controller_revisions revisions) w1 in
                elim cleaned [
                  | err e ↦ (err e, count, w2)
                  | panic ↦ (panic, count, w2)
                  | ok kept ↦ construct_from yad kept w2
                ])
        ]
