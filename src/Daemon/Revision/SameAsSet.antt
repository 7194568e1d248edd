-- ===== src/Daemon/Revision/SameAsSet.antt =====
-- The two copies of revision.go against each other.
use yurt_app_manager.Prelude.{
  pos, negsuc, ◌+◌, ℕ, zero, suc, ◌-◌, Bool, true, false, Option, none, some, List, [], ◌∷◌, ◌==◌,
  ◌||◌, String, Error, Result, ok, err, panic, ◌>>=◌, leb, add32, length, if◌then◌else◌, ◌≡◌, refl,
  ap, ◌∙◌, sym, Option-cases, inl, inr,
}
use yurt_app_manager.AppSet.Types.{YurtAppSet, Int32Pointer}
use yurt_app_manager.AppSet.Revision.{
  ControllerRevision, History, last?, drop, named, changed_in_place, beside, out_of_fuel,
  next_revision,
}
use yurt_app_manager.AppSet.Revision as SetRevision
use yurt_app_manager.AppSet.Construct.{construct_yurt_app_set_revisions}
use yurt_app_manager.AppSet.Construct as SetConstruct
use yurt_app_manager.Daemon.Manage.{YurtAppDaemon}
use yurt_app_manager.Daemon.Revision.{
  Api, collisions, clean_from, clean_expired_revision, create_from, new_revision, settle_revision,
  construct_from, construct_yurt_app_daemon_revisions,
}

abbrev pub pointer_to : Option ℕ → Option Int32Pointer
pointer_to none = none
pointer_to (some n) = some (record { address = 0; value = n })

-- A YurtAppSet with what the revisions of a YurtAppDaemon depend on.
abbrev pub set_of : YurtAppDaemon → YurtAppSet
set_of yad = record {
  name = yad.name;
  namespace = yad.namespace;
  generation = yad.generation;
  deleting = yad.deleting;
  has_stateful_set_template = yad.has_stateful_set_template;
  has_deployment_template = yad.has_deployment_template;
  stateful_set_labels = yad.stateful_set_labels;
  deployment_labels = yad.deployment_labels;
  pools = [];
  revision_history_limit = yad.revision_history_limit;
  status = record {
    observed_generation = yad.status.observed_generation;
    collision_count = pointer_to yad.status.collision_count;
    current_revision = yad.status.current_revision;
    conditions = yad.status.conditions;
    pool_replicas = none;
    ready_replicas = 0;
    replicas = 0;
    template_type = yad.status.template_type;
  };
}

-- The same server, asked for the histories and the patch of that YurtAppDaemon.
abbrev pub api_of : {W : Type 0} → Api W → YurtAppDaemon → SetRevision.Api W
api_of api yad = record {
  controlled_histories = λ _. api.controlled_histories yad;
  create = api.create;
  get = api.get;
  update = api.update;
  delete = api.delete;
  get_yurt_app_set_patch = λ _. api.get_yurt_app_daemon_patch yad;
}

same_branch :
    {A : Type 0} (a b : Bool) (t u y z : A)
    → (a || b) ≡ true
    → (if a then t else if b then u else y) ≡ (if a then t else if b then u else z)
same_branch true b t u y z h = refl
same_branch false true t u y z h = refl
same_branch false false t u y z h = cc

module _ {W : Type 0} (api : Api W) (history : History) (yad : YurtAppDaemon) where
  clean_from_same :
      (live : String) (exceed : ℕ) (rs : List ControllerRevision) (w : W)
      → clean_from api history live exceed rs w
        ≡ SetRevision.clean_from (api_of api yad) history live exceed rs w
  unfolding clean_from SetRevision.clean_from
  clean_from_same live exceed [] w = refl
  clean_from_same live zero (r ∷ rs) w = refl
  clean_from_same live (suc exceed) (r ∷ rs) w = λ i.
      if r.name == live then clean_from_same live exceed rs w i else elim (api.delete r w).0 [
        | none ↦ clean_from_same live exceed rs (api.delete r w).1 i
        | some x ↦ (some x, (api.delete r w).1)
      ]

  create_from_same :
      (fuel : ℕ) (revision : ControllerRevision) (count : ℕ) (w : W)
      → create_from api history fuel yad revision count w
        ≡ SetRevision.create_from (api_of api yad) history fuel (set_of yad) revision count w
  unfolding create_from SetRevision.create_from
  create_from_same zero revision count w = refl
  create_from_same (suc fuel) revision count w =
      let clone : ControllerRevision = record revision {
        name = history.name_at yad.name revision count;
      } in
      let w1 : W = (api.create clone w).1 in
      let w2 : W = (api.get yad.namespace clone.name w1).1 in
      λ i. elim (api.create clone w).0 [
        | none ↦ some (ok clone, count, w1)
        | some Error.already_exists ↦ elim (api.get yad.namespace clone.name w1).0 [
          | err x ↦ some (err x, count, w2)
          | panic ↦ some (panic, count, w2)
          | ok exists ↦
              if exists.raw == clone.raw
              then some (ok exists, count, w2)
              else create_from_same fuel revision (add32 count 1) w2 i
        ]
        | some x ↦ some (err x, count, w1)
      ]

  settle_revision_same :
      (fuel : ℕ) (revisions : List ControllerRevision) (made : ControllerRevision) (count : ℕ)
      (w : W)
      → settle_revision api history fuel yad revisions made count w
        ≡ SetConstruct.settle_revision
            (api_of api yad)
            history
            fuel
            (set_of yad)
            revisions
            made
            count
            w
  unfolding settle_revision SetConstruct.settle_revision SetConstruct.create_controller_revision
  settle_revision_same fuel revisions made count w =
      elim (Option-cases (last? (history.find_equal_revisions revisions made))) [
        | inl e ↦
            rw (e, settle_revision, SetConstruct.settle_revision)
              (ap (λ v. beside revisions (out_of_fuel count w v))
                (create_from_same fuel made count w))
        | inr (equal, e) ↦ rw (e, settle_revision, SetConstruct.settle_revision) refl
      ]

  collisions_same :
      SetRevision.collisions (pointer_to yad.status.collision_count)
      ≡ collisions yad.status.collision_count
  collisions_same = elim (Option-cases yad.status.collision_count) [
    | inl e ↦ rw (e) refl
    | inr (n, e) ↦ rw (e) refl
  ]

  new_revision_same :
      (revision count : ℕ)
      → (yad.has_stateful_set_template || yad.has_deployment_template) ≡ true
      → new_revision api history yad revision count
        ≡ SetRevision.new_revision (api_of api yad) history (set_of yad) revision count
  unfolding new_revision SetRevision.new_revision
  new_revision_same revision count template =
      ap (λ placed. api.get_yurt_app_daemon_patch yad >>= placed)
        (λ i patch.
          same_branch yad.has_stateful_set_template yad.has_deployment_template
            (history.new_controller_revision yad.name yad.stateful_set_labels patch revision count
              >>= λ cr. ok (record cr { namespace = yad.namespace }))
            (history.new_controller_revision yad.name yad.deployment_labels patch revision count
              >>= λ cr. ok (record cr { namespace = yad.namespace }))
            (err (Error.message "YurtAppDaemon need specific WorkloadTemplate"))
            (err (Error.message "YurtAppSet need specific WorkloadTemplate")) template i)

  clean_expired_revision_same :
      (revisions : List ControllerRevision) (w : W)
      → clean_expired_revision api history yad revisions w
        ≡ SetRevision.clean_expired_revision (api_of api yad) history (set_of yad) revisions w
  unfolding clean_expired_revision SetRevision.clean_expired_revision
  clean_expired_revision_same revisions w = elim (Option-cases yad.revision_history_limit) [
    | inl e ↦ rw (e, clean_expired_revision, SetRevision.clean_expired_revision) refl
    | inr (negsuc n, e) ↦
        rw (e, clean_expired_revision, SetRevision.clean_expired_revision)
          (λ i.
            let cleaned : Option Error × W =
              clean_from_same yad.status.current_revision (length revisions + suc n) revisions w
                i in
            (elim cleaned.0 [ none ↦ panic | some x ↦ err x ], cleaned.1))
    | inr (pos limit, e) ↦
        rw (e, clean_expired_revision, SetRevision.clean_expired_revision)
          (λ i.
            let cleaned : Option Error × W =
              clean_from_same yad.status.current_revision (length revisions - limit) revisions w
                i in
            if leb (length revisions) limit then (ok revisions, w) else (
              elim cleaned.0 [
                | none ↦ ok (drop (length revisions - limit) revisions)
                | some x ↦ err x
              ],
              cleaned.1,
            ))
  ]

  construct_from_same :
      (fuel : ℕ) (revisions : List ControllerRevision) (w : W)
      → (yad.has_stateful_set_template || yad.has_deployment_template) ≡ true
      → construct_from api history fuel yad revisions w
        ≡ SetConstruct.construct_from (api_of api yad) history fuel (set_of yad) revisions w
  unfolding construct_from SetConstruct.construct_from
  construct_from_same fuel revisions w template = λ i. elim (made_same i) [
    | err e ↦ (err e, count_same i, w)
    | panic ↦ (panic, count_same i, w)
    | ok made ↦
        (let settled : Result (ControllerRevision × List ControllerRevision) × ℕ × W =
            settled_same made i in
          (
            elim settled.0 [
              | err e ↦ err e
              | panic ↦ panic
              | ok (update, standing) ↦ elim (named yad.status.current_revision standing) [
                | none ↦ ok (update, update)
                | some current ↦ ok (current, update)
              ]
            ],
            settled.1,
            settled.2,
          ))
  ]
    where
      count_same :
          collisions yad.status.collision_count
          ≡ SetRevision.collisions (pointer_to yad.status.collision_count)
      count_same = sym collisions_same

      made_same :
          new_revision api history yad
            (next_revision revisions)
            (collisions yad.status.collision_count)
          ≡ SetRevision.new_revision
              (api_of api yad)
              history
              (set_of yad)
              (next_revision revisions)
              (SetRevision.collisions (pointer_to yad.status.collision_count))
      made_same =
          new_revision_same (next_revision revisions) (collisions yad.status.collision_count)
            template
          ∙ ap
              (SetRevision.new_revision (api_of api yad) history (set_of yad)
                (next_revision revisions))
              count_same

      settled_same :
          (made : ControllerRevision)
          → settle_revision api history fuel yad revisions made
              (collisions yad.status.collision_count)
              w
            ≡ SetConstruct.settle_revision
                (api_of api yad)
                history
                fuel
                (set_of yad)
                revisions
                made
                (SetRevision.collisions (pointer_to yad.status.collision_count))
                w
      settled_same made =
          settle_revision_same fuel revisions made (collisions yad.status.collision_count) w
          ∙ ap
              (λ count.
                SetConstruct.settle_revision (api_of api yad) history fuel (set_of yad) revisions
                  made count w)
              count_same

-- The revisions of a YurtAppDaemon that has a workload template are made as those of a YurtAppSet: on
-- a YurtAppSet with the same name, templates, limit and status, and the same server, the two copies of
-- the code give the same revisions, the same collision count and the same world.
pub construct_yurt_app_daemon_revisions_same :
    {W : Type 0} (api : Api W) (history : History) (fuel : ℕ) (yad : YurtAppDaemon) (w : W)
    → (yad.has_stateful_set_template || yad.has_deployment_template) ≡ true
    → construct_yurt_app_daemon_revisions api history fuel yad w
      ≡ construct_yurt_app_set_revisions (api_of api yad) history fuel (set_of yad) w
unfolding construct_yurt_app_daemon_revisions construct_yurt_app_set_revisions
construct_yurt_app_daemon_revisions_same {W} api history fuel yad w template = λ i.
    elim (api.controlled_histories yad w).0 [
      | err e ↦ (err e, count_same i, (api.controlled_histories yad w).1)
      | panic ↦ (panic, count_same i, (api.controlled_histories yad w).1)
      | ok revisions ↦
          (let cleaned : Result (List ControllerRevision) × W =
              clean_expired_revision_same api history yad
                (history.sort_controller_revisions revisions) (api.controlled_histories yad w).1
                i in
            elim cleaned.0 [
              | err e ↦ (err e, count_same i, cleaned.1)
              | panic ↦ (panic, count_same i, cleaned.1)
              | ok kept ↦ construct_from_same api history yad fuel kept cleaned.1 template i
            ])
    ]
  where
    count_same :
        collisions yad.status.collision_count
        ≡ SetRevision.collisions (pointer_to yad.status.collision_count)
    count_same = sym (collisions_same api history yad)
