-- ===== src/AppSet/Status.antt =====
-- The status of a YurtAppSet: updateStatus, calculateStatus, getPoolTemplateType and
-- updateYurtAppSet of pkg/yurtappmanager/controller/yurtappset/yurtappset_controller.go. An address
-- stands for where a pointer points: `fresh` is the one of the call's own collision count.
pub mod Writing
use yurt_app_manager.Prelude.{
  ℕ, zero, suc, Bool, true, false, Option, none, some, List, [], ◌∷◌, ◌==◌, ◌&&◌, ◌||◌, String,
  Error, Result, ok, err, panic, GoMap, items, lookup, insert, eqb, add32, if◌then◌else◌,
}
use yurt_app_manager.AppSet.Types.{Condition, Pool, Int32Pointer, YurtAppSet, YurtAppSetStatus}
use yurt_app_manager.AppSet.Pools.{ControlInterface}
use yurt_app_manager.AppSet.Conditions.{new_condition, set_condition, remove_condition}

pub get_pool_template_type : YurtAppSet → String
get_pool_template_type yas =
    if yas.has_stateful_set_template
    then "StatefulSet"
    else if yas.has_deployment_template
    then "Deployment"
    else ""

abbrev pub replicas_by_name : List (String × Pool) → List (String × ℕ)
replicas_by_name [] = []
replicas_by_name ((_, p) ∷ ps) = insert p.name p.replicas (replicas_by_name ps)

abbrev pub sum_of : (Pool → ℕ) → List (String × Pool) → ℕ
sum_of f [] = 0
sum_of f ((_, p) ∷ ps) = add32 (sum_of f ps) (f p)

module _ {W : Type 0} (control : ControlInterface W) where
  abbrev pub first_failure : List (String × Pool) → Option String
  first_failure [] = none
  first_failure ((_, p) ∷ ps) = elim (control.get_pool_failure p) [
    | none ↦ first_failure ps
    | some text ↦ some text
  ]

  pub calculate_status :
      ℕ → ℕ → YurtAppSet → YurtAppSetStatus → List (String × Pool) → String → ℕ → YurtAppSetStatus
  unfolding get_pool_template_type
  calculate_status fresh now yas status name_to_pool current_revision count = record {
    observed_generation = status.observed_generation;
    collision_count = some (record { address = fresh; value = count });
    current_revision =
        if status.current_revision == "" then current_revision else status.current_revision;
    conditions = elim (first_failure name_to_pool) [
      | none ↦ remove_condition status.conditions "PoolFailure"
      | some text ↦
          set_condition status.conditions (new_condition now "PoolFailure" "True" "Error" text)
    ];
    pool_replicas = some (replicas_by_name name_to_pool);
    ready_replicas = sum_of (λ p. p.ready_replicas) name_to_pool;
    replicas = sum_of (λ p. p.replicas) name_to_pool;
    template_type = get_pool_template_type yas;
  }

-- `==` on two pointers: whether they point to the same place.
abbrev pub same_pointer : Option Int32Pointer → Option Int32Pointer → Bool
same_pointer none none = true
same_pointer none (some q) = false
same_pointer (some p) none = false
same_pointer (some p) (some q) = eqb p.address q.address

abbrev pub same_condition : Condition → Condition → Bool
same_condition c d =
    c.kind == d.kind
    && c.status == d.status
    && eqb c.last_transition_time d.last_transition_time
    && c.reason == d.reason
    && c.message == d.message

abbrev pub same_conditions : List Condition → List Condition → Bool
same_conditions [] [] = true
same_conditions [] (d ∷ ds) = false
same_conditions (c ∷ cs) [] = false
same_conditions (c ∷ cs) (d ∷ ds) = same_condition c d && same_conditions cs ds

abbrev pub includes : List (String × ℕ) → List (String × ℕ) → Bool
includes m [] = true
includes m ((k, v) ∷ rest) =
    elim (lookup k m) [ none ↦ false | some u ↦ eqb u v ] && includes m rest

-- reflect.DeepEqual of two maps with one entry for each key.
abbrev pub same_map : GoMap ℕ → GoMap ℕ → Bool
same_map none none = true
same_map none (some m) = false
same_map (some m) none = false
same_map (some m) (some n) = includes m n && includes n m

pub same_status : YurtAppSet → YurtAppSetStatus → YurtAppSetStatus → Bool
same_status yas old new =
    old.current_revision == new.current_revision
    && same_pointer old.collision_count new.collision_count
    && eqb old.replicas new.replicas
    && eqb old.ready_replicas new.ready_replicas
    && eqb yas.generation new.observed_generation
    && same_map old.pool_replicas new.pool_replicas
    && same_conditions old.conditions new.conditions

pub record Api (W : Type 0) : Type 0 where
  pub update_status : YurtAppSet → W → Option Error × W
  pub get : String → String → W → Result YurtAppSet × W

abbrev pub update_retries : ℕ
update_retries = 5

module _ {W : Type 0} (api : Api W) where
  -- The loop: an update, and as long as it fails, a fresh read and another update.
  pub retry_update : ℕ → YurtAppSetStatus → YurtAppSet → W → Result YurtAppSet × W
  retry_update zero status yas w =
      let obj : YurtAppSet = record yas { status = status } in
      let (e, w1) = api.update_status obj w in (elim e [ none ↦ ok obj | some x ↦ err x ], w1)
  retry_update (suc retries) status yas w =
      let obj : YurtAppSet = record yas { status = status } in
      let (e, w1) = api.update_status obj w in
      let (got, w2) = api.get yas.namespace yas.name w1 in
      elim e [
        | none ↦ (ok obj, w1)
        | some x ↦ elim got [
          | err y ↦ (err y, w2)
          | panic ↦ (panic, w2)
          | ok tmp ↦ retry_update retries status tmp w2
        ]
      ]

  pub update_yurt_app_set :
      YurtAppSet → YurtAppSetStatus → YurtAppSetStatus → W → Result YurtAppSet × W
  unfolding retry_update same_status
  update_yurt_app_set yas old new w =
      if same_status yas old new
      then (ok yas, w)
      else retry_update update_retries (record new { observed_generation = yas.generation }) yas w

  pub update_status :
      ControlInterface W
      → ℕ
      → ℕ
      → YurtAppSet
      → YurtAppSetStatus
      → YurtAppSetStatus
      → List (String × Pool)
      → String
      → ℕ
      → W
      → Result YurtAppSet × W
  unfolding calculate_status update_yurt_app_set
  update_status control fresh now yas new old name_to_pool current_revision count w =
      update_yurt_app_set yas old
        (calculate_status control fresh now yas new name_to_pool current_revision count) w
