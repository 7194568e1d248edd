-- ===== src/AppSet/Update.antt =====
-- managePools and managePoolProvision of pkg/yurtappmanager/controller/yurtappset/yurtappset_update.go.
pub mod Stay
pub mod Stages
pub mod Converges
pub mod Recorded
use yurt_app_manager.Prelude.{
  ℕ, zero, suc, Bool, false, Option, none, some, List, [], ◌∷◌, ◌++◌, ◌==◌, ◌||◌, not, String,
  Error, Result, ok, err, panic, has, keys, lookup, length, eqb, is_empty, if◌then◌else◌,
}
use yurt_app_manager.AppSet.Types.{
  PoolConfig, Pool, YurtAppSetPatches, YurtAppSet, YurtAppSetStatus,
}
use yurt_app_manager.AppSet.Pools.{ControlInterface, patches_at}
use yurt_app_manager.AppSet.Conditions.{new_condition, set_condition}
use yurt_app_manager.Util.SlowStart.{slow_start_batch}

-- sets.String: a set of names, without repetitions.
abbrev pub add_name : String → List String → List String
add_name s names = if has s names then names else s ∷ names

abbrev pub config_names : List PoolConfig → List String
config_names [] = []
config_names (p ∷ ps) = add_name p.name (config_names ps)

-- The names that are not in the other set, in their order.
abbrev pub names_not_in : List String → List String → List String
names_not_in others [] = []
names_not_in others (n ∷ ns) =
    let rest = names_not_in others ns in if has n others then rest else n ∷ rest

abbrev pub names_in : List String → List String → List String
names_in others [] = []
names_in others (n ∷ ns) = let rest = names_in others ns in if has n others then n ∷ rest else rest

abbrev pub get_elem? {ℓ} : {A : Type ℓ} → List A → ℕ → Option A
get_elem? [] i = none
get_elem? (x ∷ xs) zero = some x
get_elem? (x ∷ xs) (suc i) = get_elem? xs i

abbrev pub pools_named : List (String × Pool) → List String → List Pool
pools_named name_to_pool [] = []
pools_named name_to_pool (n ∷ ns) = elim (lookup n name_to_pool) [
  | none ↦ pools_named name_to_pool ns
  | some p ↦ p ∷ pools_named name_to_pool ns
]

abbrev pub as_list : Option Error → List Error
as_list none = []
as_list (some e) = e ∷ []

abbrev any_pool : Result (List Pool) → Bool
any_pool (ok ps) = not (is_empty ps)
any_pool (err e) = false
any_pool panic = false

module _ {W : Type 0} where
  module _ (control : ControlInterface W) where
    -- The creation of one pool; a time-out counts as done.
    unfoldable pub create_call :
        List (String × YurtAppSetPatches) → String → List String → ℕ → W → Option Error × W
    create_call next revision creates index w = elim (get_elem? creates index) [
      | none ↦ (none, w)
      | some name ↦
          (let (e, w') = control.create_pool name revision (patches_at next name).replicas w in
            (
              elim e [
                | none ↦ none
                | some Error.timeout ↦ none
                | some x ↦ some (Error.wrapped "fail to create Pool" x)
              ],
              w',
            ))
    ]

    -- All the pools are tried; each error is kept.
    unfoldable pub delete_each : String → List Pool → W → List Error × W
    delete_each text [] w = ([], w)
    delete_each text (p ∷ ps) w =
        let (e, w') = control.delete_pool p w in
        let (errors, w'') = delete_each text ps w' in
        (elim e [ none ↦ errors | some x ↦ Error.wrapped text x ∷ errors ], w'')

    pub update_call :
        List (String × Pool)
        → List (String × YurtAppSetPatches)
        → String
        → List String
        → ℕ
        → W
        → Option Error × W
    update_call name_to_pool next revision names index w = elim (get_elem? names index) [
      | none ↦ (none, w)
      | some name ↦ elim (lookup name name_to_pool) [
        | none ↦ (none, w)
        | some pool ↦ control.update_pool pool revision (patches_at next name).replicas w
      ]
    ]

    -- `IsExpected` of the adapters is true where the revision is another one.
    pub needs_update : List (String × YurtAppSetPatches) → String → String → Option Pool → Bool
    needs_update next revision name none = false
    needs_update next revision name (some pool) =
        control.is_expected pool revision
        || not (eqb pool.replicas (patches_at next name).replicas)
        || not (pool.patch_info == (patches_at next name).patch)

    pub names_to_update :
        List (String × Pool)
        → List (String × YurtAppSetPatches)
        → String
        → List String
        → List String
    unfolding needs_update
    names_to_update name_to_pool next revision [] = []
    names_to_update name_to_pool next revision (n ∷ ns) =
        let rest = names_to_update name_to_pool next revision ns in
        if needs_update next revision n (lookup n name_to_pool) then n ∷ rest else rest

  pub clean_pools : ControlInterface W → Result (List Pool) → W → List Error × W
  unfolding delete_each
  clean_pools control (ok ps) w = delete_each control "fail to delete Pool of other type" ps w
  clean_pools control (err e) w = (Error.wrapped "fail to list Pool of other type" e ∷ [], w)
  clean_pools control panic w = ([], w)

  -- The pools of the other template types are deleted: whether there were any, and the errors.
  unfoldable pub clean_others : List (ControlInterface W) → W → Bool × List Error × W
  unfolding clean_pools
  clean_others [] w = (false, [], w)
  clean_others (control ∷ controls) w =
      let (pools, w1) = control.get_all_pools w in
      let (errors, w2) = clean_pools control pools w1 in
      let (cleaned, errors', w3) = clean_others controls w2 in
      (any_pool pools || cleaned, errors ++ errors', w3)

  -- `order` is the interleaving of the calls of a batch, `sort` the order of sets.String's
  -- List, `aggregate` NewAggregate of apimachinery, `text` the Error method.
  module _ (control : ControlInterface W) (others : List (ControlInterface W))
      (order : ℕ → ℕ → List ℕ) (sort : List String → List String) (aggregate : List Error → Error)
      (text : Error → String) where
    -- The result of a batch that has ended.
    abbrev pub batch_result : Option (ℕ × Option Error × W) → W → Option Error × W
    batch_result none w = (none, w)
    batch_result (some (n, e, w')) w = (e, w')

    unfoldable pub create_stage :
        List (String × YurtAppSetPatches) → String → List String → W → Option Error × W
    unfolding create_call
    create_stage next revision creates w =
        if is_empty creates
        then (none, w)
        else batch_result
            (slow_start_batch (create_call control next revision creates) order (length creates) 1
              w)
            w

    pub update_stage :
        List (String × Pool)
        → List (String × YurtAppSetPatches)
        → String
        → List String
        → W
        → Option Error × W
    unfolding update_call
    update_stage name_to_pool next revision names w =
        if is_empty names
        then (none, w)
        else batch_result
            (slow_start_batch (update_call control name_to_pool next revision names) order
              (length names) 1 w)
            w

    -- The names that stay, whether anything was to be done, the errors.
    unfoldable pub manage_pool_provision :
        List PoolConfig
        → List (String × Pool)
        → List (String × YurtAppSetPatches)
        → String
        → W
        → List String × Bool × List Error × W
    unfolding create_stage delete_each clean_others
    manage_pool_provision pools name_to_pool next revision w =
        let expected = config_names pools in
        let got = keys name_to_pool in
        let creates = names_not_in got (sort expected) in
        let deletes = names_not_in expected (sort got) in
        let (created, w1) = create_stage next revision creates w in
        let (delete_errors, w2) =
          delete_each control "fail to delete Pool" (pools_named name_to_pool deletes) w1 in
        let (cleaned, clean_errors, w3) = clean_others others w2 in
        (
          names_in got expected,
          not (is_empty creates) || not (is_empty deletes) || cleaned,
          as_list created ++ delete_errors ++ clean_errors,
          w3,
        )

    -- `now` is the time of the call. The status with its conditions, the error, the world.
    pub manage_pools :
        ℕ
        → YurtAppSet
        → List (String × Pool)
        → List (String × YurtAppSetPatches)
        → String
        → W
        → YurtAppSetStatus × Option Error × W
    unfolding manage_pool_provision names_to_update update_stage
    manage_pools now yas name_to_pool next revision w =
        let (exists, provisioned, errors, w1) =
          manage_pool_provision yas.pools name_to_pool next revision w in
        let conditions =
          if provisioned
          then set_condition yas.status.conditions
              (new_condition now "PoolProvisioned" "True" "" "")
          else yas.status.conditions in
        let names = names_to_update control name_to_pool next revision (sort exists) in
        let (updated, w2) = update_stage name_to_pool next revision names w1 in
        elim errors [
          | e ∷ es ↦ (
            record yas.status {
              conditions =
                  set_condition yas.status.conditions (
                    new_condition now "PoolProvisioned" "False" "Error"
                      (text (aggregate (e ∷ es))));
            },
            some (Error.wrapped "fail to manage Pool provision" (aggregate (e ∷ es))),
            w1,
          )
          | [] ↦ (
            record yas.status {
              conditions = elim updated [
                | none ↦ set_condition conditions (new_condition now "PoolUpdated" "True" "" "")
                | some x ↦
                    set_condition conditions
                      (new_condition now "PoolUpdated" "False" "Error" (text x))
              ];
            },
            updated,
            w2,
          )
        ]
