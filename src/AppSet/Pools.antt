-- ===== src/AppSet/Pools.antt =====
-- The pools of a YurtAppSet: ControlInterface of pool.go, classifyPoolByPoolName, deleteDupPool and
-- getNameToPool of yurtappset_controller.go, and GetNextPatches of yurtappset_controller_utils.go,
-- all of pkg/yurtappmanager/controller/yurtappset. `W` is the world that the API calls read and
-- change.
pub mod Names
pub mod Named
use yurt_app_manager.Prelude.{
  ℕ, zero, suc, Bool, true, false, Option, none, some, List, [], ◌∷◌, ◌++◌, ◌==◌, ◌&&◌, ◌||◌, not,
  String, Error, Result, ok, err, panic, has, keys, items, lookup, insert, length, eqb, is_empty,
  if◌then◌else◌,
}
use yurt_app_manager.AppSet.Types.{
  PoolConfig, Pool, YurtAppSetPatches, YurtAppSet, YurtAppSetStatus,
}

pub record ControlInterface (W : Type 0) : Type 0 where
  pub get_all_pools : W → Result (List Pool) × W
  pub create_pool : String → String → ℕ → W → Option Error × W
  pub update_pool : Pool → String → ℕ → W → Option Error × W
  pub delete_pool : Pool → W → Option Error × W
  pub get_pool_failure : Pool → Option String
  pub is_expected : Pool → String → Bool

-- `append(mapping[name], pool)` for each pool in turn.
unfoldable pub classify_from : List (String × List Pool) → List Pool → List (String × List Pool)
classify_from mapping [] = mapping
classify_from mapping (p ∷ ps) =
    classify_from (insert p.name (items (lookup p.name mapping) ++ p ∷ []) mapping) ps

unfoldable pub classify_pool_by_pool_name : List Pool → List (String × List Pool)
unfolding classify_from
classify_pool_by_pool_name pools = classify_from [] pools

patch_of : PoolConfig → YurtAppSetPatches
patch_of pool = record {
  replicas = elim pool.replicas [ none ↦ 0 | some r ↦ r ];
  patch = elim pool.patch [ none ↦ "" | some raw ↦ raw ];
}

next_patches_from :
    List (String × YurtAppSetPatches) → List PoolConfig → List (String × YurtAppSetPatches)
next_patches_from next [] = next
next_patches_from next (pool ∷ pools) =
    next_patches_from (insert pool.name (patch_of pool) next) pools

pub get_next_patches : List PoolConfig → List (String × YurtAppSetPatches)
unfolding next_patches_from patch_of
get_next_patches pools = next_patches_from [] pools

-- `nextPatches[name]`: the zero value where the name is missing.
abbrev pub patches_at : List (String × YurtAppSetPatches) → String → YurtAppSetPatches
patches_at next name = elim (lookup name next) [
  | none ↦ record { replicas = 0; patch = "" }
  | some p ↦ p
]

module _ {W : Type 0} where
  module _ (control : ControlInterface W) where
    -- `pools[1:]` are deleted; one that is gone already is passed over, another error ends it.
    unfoldable pub delete_all : List Pool → W → Option Error × W
    delete_all [] w = (none, w)
    delete_all (p ∷ ps) w =
        let (e, w') = control.delete_pool p w in
        elim e [
          | none ↦ delete_all ps w'
          | some Error.not_found ↦ delete_all ps w'
          | some x ↦ (some x, w')
        ]

    -- The first pool of each name is kept.
    unfoldable pub delete_dup_pool :
        List (String × List Pool) → W → List (String × Pool) × Option Error × W
    unfolding delete_all
    delete_dup_pool [] w = ([], none, w)
    delete_dup_pool ((name, []) ∷ rest) w = delete_dup_pool rest w
    delete_dup_pool ((name, p ∷ ps) ∷ rest) w =
        let (e, w') = delete_all ps w in
        let (kept, e', w'') = delete_dup_pool rest w' in
        elim e [ some x ↦ ([], some x, w') | none ↦ ((name, p) ∷ kept, e', w'') ]

    unfoldable pub get_name_to_pool : W → Result (List (String × Pool)) × W
    unfolding delete_dup_pool classify_pool_by_pool_name
    get_name_to_pool w =
        let (pools, w') = control.get_all_pools w in
        elim pools [
          | err e ↦ (err (Error.wrapped "fail to get all Pools" e), w')
          | panic ↦ (panic, w')
          | ok ps ↦
              (let (kept, e, w'') = delete_dup_pool (classify_pool_by_pool_name ps) w' in
                (
                  elim e [
                    | none ↦ ok kept
                    | some x ↦ err (Error.wrapped "fail to manage duplicate Pool" x)
                  ],
                  w'',
                ))
        ]
