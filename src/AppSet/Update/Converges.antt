-- ===== src/AppSet/Update/Converges.antt =====
-- managePoolProvision against what it promises: the pools that exist are those of the spec.
use mathlib.Core.List.{Perm}
use yurt_app_manager.Prelude.{
  ℕ, Bool, Option, none, some, List, [], ◌∷◌, ◌++◌, ◌&&◌, ◌||◌, not, String, Error, Result, ok, err,
  panic, has, has-keys, keys, lookup, length, All, ◌≡◌, refl, ap, ◌∙◌, arith, eq_iff, Option-cases,
  inl, inr,
}
use yurt_app_manager.Util.SlowStart.{range_from}
use yurt_app_manager.Util.SlowStart.Quiet.{slow_start_batch_quiet, any_at-perm}
use yurt_app_manager.AppSet.Types.{PoolConfig, Pool, YurtAppSetPatches}
use yurt_app_manager.AppSet.Pools.{ControlInterface}
use yurt_app_manager.AppSet.Pools.Named.{IsNamed}
use yurt_app_manager.AppSet.Update.{
  pools_named, as_list, names_not_in, config_names, create_call, create_stage, delete_each,
  clean_pools, clean_others, manage_pool_provision,
}
use yurt_app_manager.AppSet.Update.Stages.{
  IsLawful, LeavesAlone, called, any_at-range_from, names_of, run_creates, delete_each-eq,
}
use yurt_app_manager.AppSet.Update.Stay.{spec_names, has-config_names}

has-names_not_in :
    (s : String) (others names : List String)
    → has s (names_not_in others names) ≡ (has s names && not (has s others))
has-names_not_in s others [] = refl
has-names_not_in s others (n ∷ ns) = ground (arith, has-names_not_in s others ns, eq_iff n s)

IsNamed-lookup :
    (m : List (String × Pool)) (s : String) (p : Pool)
    → IsNamed m
    → lookup s m ≡ some p
    → p.name ≡ s
IsNamed-lookup [] s p named h = cc
IsNamed-lookup ((t, q) ∷ m) s p named h = ground (arith, IsNamed-lookup m s p named.1, eq_iff t s)

has-pools_named :
    (k : String) (m : List (String × Pool)) (ns : List String)
    → IsNamed m
    → has k (names_of (pools_named m ns)) ≡ (has k ns && has k (keys m))
has-pools_named k m [] named = refl
has-pools_named k m (n ∷ ns) named = elim (Option-cases (lookup n m)) [
  | inl e ↦ ground (arith, e, has-pools_named k m ns named, has-keys n m, eq_iff n k)
  | inr (p, e) ↦ ground (
    arith,
    e,
    has-pools_named k m ns named,
    has-keys n m,
    eq_iff n k,
    IsNamed-lookup m n p named e,
  )
]

-- The errors of the three stages, joined, are none: so are those of each.
no_errors :
    (created : Option Error) (deleted cleaned : List Error)
    → (as_list created ++ deleted ++ cleaned) ≡ []
    → (created ≡ none) × (deleted ≡ []) × (cleaned ≡ [])
no_errors none [] [] h = (refl, refl, refl)
no_errors none [] (e ∷ es) h = cc
no_errors none (e ∷ es) cleaned h = cc
no_errors (some e) deleted cleaned h = cc

module _ {W : Type 0} (present : W → String → Bool) where
  delete_each_alone :
      (control : ControlInterface W)
      → LeavesAlone present control
      → (text : String) (ps : List Pool) (w : W) (k : String)
      → present (delete_each control text ps w).1 k ≡ present w k
  unfolding delete_each
  delete_each_alone control alone text [] w k = refl
  delete_each_alone control alone text (p ∷ ps) w k =
      delete_each_alone control alone text ps (control.delete_pool p w).1 k
      ∙ alone.deleted_other p w k

  clean_pools_alone :
      (control : ControlInterface W)
      → LeavesAlone present control
      → (pools : Result (List Pool)) (w : W) (k : String)
      → present (clean_pools control pools w).1 k ≡ present w k
  unfolding clean_pools
  clean_pools_alone control alone (ok ps) w k = delete_each_alone control alone _ ps w k
  clean_pools_alone control alone (err e) w k = refl
  clean_pools_alone control alone panic w k = refl

  clean_others_alone :
      (others : List (ControlInterface W))
      → All (LeavesAlone present) others
      → (w : W) (k : String) → present (clean_others others w).2 k ≡ present w k
  unfolding clean_others
  clean_others_alone [] alone w k = refl
  clean_others_alone (control ∷ others) alone w k =
      clean_others_alone others alone.1 _ k
      ∙ clean_pools_alone control alone.0 (control.get_all_pools w).0 (control.get_all_pools w).1 k
      ∙ alone.0.listed w k

  module _ (control : ControlInterface W) (others : List (ControlInterface W))
      (order : ℕ → ℕ → List ℕ) (sort : List String → List String) (aggregate : List Error → Error)
      (text : Error → String) (next : List (String × YurtAppSetPatches)) (revision : String)
      (lawful : IsLawful present control)
      (fair : (start size : ℕ) → Perm (order start size) (range_from start size)) where
    create_stage-eq :
        (creates : List String) (w : W) (k : String)
        → (create_stage control others order sort aggregate text next revision creates w).0 ≡ none
        → present
            (create_stage control others order sort aggregate text next revision creates w).1
            k
          ≡ (has k creates || present w k)
    unfolding create_stage
    create_stage-eq [] w k h = refl
    create_stage-eq (c ∷ cs) w k h =
        let creates = c ∷ cs in
        let (n, e, w', ran, quiet) =
          slow_start_batch_quiet (create_call control next revision creates) order fair
            (length creates) 1 w (omega arith) in
        let (is, each, done) = quiet (rw (ran, create_stage) at h) in
        rw (ran, create_stage)
          (run_creates present control lawful next revision creates is w w' k done
            ∙ ap (λ b. b || present w k)
                (any_at-perm (called creates k) each ∙ any_at-range_from creates k))

-- Where the control keeps its word, the controls of the other types have pools of their own, and the
-- pools recorded under their names are those that exist, the pools that exist after a run of
-- managePoolProvision without an error are exactly those that the spec names.
pub manage_pool_provision_converges :
    {W : Type 0} (present : W → String → Bool) (control : ControlInterface W)
    (others : List (ControlInterface W)) (order : ℕ → ℕ → List ℕ) (sort : List String → List String)
    (aggregate : List Error → Error) (text : Error → String) (pools : List PoolConfig)
    (name_to_pool : List (String × Pool)) (next : List (String × YurtAppSetPatches))
    (revision : String) (w : W)
    → IsLawful present control
    → All (LeavesAlone present) others
    → ((start size : ℕ) → Perm (order start size) (range_from start size))
    → ((k : String) (names : List String) → has k (sort names) ≡ has k names)
    → IsNamed name_to_pool
    → ((k : String) → present w k ≡ has k (keys name_to_pool))
    → let ran =
        manage_pool_provision control others order sort aggregate text pools name_to_pool next
          revision w in
      ran.2 ≡ [] → (k : String) → present ran.3 k ≡ has k (spec_names pools)
unfolding manage_pool_provision
manage_pool_provision_converges present control others order sort aggregate text pools name_to_pool
      next revision w lawful alone fair sorted named recorded h k =
    let expected = config_names pools in
    let got = keys name_to_pool in
    let creates = names_not_in got (sort expected) in
    let deletes = names_not_in expected (sort got) in
    let (e, w1) = create_stage control others order sort aggregate text next revision creates w in
    let gone = pools_named name_to_pool deletes in
    let (es, w2) = delete_each control "fail to delete Pool" gone w1 in
    let (one, two, three) = no_errors e es (clean_others others w2).1 h in
    ground (
      arith,
      clean_others_alone present others alone w2 k,
      delete_each-eq present control lawful next revision "fail to delete Pool" gone w1 k two,
      create_stage-eq present control others order sort aggregate text next revision lawful fair
          creates w k one,
      has-pools_named k name_to_pool deletes named,
      has-names_not_in k got (sort expected),
      has-names_not_in k expected (sort got),
      sorted k expected,
      sorted k got,
      recorded k,
      has-config_names k pools,
    )
