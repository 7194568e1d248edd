-- ===== src/AppSet/Update/Recorded.antt =====
-- managePoolProvision over any control, with a record of the creations and deletions that the control
-- took.
use mathlib.Core.List.{Perm}
use yurt_app_manager.Prelude.{
  ℕ, Bool, true, false, none, some, List, [], ◌∷◌, ◌==◌, ◌&&◌, ◌||◌, not, String, ok, Error, Option,
  has, keys, All, ◌≡◌, refl, if◌then◌else◌,
}
use yurt_app_manager.Util.SlowStart.{range_from}
use yurt_app_manager.AppSet.Types.{PoolConfig, Pool, YurtAppSetPatches}
use yurt_app_manager.AppSet.Pools.{ControlInterface, get_name_to_pool}
use yurt_app_manager.AppSet.Pools.Named.{get_name_to_pool-IsNamed}
use yurt_app_manager.AppSet.Update.{manage_pool_provision}
use yurt_app_manager.AppSet.Update.Stages.{IsLawful, LeavesAlone, counts_as_done}
use yurt_app_manager.AppSet.Update.Converges.{manage_pool_provision_converges}
use yurt_app_manager.AppSet.Update.Stay.{spec_names}

pub data Event : Type 0 where
  created deleted : String → Event

-- Whether a pool of the name `k` stands after the events, the last one first, if those of the names
-- `start` stood before.
abbrev pub stands : List String → List Event → String → Bool
stands start [] k = has k start
stands start (Event.created s ∷ es) k = s == k || stands start es k
stands start (Event.deleted s ∷ es) k = stands start es k && not (s == k)

abbrev pub log_if : Bool → Event → List Event → List Event
log_if took e es = if took then e ∷ es else es

abbrev pub succeeded : Option Error → Bool
succeeded none = true
succeeded (some x) = false

module _ {W : Type 0} where
  -- The control itself, its world put beside a record of what it took: the creations that count as
  -- done and the deletions that succeed.
  abbrev pub recorded : ControlInterface W → ControlInterface (W × List Event)
  recorded control = record {
    get_all_pools = λ v. let (r, w1) = control.get_all_pools v.0 in (r, (w1, v.1));
    create_pool = λ s revision replicas v.
        let (e, w1) = control.create_pool s revision replicas v.0 in
        (e, (w1, log_if (counts_as_done e) (Event.created s) v.1));
    update_pool = λ p revision replicas v.
        let (e, w1) = control.update_pool p revision replicas v.0 in (e, (w1, v.1));
    delete_pool = λ p v.
        let (e, w1) = control.delete_pool p v.0 in
        (e, (w1, log_if (succeeded e) (Event.deleted p.name) v.1));
    get_pool_failure = control.get_pool_failure;
    is_expected = control.is_expected;
  }

  -- A control of another type, of which nothing is recorded.
  abbrev pub unrecorded : ControlInterface W → ControlInterface (W × List Event)
  unrecorded control = record {
    get_all_pools = λ v. let (r, w1) = control.get_all_pools v.0 in (r, (w1, v.1));
    create_pool = λ s revision replicas v.
        let (e, w1) = control.create_pool s revision replicas v.0 in (e, (w1, v.1));
    update_pool = λ p revision replicas v.
        let (e, w1) = control.update_pool p revision replicas v.0 in (e, (w1, v.1));
    delete_pool = λ p v. let (e, w1) = control.delete_pool p v.0 in (e, (w1, v.1));
    get_pool_failure = control.get_pool_failure;
    is_expected = control.is_expected;
  }

  abbrev pub all_unrecorded : List (ControlInterface W) → List (ControlInterface (W × List Event))
  all_unrecorded [] = []
  all_unrecorded (control ∷ controls) = unrecorded control ∷ all_unrecorded controls

  module _ (start : List String) where
    recorded-IsLawful :
        (control : ControlInterface W) → IsLawful (λ v k. stands start v.1 k) (recorded control)
    recorded-IsLawful control = record {
      created = λ s revision replicas v h k. rw h refl;
      deleted = λ p v h k. rw h refl;
    }

    unrecorded-LeavesAlone :
        (controls : List (ControlInterface W))
        → All (LeavesAlone (λ v k. stands start v.1 k)) (all_unrecorded controls)
    unrecorded-LeavesAlone [] = tt
    unrecorded-LeavesAlone (control ∷ controls) = (
      record { listed = λ v k. refl; deleted_other = λ p v k. refl },
      unrecorded-LeavesAlone controls,
    )

-- managePoolProvision reaches what it promises, whatever the controls do and in whatever order the
-- calls of a batch take effect, as long as it ends without an error: the pools that getNameToPool had
-- returned, with the ones whose creation the control took (a creation that times out counts as one)
-- and without the ones whose deletion the control took, in the order in which it took them, are
-- exactly the pools that the spec names. The list of a set of names has to have the names of the set.
pub manage_pool_provision_reaches :
    {W : Type 0} (control : ControlInterface W) (others : List (ControlInterface W))
    (order : ℕ → ℕ → List ℕ) (sort : List String → List String) (aggregate : List Error → Error)
    (text : Error → String) (pools : List PoolConfig) (name_to_pool : List (String × Pool))
    (next : List (String × YurtAppSetPatches)) (revision : String) (w w1 : W)
    → get_name_to_pool control w ≡ (ok name_to_pool, w1)
    → ((start size : ℕ) → Perm (order start size) (range_from start size))
    → ((k : String) (names : List String) → has k (sort names) ≡ has k names)
    → let ran =
        manage_pool_provision
          (recorded control)
          (all_unrecorded others)
          order
          sort
          aggregate
          text
          pools
          name_to_pool
          next
          revision
          (w1, []) in
      ran.2 ≡ [] → (k : String) → stands (keys name_to_pool) ran.3.1 k ≡ has k (spec_names pools)
manage_pool_provision_reaches control others order sort aggregate text pools name_to_pool next
      revision w w1 found fair sorted h k =
    manage_pool_provision_converges (λ v j. stands (keys name_to_pool) v.1 j) (recorded control)
      (all_unrecorded others) order sort aggregate text pools name_to_pool next revision (w1, [])
      (recorded-IsLawful (keys name_to_pool) control)
      (unrecorded-LeavesAlone (keys name_to_pool) others) fair sorted
      (get_name_to_pool-IsNamed control w w1 name_to_pool found) (λ j. refl) h k
