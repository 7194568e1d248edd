-- ===== src/AppSet/Status/Writing.antt =====
-- When updateYurtAppSet writes the status.
use yurt_app_manager.Prelude.{ℕ, false, Option, none, some, List, String, ◌≡◌, ◌≢◌, refl, arith}
use yurt_app_manager.AppSet.Types.{Pool, Int32Pointer, YurtAppSet, YurtAppSetStatus}
use yurt_app_manager.AppSet.Pools.{ControlInterface}
use yurt_app_manager.AppSet.Status.{
  Api, calculate_status, update_status, update_yurt_app_set, retry_update, update_retries,
  same_status, same_pointer,
}

-- A collision count at another address than the old status's makes the two statuses differ.
same_status_other_address :
    (yas : YurtAppSet) (old new : YurtAppSetStatus)
    → same_pointer old.collision_count new.collision_count ≡ false
    → same_status yas old new ≡ false
unfolding same_status
same_status_other_address yas old new h = ground (arith, h)

-- updateStatus writes the status whatever it says: where the address of the call's own collision
-- count is not the one in the old status, the update is sent and, as long as it fails, retried, also
-- where the old and the new status have the same contents.
pub update_status_always_writes :
    {W : Type 0} (api : Api W) (control : ControlInterface W) (fresh now : ℕ) (yas : YurtAppSet)
    (new old : YurtAppSetStatus) (name_to_pool : List (String × Pool)) (current_revision : String)
    (count : ℕ) (w : W)
    → ((p : Int32Pointer) → old.collision_count ≡ some p → p.address ≢ fresh)
    → update_status api control fresh now yas new old name_to_pool current_revision count w
      ≡ retry_update api update_retries
          (record (calculate_status control fresh now yas new name_to_pool current_revision count) {
            observed_generation = yas.generation;
          })
          yas
          w
unfolding update_status update_yurt_app_set
update_status_always_writes {W} api control fresh now yas new old name_to_pool current_revision
      count w other =
    rw (same_status_other_address yas old next (differ old.collision_count other)) refl
  where
    next : YurtAppSetStatus
    next = calculate_status control fresh now yas new name_to_pool current_revision count

    differ :
        (p : Option Int32Pointer)
        → ((q : Int32Pointer) → p ≡ some q → q.address ≢ fresh)
        → same_pointer p (some (record { address = fresh; value = count })) ≡ false
    differ none h = refl
    differ (some q) h = ground (arith, h q refl)
