-- ===== src/AppSet/PoolControl/Conversions.antt =====
-- What is read back of a set that ApplyPoolTemplate has filled.
use yurt_app_manager.Prelude.{ℕ, none, some, String, ok, ◌≡◌, ◌≢◌, arith, eq_iff}
use yurt_app_manager.AppSet.Adapter.{
  Library, YurtAppSetTemplate, StatefulSet, PoolTopology, find_pool,
}
use yurt_app_manager.AppSet.Template.{apply_pool_template}
use yurt_app_manager.AppSet.Template.Applied.{KeepsMetadata, apply_pool_template-IsApplied}
use yurt_app_manager.AppSet.PoolControl.{get_pool_name_from, convert_to_pool}

-- ApplyPoolTemplate and convertToPool: where the pool is in the topology without a patch, has a name,
-- and the template could be applied, the set that it fills is read back as a pool of that name, with
-- the replicas asked for and no patch.
pub convert_to_pool-apply_pool_template :
    (library : Library) (yas : YurtAppSetTemplate) (pool revision : String) (replicas : ℕ)
    (set done : StatefulSet) (config : PoolTopology)
    → KeepsMetadata library
    → find_pool pool yas.pools ≡ some config
    → config.patch ≡ none
    → pool ≢ ""
    → apply_pool_template library yas pool revision replicas set ≡ ok (none, done)
    → convert_to_pool done
      ≡ ok (record {
        name = pool;
        namespace = done.namespace;
        pool_ref = done;
        observed_generation = done.observed_generation;
        replicas = replicas;
        ready_replicas = done.ready_replicas;
        patch_info = "";
      })
unfolding convert_to_pool get_pool_name_from
convert_to_pool-apply_pool_template library yas pool revision replicas set done config keeps found
      no_patch named h =
    let applied =
      apply_pool_template-IsApplied library yas pool revision replicas set done config keeps found
        no_patch h in
    ground (
      arith,
      applied.pool_label,
      applied.patch_annotation,
      applied.replicas_eq,
      eq_iff pool "",
      named,
    )
