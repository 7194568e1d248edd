-- ===== src/Daemon/Examples.antt =====
-- Node pools, workloads and tolerations, for the theorems about YurtAppDaemons.
use yurt_app_manager.Prelude.{
  Bool, false, none, List, [], ◌∷◌, ◌==◌, ◌&&◌, ◌||◌, String, Error, ◌≡◌, refl, arith, eq_refl,
}
use yurt_app_manager.NodePool.Types.{Taint}
use yurt_app_manager.Daemon.{
  Toleration, Workload, classify_workloads, get_name_to_node_pools, taints_to_tolerations,
}
use yurt_app_manager.Daemon.Classification.{
  workloads, ToleratesExisting, classify_workloads_failed_list,
}

-- A toleration of every value of the key and effect.
abbrev pub exists_for : List Toleration → Taint → Bool
exists_for [] t = false
exists_for (x ∷ xs) t = (x.key == t.key && x.effect == t.effect) || exists_for xs t

abbrev one_load : List (String × Workload)
one_load =
    (
      "beijing",
      record {
        name = "w";
        namespace = "";
        labels = none;
        annotations = none;
        tolerations = [];
        node_selector = none;
      },
    )
    ∷ []

classify_workloads_failed_list_example :
    (classify_workloads exists_for "r1" one_load []).0 ≡ workloads one_load
unfolding get_name_to_node_pools
classify_workloads_failed_list_example =
    classify_workloads_failed_list exists_for Error.timeout "r1" one_load [] refl

pub exists_for-ToleratesExisting : ToleratesExisting exists_for
unfolding taints_to_tolerations
exists_for-ToleratesExisting [] after t = ground (arith, eq_refl t.key, eq_refl t.effect)
exists_for-ToleratesExisting (b ∷ bs) after t =
    ground (arith, exists_for-ToleratesExisting bs after t)

abbrev pub dedicated : Taint
dedicated = record { key = "dedicated"; value = "a"; effect = "NoSchedule"; time_added = none }
