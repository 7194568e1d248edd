-- ===== src/Daemon/Classification.antt =====
-- What classifyWorkloads tells of each node pool and each workload.
use mathlib.Core.List.{append_assoc}
use yurt_app_manager.Prelude.{
  Bool, true, false, Option, none, some, List, [], ◌∷◌, ◌++◌, ◌&&◌, String, Error, ok, err, lookup,
  has, keys, ◌≡◌, refl, subst, arith, eq_iff, ap,
}
use yurt_app_manager.NodePool.Types.{Taint}
use yurt_app_manager.Daemon.{
  Toleration, Workload, NodePool, classify_workloads, needs_delete, needs_create,
  get_name_to_node_pools, taints_to_tolerations, is_tolerations_all_taints,
}

abbrev pub workloads : List (String × Workload) → List Workload
workloads [] = []
workloads ((_, w) ∷ ws) = w ∷ workloads ws

needs_delete_nil :
    (tolerates : List Toleration → Taint → Bool) (loads : List (String × Workload))
    → needs_delete tolerates [] loads ≡ workloads loads
unfolding needs_delete
needs_delete_nil tolerates [] = refl
needs_delete_nil tolerates ((_, w) ∷ ws) = ap (λ l. w ∷ l) (needs_delete_nil tolerates ws)

-- When the list of the node pools fails, the pools that getNameToNodePools answers make
-- classifyWorkloads put every workload up for deletion.
pub classify_workloads_failed_list :
    (tolerates : List Toleration → Taint → Bool) (e : Error) (expected : String)
    (loads : List (String × Workload)) (pools : List (String × NodePool))
    → get_name_to_node_pools none (err e) ≡ ok pools
    → (classify_workloads tolerates expected loads pools).0 ≡ workloads loads
unfolding get_name_to_node_pools classify_workloads
classify_workloads_failed_list tolerates e expected loads [] h = needs_delete_nil tolerates loads
classify_workloads_failed_list tolerates e expected loads (p ∷ ps) h = cc

abbrev pub is_none : {A : Type 0} → Option A → Bool
is_none none = true
is_none (some _) = false

-- classifyWorkloads creates a workload for a name if and only if a node pool has that name and no
-- workload is recorded under it.
pub has-classify_workloads :
    (tolerates : List Toleration → Taint → Bool) (expected s : String)
    (loads : List (String × Workload)) (pools : List (String × NodePool))
    → has s (classify_workloads tolerates expected loads pools).2
      ≡ (has s (keys pools) && is_none (lookup s loads))
unfolding classify_workloads needs_create
has-classify_workloads tolerates expected s loads pools = created pools
  where
    created :
        (ps : List (String × NodePool))
        → has s (needs_create tolerates loads ps) ≡ (has s (keys ps) && is_none (lookup s loads))
    created [] = refl
    created ((t, p) ∷ ps) = ground (arith, created ps, eq_iff t s)

-- A law of the library: a toleration that exists for the key and the effect of a taint, anywhere in the
-- list, tolerates it.
abbrev pub ToleratesExisting : (List Toleration → Taint → Bool) → Type 0
ToleratesExisting tolerates =
    (before after : List Taint) (t : Taint)
    → tolerates (taints_to_tolerations (before ++ t ∷ after)) t ≡ true

-- The tolerations that TaintsToTolerations makes of the taints of a pool tolerate all of them, when
-- a toleration that exists for the key and effect of a taint tolerates it.
pub is_tolerations_all_taints-taints_to_tolerations :
    (tolerates : List Toleration → Taint → Bool) (taints : List Taint)
    → ToleratesExisting tolerates
    → is_tolerations_all_taints tolerates (taints_to_tolerations taints) taints ≡ true
unfolding is_tolerations_all_taints
is_tolerations_all_taints-taints_to_tolerations tolerates taints law = tolerated_after [] taints
  where
    tolerated_after :
        (before after : List Taint)
        → is_tolerations_all_taints tolerates (taints_to_tolerations (before ++ after)) after ≡ true
    tolerated_after before [] = refl
    tolerated_after before (t ∷ ts) =
        rw (law before ts t, is_tolerations_all_taints)
          (subst (λ all. is_tolerations_all_taints tolerates (taints_to_tolerations all) ts ≡ true)
            (append_assoc before (t ∷ []) ts) (tolerated_after (before ++ t ∷ []) ts))
