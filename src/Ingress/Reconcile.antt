-- ===== src/Ingress/Reconcile.antt =====
-- Reconcile and updateStatus of pkg/yurtappmanager/controller/yurtingress/yurtingress_controller.go.
pub mod Undesired
use yurt_app_manager.Prelude.{
  add32, ℕ, zero, suc, ◌+◌, ◌-◌, ◌%◌, ◌^◌, Bool, true, false, Option, none, some, List, [], ◌∷◌,
  ◌++◌, ◌&&◌, ◌||◌, String, Error, Result, ok, err, panic, GoSlice, items, length, eqb, is_empty,
  if◌then◌else◌,
}
use yurt_app_manager.Ingress.{
  IngressPool, IngressNotReadyPool, Status, YurtIngress, Deployment, get_pools, get_current_pools,
  get_desired_pool, get_unready_deployment_condition,
}
use yurt_app_manager.Ingress.Steps.{
  Write, Cluster, update_retries, cleanup_ingress_resources, add_pools, remove_pools, roll_out,
  recreate_jobs, update_ips, add_finalizer, update_status,
}
use yurt_app_manager.Writes.{Server, Writes, pure, lift, send, ◌>>=◌, ◌>>◌}

-- The difference of two `int32`, as its 32 bits.
abbrev pub sub32 : ℕ → ℕ → ℕ
sub32 a b = (a + (2 ^ 32 - b)) % 2 ^ 32

-- A deployment of a pool that is not in the spec is a `nil` that is dereferenced.
pub count_deployment : YurtIngress → Deployment → Status → Result Status
count_deployment ying d status =
    if eqb d.ready_replicas ying.replicas
    then elim (get_desired_pool ying d.pool) [
      | none ↦ panic
      | some pool ↦ ok (record status {
        ready_num = add32 status.ready_num 1;
        ready_pools = some (items status.ready_pools ++ pool ∷ []);
      })
    ]
    else elim (get_unready_deployment_condition d.conditions) [
      | none ↦ ok status
      | some info ↦ elim (get_desired_pool ying d.pool) [
        | none ↦ panic
        | some pool ↦ ok (record status {
          not_ready_pools =
              some (items status.not_ready_pools ++ record { pool = pool; info = some info } ∷ []);
        })
      ]
    ]

pub count_deployments : YurtIngress → List Deployment → Status → Result Status
unfolding count_deployment
count_deployments ying [] status = ok status
count_deployments ying (d ∷ ds) status = elim (count_deployment ying d status) [
  | ok next ↦ count_deployments ying ds next
  | err e ↦ err e
  | panic ↦ panic
]

-- The pools and their numbers are made anew; UnreadyNum is the rest of the pools of the spec.
pub observed_status : YurtIngress → Result (List Deployment) → Status → Result Status
unfolding count_deployments
observed_status ying (err e) status = err e
observed_status ying panic status = panic
observed_status ying (ok deployments) status = elim counted [
  | ok next ↦ ok (record next { unready_num = sub32 (length (items ying.pools)) next.ready_num })
  | err e ↦ err e
  | panic ↦ panic
]
  where
    counted : Result Status
    counted =
        count_deployments ying deployments
          (record status { ready_pools = none; not_ready_pools = none; ready_num = 0 })

module _ (answer : Server Write) (cluster : Cluster) where
  -- The error of the last update, or none.
  pub retry_status : ℕ → Option Error → YurtIngress → Writes Write (Option Error)
  retry_status zero last ying log = (ok last, log)
  retry_status (suc retries) last ying log =
      let log' = log ++ update_status ying ∷ [] in
      let e = answer log (update_status ying) in
      let again = retry_status retries e ying log' in
      elim e [ none ↦ (ok none, log') | some _ ↦ again ]

  pub write_status : YurtIngress → Status → Bool → Writes Write (Option Error)
  unfolding retry_status observed_status
  write_status ying status changed =
      let next : Status = record status {
        replicas = ying.replicas;
        ingress_controller_image = ying.ingress_controller_image;
        ingress_webhook_cert_gen_image = ying.ingress_webhook_cert_gen_image;
      } in
      if changed
      then retry_status update_retries none (record ying { status = next })
      else elim (observed_status ying cluster.deployments next) [
        | ok observed ↦ retry_status update_retries none (record ying { status = observed })
        | err e ↦ pure (some e)
        | panic ↦ lift panic
      ]

  -- The pools that are neither added nor removed: the status, and whether anything has changed.
  pub keep_pools : YurtIngress → List IngressPool → Status → Writes Write (Status × Bool)
  keep_pools ying [] status = pure (status, false)
  keep_pools ying (p ∷ ps) status = roll_out answer cluster ying (p ∷ ps) status >>= λ r.
      recreate_jobs answer cluster ying (p ∷ ps) r.0 >>= λ recreated.
      update_ips answer cluster (record ying { status = r.0 }) (p ∷ ps)
      >> pure (r.0, r.1 || recreated)

  pub reconcile_pools : YurtIngress → Writes Write (Unit {0})
  unfolding write_status keep_pools
  reconcile_pools ying =
      let (added, removed, unchanged) = get_pools (items ying.pools) (get_current_pools ying) in
      add_pools answer cluster ying added >>= λ s1.
      remove_pools answer cluster ying removed s1 >>= λ s2. keep_pools ying unchanged s2 >>= λ r.
      write_status ying r.0 (not_empty added || not_empty removed || r.1) >> pure tt
    where
      not_empty : List IngressPool → Bool
      not_empty [] = false
      not_empty (p ∷ ps) = true

  -- The error of the status is dropped; the finalizer is put on first, also on a deleted one.
  pub reconcile : Result YurtIngress → Writes Write (Unit {0})
  unfolding reconcile_pools
  reconcile (err Error.not_found) = pure tt
  reconcile (err e) = lift (err e)
  reconcile panic = lift panic
  reconcile (ok ying) =
      (if ying.has_finalizer then pure tt else send answer add_finalizer)
      >> (if ying.deleting
          then cleanup_ingress_resources answer cluster (record ying { has_finalizer = true })
          else reconcile_pools ying)
