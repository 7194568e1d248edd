-- ===== src/Ingress/Steps.antt =====
-- The steps of Reconcile, and cleanupIngressResources, of
-- pkg/yurtappmanager/controller/yurtingress/yurtingress_controller.go. The calls of util/kubernetes
-- and of the API server are the writes; `answer` tells how each ends.
pub mod Conditions
use yurt_app_manager.Prelude.{
  add32, ℕ, Bool, true, false, Option, none, some, List, [], ◌∷◌, ◌++◌, ◌==◌, ◌&&◌, not, String,
  Result, items, length, eqb, is_empty, if◌then◌else◌,
}
use yurt_app_manager.Ingress.{
  IngressPool, Status, YurtIngress, Deployment, is_str_array_equal, get_current_pool,
  remove_pool_from_condition,
}
use yurt_app_manager.Writes.{Server, Writes, pure, send, ◌>>=◌, ◌>>◌}

pub data Write : Type 0 where
  add_finalizer remove_finalizer create_common delete_common : Write
  create_specific : IngressPool → Write
  delete_specific : String → Bool → Write
  update_deployment : String → Write
  scale_deployment : String → Write
  recreate_job : String → Write
  update_external_ips : String → List String → Write
  update_status : YurtIngress → Write

-- What the reconciler reads of the cluster while it runs.
pub record Cluster : Type 0 where
  pub is_ingress_namespace_ready : Bool
  pub is_only : Bool
  pub deployments : Result (List Deployment)

abbrev pub update_retries : ℕ
update_retries = 5

abbrev pub is_nil : {A : Type 0} → Option (List A) → Bool
is_nil none = true
is_nil (some _) = false

module _ (answer : Server Write) (cluster : Cluster) where
  pub send_each : (IngressPool → Write) → List IngressPool → Writes Write (Unit {0})
  send_each f [] = pure tt
  send_each f (p ∷ ps) = send answer (f p) >> send_each f ps

  abbrev pub with_status : YurtIngress → Status → YurtIngress
  with_status ying status = record ying { status = status }

  pub cleanup_ingress_resources : YurtIngress → Writes Write (Unit {0})
  unfolding send_each
  cleanup_ingress_resources ying =
      (if ying.has_finalizer then send answer remove_finalizer else pure tt) >> elim ying.pools [
        | none ↦ pure tt
        | some pools ↦
            send_each (λ p. delete_specific p.name cluster.is_only) pools
            >> (if cluster.is_only then send answer delete_common else pure tt)
      ]

  -- The pools that are added, one after the other.
  unfoldable pub add_each : List IngressPool → Status → Writes Write Status
  add_each [] status = pure status
  add_each (p ∷ ps) status =
      send answer (create_specific p)
      >> add_each ps (record status {
        not_ready_pools =
            some (items status.not_ready_pools ++ record { pool = p; info = none } ∷ []);
        unready_num = add32 status.unready_num 1;
      })

  -- `currentPools == nil`: no slice of ready pools, and no pool that is not ready.
  abbrev pub no_current_pools : Status → Bool
  no_current_pools status = is_nil status.ready_pools && is_empty (items status.not_ready_pools)

  unfoldable pub add_pools : YurtIngress → List IngressPool → Writes Write Status
  unfolding add_each
  add_pools ying [] = pure ying.status
  add_pools ying (p ∷ ps) =
      (if no_current_pools ying.status && not cluster.is_ingress_namespace_ready
        then send answer create_common
        else pure tt)
      >> add_each (p ∷ ps) ying.status

  unfoldable pub remove_each : Bool → List IngressPool → Status → Writes Write Status
  remove_each none_desired [] status = pure status
  remove_each none_desired (p ∷ ps) status =
      send answer (delete_specific p.name none_desired)
      >> remove_each none_desired ps
          (if none_desired then status else (remove_pool_from_condition status p.name).0)

  unfoldable pub remove_pools : YurtIngress → List IngressPool → Status → Writes Write Status
  unfolding remove_each
  remove_pools ying [] status = pure status
  remove_pools ying (p ∷ ps) status = remove_each (is_nil ying.pools) (p ∷ ps) status >>= λ removed.
      if is_nil ying.pools && cluster.is_only
      then send answer delete_common
        >> pure (record removed {
          ready_pools = none;
          not_ready_pools = none;
          ready_num = 0;
          unready_num = 0;
        })
      else pure removed

  -- The status, and whether the images or the replicas have changed.
  pub roll_out : YurtIngress → List IngressPool → Status → Writes Write (Status × Bool)
  unfolding send_each
  roll_out ying pools status =
      if not (ying.ingress_controller_image == status.ingress_controller_image)
      then send_each (λ p. update_deployment p.name) pools
        >> pure (record status { ready_num = 0; unready_num = length (items ying.pools) }, true)
      else if not (eqb ying.replicas status.replicas)
      then send_each (λ p. scale_deployment p.name) pools >> pure (status, true)
      else pure (status, false)

  pub recreate_jobs : YurtIngress → List IngressPool → Status → Writes Write Bool
  unfolding send_each
  recreate_jobs ying pools status =
      if ying.ingress_webhook_cert_gen_image == status.ingress_webhook_cert_gen_image
      then pure false
      else send_each (λ p. recreate_job p.name) pools >> pure true

  pub update_ips : YurtIngress → List IngressPool → Writes Write (Unit {0})
  update_ips ying [] = pure tt
  update_ips ying (p ∷ ps) =
      elim (get_current_pool ying p.name) [
        | none ↦ pure tt
        | some current ↦
            if is_str_array_equal p.ingress_ips current.ingress_ips
            then pure tt
            else send answer (update_external_ips p.name p.ingress_ips)
      ]
      >> update_ips ying ps
