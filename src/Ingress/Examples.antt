-- ===== src/Ingress/Examples.antt =====
-- A YurtIngress and its pools, for the theorems about YurtIngresses.
use yurt_app_manager.Prelude.{true, false, none, some, [], ◌∷◌, has, ok, String, panic, ◌≡◌, refl}
use yurt_app_manager.Ingress.{
  IngressPool, Status, YurtIngress, Deployment, get_desired_pool, get_pools, get_current_pools,
  remove_pool_from_condition,
}
use yurt_app_manager.Ingress.PoolsDiff.{pool_names}
use yurt_app_manager.Ingress.Steps.{
  Write, Cluster, add_pools, add_each, remove_pools, remove_each, create_specific, delete_specific,
}
use yurt_app_manager.Ingress.Steps.Conditions.{current_of, add_pools-remove_pools}
use yurt_app_manager.Writes.{Server, send}
use yurt_app_manager.Ingress.Reconcile.{count_deployments}
use yurt_app_manager.Ingress.Reconcile.Undesired.{count_deployments_undesired}

abbrev pool_called : String → IngressPool
pool_called s = record { name = s; ingress_ips = [] }

abbrev no_status : Status
no_status = record {
  replicas = 1;
  ready_num = 0;
  unready_num = 0;
  ingress_controller_image = "";
  ingress_webhook_cert_gen_image = "";
  ready_pools = none;
  not_ready_pools = none;
}

abbrev ingress_of_a : YurtIngress
ingress_of_a = record {
  name = "ingress";
  deleting = false;
  has_finalizer = true;
  replicas = 1;
  ingress_controller_image = "";
  ingress_webhook_cert_gen_image = "";
  pools = some (pool_called "a" ∷ []);
  status = no_status;
}

abbrev deployment_of : String → Deployment
deployment_of s = record { pool = s; ready_replicas = 1; conditions = [] }

count_deployments_undesired_example :
    count_deployments ingress_of_a (deployment_of "a" ∷ deployment_of "b" ∷ []) no_status ≡ panic
unfolding get_desired_pool
count_deployments_undesired_example =
    count_deployments_undesired ingress_of_a (deployment_of "a" ∷ []) (deployment_of "b") []
      no_status refl refl

abbrev served_b : Status
served_b = record no_status { ready_num = 1; ready_pools = some (pool_called "b" ∷ []) }

abbrev moved_to_a : Status
moved_to_a = record no_status {
  unready_num = 1;
  ready_pools = some [];
  not_ready_pools = some (record { pool = pool_called "a"; info = none } ∷ []);
}

abbrev accepts : Server Write
accepts log write = none

abbrev busy : Cluster
busy = record { is_ingress_namespace_ready = true; is_only = true; deployments = ok [] }

add_pools-remove_pools_example :
    has "a" (pool_names (current_of moved_to_a)) ≡ has "a" (pool_names (pool_called "a" ∷ []))
unfolding add_pools add_each remove_pools remove_each get_pools remove_pool_from_condition send
    get_current_pools
add_pools-remove_pools_example =
    add_pools-remove_pools accepts busy (record ingress_of_a { status = served_b })
      (pool_called "a" ∷ []) [] (create_specific (pool_called "a") ∷ delete_specific "b" false ∷ [])
      moved_to_a "a" refl refl
