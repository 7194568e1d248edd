-- ===== src/Ingress/Reconcile/Undesired.antt =====
-- What updateStatus does with a deployment of a pool that the spec has no more.
use yurt_app_manager.Prelude.{
  none, List, [], ◌∷◌, ◌++◌, Error, Result, ok, err, panic, ◌≡◌, ◌≢◌, refl, arith,
}
use yurt_app_manager.Ingress.{Status, YurtIngress, Deployment, get_desired_pool}
use yurt_app_manager.Ingress.Reconcile.{count_deployment, count_deployments}

count_deployment-not_err :
    (ying : YurtIngress) (d : Deployment) (status : Status) (e : Error)
    → count_deployment ying d status ≢ err e
unfolding count_deployment
count_deployment-not_err ying d status e h = ground (arith, h)

count_deployment_undesired :
    (ying : YurtIngress) (d : Deployment) (status : Status)
    → get_desired_pool ying d.pool ≡ none
    → d.ready_replicas ≡ ying.replicas
    → count_deployment ying d status ≡ panic
unfolding count_deployment
count_deployment_undesired ying d status h r = ground (arith, h, r)

-- The loop of updateStatus over the deployments panics, whatever the others are, when one of them
-- belongs to a pool that the spec does not have and has as many ready replicas as the spec asks for.
pub count_deployments_undesired :
    (ying : YurtIngress) (ds : List Deployment) (d : Deployment) (rest : List Deployment)
    (status : Status)
    → get_desired_pool ying d.pool ≡ none
    → d.ready_replicas ≡ ying.replicas
    → count_deployments ying (ds ++ d ∷ rest) status ≡ panic
unfolding count_deployments
count_deployments_undesired ying [] d rest status h r =
    rw (count_deployment_undesired ying d status h r, count_deployments) refl
count_deployments_undesired ying (e ∷ ds) d rest status h r =
    go (λ next. count_deployments_undesired ying ds d rest next h r)
      (count_deployment ying e status) refl
  where
    go :
        ((next : Status) → count_deployments ying (ds ++ d ∷ rest) next ≡ panic)
        → (q : Result Status) → count_deployment ying e status ≡ q
        → count_deployments ying (e ∷ ds ++ d ∷ rest) status ≡ panic
    go rec (ok next) k = rw (k, count_deployments) (rec next)
    go rec (err x) k = elim (count_deployment-not_err ying e status x k) [ ]
    go rec panic k = rw (k, count_deployments) refl
