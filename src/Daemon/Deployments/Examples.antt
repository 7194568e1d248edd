-- ===== src/Daemon/Deployments/Examples.antt =====
-- A YurtAppDaemon and the deployments of its node pools, for the theorems about applyTemplate.
use yurt_app_manager.Prelude.{
  ℕ, ◌+◌, false, Error, true, Option, none, some, [], ◌∷◌, ok, ◌≡◌, refl, arith,
}
use yurt_app_manager.AppSet.Adapter.{LabelSelector, Affinity}
use yurt_app_manager.Daemon.{NodePool}
use yurt_app_manager.Daemon.Examples.{exists_for, exists_for-ToleratesExisting, dedicated}
use yurt_app_manager.Daemon.Deployments.{
  DaemonTemplate, DeploymentTemplate, Deployment, Library, apply_template, with_metadata, with_pod,
  with_spec, get_workload_prefix, to_workload, empty_deployment,
}
use yurt_app_manager.Daemon.Deployments.Applied.{KeepsTemplate, ToleratesMore}
use yurt_app_manager.Daemon.Deployments.Managed.{manage_workloads_quiet}
use yurt_app_manager.Daemon.Manage.{WorkloadControl, YurtAppDaemon, manage_workloads}
use yurt_app_manager.AppSet.Conditions.{new_condition, set_condition}
use yurt_app_manager.Util.SlowStart.{range_from}

abbrev library : Library
library = record {
  is_dns_prefix = λ _. true;
  set_controller_reference = λ yad set. ok (record set { owners = yad.name ∷ [] });
}

abbrev app_selector : LabelSelector
app_selector = record { match_labels = some (("app", "a") ∷ []); match_expressions = [] }

abbrev template_of : Option Affinity → DeploymentTemplate
template_of affinity = record {
  labels = some (("app", "a") ∷ []);
  annotations = none;
  spec = record {
    selector = some app_selector;
    template = record {
      labels = some (("app", "a") ∷ []);
      affinity = affinity;
      node_selector = none;
      tolerations = [];
      containers = "nginx";
    };
    strategy = "RollingUpdate";
  };
}

abbrev daemon_of : Option Affinity → DaemonTemplate
daemon_of affinity = record {
  name = "daemon";
  namespace = "default";
  selector = some app_selector;
  deployment = some (template_of affinity);
}

abbrev tainted : NodePool
tainted = record { name = "hangzhou"; taints = dedicated ∷ [] }

-- The deployment of the pool, as applyTemplate fills it.
deployed : Deployment
unfolding with_metadata with_pod get_workload_prefix
deployed = with_owner (
    with_metadata library (daemon_of none) tainted "r1" app_selector (template_of none)
      empty_deployment)
  where
    with_owner : Deployment → Deployment
    with_owner set = record set {
      owners = "daemon" ∷ [];
      spec = record {
        selector = some (record app_selector {
          match_labels = some (("apps.openyurt.io/pool-name", "hangzhou") ∷ ("app", "a") ∷ []);
        });
        template = with_pod tainted "r1" none (template_of none).spec.template;
        strategy = "RollingUpdate";
      };
    }

library-KeepsTemplate : KeepsTemplate library
library-KeepsTemplate yad set owned h = (ground arith, ground arith, ground arith)

exists_for-ToleratesMore : ToleratesMore exists_for
exists_for-ToleratesMore [] after t h = h
exists_for-ToleratesMore (b ∷ bs) after t h = ground (arith, exists_for-ToleratesMore bs after t)

deployed_eq : apply_template library (daemon_of none) tainted "r1" empty_deployment ≡ ok deployed
unfolding deployed apply_template with_spec with_metadata
deployed_eq = refl

abbrev counting : WorkloadControl ℕ
counting = record {
  get_all_workloads = λ n. (ok [], n + 1);
  create_workload = λ pool revision n. (none, n + 1);
  update_workload = λ load pool revision n. (none, n + 1);
  delete_workload = λ load n. (none, n + 1);
}

abbrev settled : YurtAppDaemon
settled = record {
  name = "daemon";
  namespace = "default";
  generation = 1;
  deleting = false;
  has_stateful_set_template = false;
  has_deployment_template = true;
  stateful_set_labels = none;
  deployment_labels = none;
  revision_history_limit = none;
  status = record {
    observed_generation = 1;
    collision_count = some 0;
    current_revision = "r1";
    conditions = [];
    template_type = "Deployment";
    node_pools = none;
  };
}

manage_workloads_quiet_example :
    manage_workloads counting range_from
      (λ es. Error.timeout)
      (λ e. "")
      exists_for
      5
      settled
      (("hangzhou", to_workload deployed) ∷ [])
      (("hangzhou", tainted) ∷ [])
      "r1"
      0
    ≡ (
      record settled.status {
        node_pools = some ("hangzhou" ∷ []);
        conditions = set_condition [] (new_condition 5 "WorkLoadUpdated" "True" "" "");
      },
      none,
      0,
    )
manage_workloads_quiet_example =
    manage_workloads_quiet counting range_from (λ es. Error.timeout) (λ e. "") 5 settled library
      (daemon_of none) "r1" exists_for (("hangzhou", to_workload deployed) ∷ [])
      (("hangzhou", tainted) ∷ []) 0 library-KeepsTemplate exists_for-ToleratesExisting
      exists_for-ToleratesMore
      (
        record {
          pool = tainted;
          found = refl;
          named = refl;
          set = empty_deployment;
          filled = deployed;
          applied = deployed_eq;
          read = refl;
        },
        tt,
      )
      (λ s h. h)
