-- ===== src/Daemon/Deployments.antt =====
-- DeploymentControllor of
-- pkg/yurtappmanager/controller/yurtappdaemon/workloadcontroller/deployment_controller.go, with
-- getWorkloadPrefix of util.go beside it. The API calls are the record Api over a world `W`, where
-- `list_claimed` lists the deployments that the selector matches and claims them;
-- validation.NameIsDNSSubdomain and controllerutil.SetControllerReference are the record Library.
pub mod Applied
pub mod Quiet
pub mod Managed
mod Examples
use Prim.Native.String.{◌++◌ as ◌+++◌}
use yurt_app_manager.Prelude.{
  ℕ, zero, suc, Bool, Option, none, some, List, [], ◌∷◌, ◌++◌, map, String, Error, Result, ok, err,
  panic, ◌>>=◌, GoMap, items, insert, put, if◌then◌else◌,
}
use yurt_app_manager.AppSet.Adapter.{
  Affinity, LabelSelector, put_each, pool_name_label_key, controller_revision_hash_label_key,
}
use yurt_app_manager.Daemon.{
  Toleration, Workload, NodePool, create_node_selector_by_nodepool_name, taints_to_tolerations,
}

pub record PodTemplate : Type 0 where
  pub labels : GoMap String
  pub affinity : Option Affinity
  pub node_selector : GoMap String
  pub tolerations : List Toleration
  pub containers : String

-- The part of a spec that is only copied is a text.
pub record DeploymentSpec : Type 0 where
  pub selector : Option LabelSelector
  pub template : PodTemplate
  pub strategy : String

pub record DeploymentTemplate : Type 0 where
  pub labels : GoMap String
  pub annotations : GoMap String
  pub spec : DeploymentSpec

-- The fields of a YurtAppDaemon that a deployment is made from.
pub record DaemonTemplate : Type 0 where
  pub name : String
  pub namespace : String
  pub selector : Option LabelSelector
  pub deployment : Option DeploymentTemplate

pub record Deployment : Type 0 where
  pub name : String
  pub namespace : String
  pub generate_name : String
  pub labels : GoMap String
  pub annotations : GoMap String
  pub owners : List String
  pub spec : DeploymentSpec

pub record Library : Type 0 where
  pub is_dns_prefix : String → Bool
  pub set_controller_reference : DaemonTemplate → Deployment → Result Deployment

abbrev pub annotation_ref_node_pool : String
annotation_ref_node_pool = "apps.openyurt.io/ref-nodepool"

pub get_workload_prefix : Library → String → String → String
get_workload_prefix library controller nodepool =
    let prefix = controller +++ "-" +++ nodepool +++ "-" in
    if library.is_dns_prefix prefix then prefix else controller +++ "-"

-- What an affinity requires of the nodes is dropped; a node affinity that is nil is dereferenced.
unfoldable pub drop_required : Option Affinity → Result (Option Affinity)
drop_required none = ok none
drop_required (some a) = elim a.node_affinity [
  | none ↦ panic
  | some n ↦ ok (some (record a { node_affinity = some (record n { required = none }) }))
]

module _ (nodepool : NodePool) (revision : String) where
  pub with_pod : Option Affinity → PodTemplate → PodTemplate
  with_pod affinity pod = record pod {
    labels = some (
        insert controller_revision_hash_label_key revision
          (insert pool_name_label_key nodepool.name (items pod.labels)));
    affinity = affinity;
    node_selector = create_node_selector_by_nodepool_name nodepool.name;
    tolerations = pod.tolerations ++ taints_to_tolerations nodepool.taints;
  }

  -- The spec of the template, with the selector and the pods of the pool.
  unfoldable pub with_spec : DeploymentSpec → Result DeploymentSpec
  unfolding drop_required with_pod
  with_spec spec = elim spec.selector [
    | none ↦ panic
    | some selector ↦
        put pool_name_label_key nodepool.name selector.match_labels >>= λ match_labels.
        drop_required spec.template.affinity >>= λ affinity. ok (record spec {
          selector = some (record selector { match_labels = match_labels });
          template = with_pod affinity spec.template;
        })
  ]

module _ (library : Library) (yad : DaemonTemplate) (nodepool : NodePool) (revision : String) where
  pub with_metadata : LabelSelector → DeploymentTemplate → Deployment → Deployment
  unfolding get_workload_prefix
  with_metadata selector template set = record set {
    labels = some (
        insert pool_name_label_key nodepool.name (
          insert controller_revision_hash_label_key revision (
            put_each (items selector.match_labels)
              (put_each (items template.labels) (items set.labels)))));
    annotations = some (
        insert annotation_ref_node_pool nodepool.name
          (put_each (items template.annotations) (items set.annotations)));
    namespace = yad.namespace;
    generate_name = get_workload_prefix library yad.name nodepool.name;
  }

  unfoldable pub apply_template : Deployment → Result Deployment
  unfolding with_metadata with_spec
  apply_template set = elim yad.deployment [
    | none ↦ panic
    | some template ↦ elim yad.selector [
      | none ↦ panic
      | some selector ↦ with_spec nodepool revision template.spec >>= λ spec.
          library.set_controller_reference yad
            (record (with_metadata selector template set) { spec = spec })
    ]
  ]

-- The zero value of a deployment.
abbrev pub empty_deployment : Deployment
empty_deployment = record {
  name = "";
  namespace = "";
  generate_name = "";
  labels = none;
  annotations = none;
  owners = [];
  spec = record {
    selector = none;
    template = record {
      labels = none;
      affinity = none;
      node_selector = none;
      tolerations = [];
      containers = "";
    };
    strategy = "";
  };
}

-- A workload as GetAllWorkloads reads it from a deployment.
pub to_workload : Deployment → Workload
to_workload deploy = record {
  name = deploy.name;
  namespace = deploy.namespace;
  labels = deploy.labels;
  annotations = deploy.annotations;
  tolerations = deploy.spec.template.tolerations;
  node_selector = deploy.spec.template.node_selector;
}

pub record Api (W : Type 0) : Type 0 where
  pub list_claimed : DaemonTemplate → W → Result (List Deployment) × W
  pub get : String → String → W → Result Deployment × W
  pub create : Deployment → W → Option Error × W
  pub update : Deployment → W → Option Error × W
  pub delete : String → String → W → Option Error × W

abbrev pub update_retries : ℕ
update_retries = 5

module _ {W : Type 0} (api : Api W) (library : Library) (yad : DaemonTemplate) where
  pub delete_workload : Workload → W → Option Error × W
  delete_workload load w = api.delete load.namespace load.name w

  pub create_workload : NodePool → String → W → Result (Option Error) × W
  unfolding apply_template
  create_workload nodepool revision w =
      elim (apply_template library yad nodepool revision empty_deployment) [
        | panic ↦ (panic, w)
        | err e ↦ (ok (some e), w)
        | ok deploy ↦ (let (e, w1) = api.create deploy w in (ok e, w1))
      ]

  -- A read, the template, an update; `last` is the error of the update before.
  pub update_from : ℕ → Option Error → Workload → NodePool → String → W → Result (Option Error) × W
  unfolding apply_template
  update_from zero last load nodepool revision w = (ok last, w)
  update_from (suc retries) last load nodepool revision w =
      let (got, w1) = api.get load.namespace load.name w in
      elim got [
        | err e ↦ (ok (some e), w1)
        | panic ↦ (panic, w1)
        | ok found ↦ elim (apply_template library yad nodepool revision found) [
          | panic ↦ (panic, w1)
          | err e ↦ (ok (some e), w1)
          | ok deploy ↦
              (let (e, w2) = api.update deploy w1 in
                let again = update_from retries e load nodepool revision w2 in
                elim e [ none ↦ (ok none, w2) | some _ ↦ again ])
        ]
      ]

  pub update_workload : Workload → NodePool → String → W → Result (Option Error) × W
  unfolding update_from
  update_workload load nodepool revision w =
      update_from update_retries none load nodepool revision w

  pub get_all_workloads : W → Result (List Workload) × W
  unfolding to_workload
  get_all_workloads w =
      let (claimed, w1) = api.list_claimed yad w in
      (claimed >>= λ deploys. ok (map to_workload deploys), w1)
