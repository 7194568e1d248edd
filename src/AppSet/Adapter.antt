-- ===== src/AppSet/Adapter.antt =====
-- StatefulSetAdapter of pkg/yurtappmanager/controller/yurtappset/adapter/statefulset_adapter.go, with
-- adapter_util.go beside it. controllerutil.SetControllerReference, the strategic merge of a patch and
-- validation.NameIsDNSSubdomain are parameters, gathered in the record Library.
pub mod Selection
use yurt_app_manager.Prelude.{
  ℕ, zero, suc, ◌+◌, Bool, true, false, Option, none, some, List, [], ◌∷◌, ◌++◌, ◌==◌, ◌&&◌, not,
  String, Error, Result, ok, err, panic, ◌>>=◌, GoMap, GoSlice, items, lookup, insert, value_of,
  ltb, is_empty, if◌then◌else◌,
}

-- A requirement on the labels of a node, its operator and its values.
pub record NodeSelectorRequirement : Type 0 where
  pub key : String
  pub operator : String
  pub values : List String

pub record NodeSelectorTerm : Type 0 where
  pub match_expressions : List NodeSelectorRequirement
  pub match_fields : List NodeSelectorRequirement

-- The part of a node affinity, or of an affinity, that is left alone is a text.
pub record NodeAffinity : Type 0 where
  pub required : Option (GoSlice NodeSelectorTerm)
  pub preferred : String

pub record Affinity : Type 0 where
  pub node_affinity : Option NodeAffinity
  pub pod_affinities : String

pub record PodSpec : Type 0 where
  pub affinity : Option Affinity
  pub tolerations : GoSlice String
  pub containers : String

pub record PodTemplateSpec : Type 0 where
  pub labels : GoMap String
  pub annotations : GoMap String
  pub spec : PodSpec

pub record PoolTopology : Type 0 where
  pub name : String
  pub match_expressions : List NodeSelectorRequirement
  pub tolerations : GoSlice String
  pub patch : Option String

pub record LabelSelector : Type 0 where
  pub match_labels : GoMap String
  pub match_expressions : List NodeSelectorRequirement

pub record StatefulSetTemplate : Type 0 where
  pub labels : GoMap String
  pub annotations : GoMap String
  pub update_strategy : String
  pub pod_management_policy : String
  pub service_name : String
  pub volume_claim_templates : List String
  pub template : PodTemplateSpec

-- The fields of a YurtAppSet that a template is made from.
pub record YurtAppSetTemplate : Type 0 where
  pub name : String
  pub namespace : String
  pub pools : List PoolTopology
  pub selector : Option LabelSelector
  pub stateful_set : Option StatefulSetTemplate
  pub revision_history_limit : Option ℕ

pub record StatefulSet : Type 0 where
  pub name : String
  pub namespace : String
  pub generate_name : String
  pub labels : GoMap String
  pub annotations : GoMap String
  pub owners : List String
  pub selector : Option LabelSelector
  pub replicas : Option ℕ
  pub update_strategy : String
  pub pod_management_policy : String
  pub service_name : String
  pub volume_claim_templates : List String
  pub revision_history_limit : Option ℕ
  pub template : PodTemplateSpec
  pub observed_generation : ℕ
  pub ready_replicas : ℕ

pub record Library : Type 0 where
  pub is_dns_prefix : String → Bool
  pub set_controller_reference : YurtAppSetTemplate → StatefulSet → Result StatefulSet
  pub strategic_merge : String → StatefulSet → Result StatefulSet

abbrev pub pool_name_label_key : String
pool_name_label_key = "apps.openyurt.io/pool-name"

abbrev pub controller_revision_hash_label_key : String
controller_revision_hash_label_key = "apps.openyurt.io/controller-revision-hash"

abbrev pub annotation_patch_key : String
annotation_patch_key = "apps.openyurt.io/patch"

unfoldable pub required_terms : PodSpec → List NodeSelectorTerm
required_terms pod = elim pod.affinity [
  | none ↦ []
  | some a ↦ elim a.node_affinity [
    | none ↦ []
    | some n ↦ elim n.required [ none ↦ [] | some terms ↦ items terms ]
  ]
]

-- A term that requires nothing where there was none.
abbrev pub at_least_one : List NodeSelectorTerm → List NodeSelectorTerm
at_least_one [] = record { match_expressions = []; match_fields = [] } ∷ []
at_least_one (t ∷ ts) = t ∷ ts

pub terms_of : PodSpec → List NodeSelectorTerm
unfolding required_terms
terms_of pod = at_least_one (required_terms pod)

-- One round of the outer loop: the expression is appended to every term.
abbrev pub append_expression :
    NodeSelectorRequirement → List NodeSelectorTerm → List NodeSelectorTerm
append_expression e [] = []
append_expression e (t ∷ ts) =
    record t { match_expressions = t.match_expressions ++ e ∷ [] } ∷ append_expression e ts

abbrev pub append_expressions :
    List NodeSelectorRequirement → List NodeSelectorTerm → List NodeSelectorTerm
append_expressions [] terms = terms
append_expressions (e ∷ es) terms = append_expressions es (append_expression e terms)

pub attach_node_affinity : PodSpec → PoolTopology → PodSpec
unfolding terms_of
attach_node_affinity pod pool = (record pod {
  affinity = some (record (affinity_of pod.affinity) {
    node_affinity = some (record (node_affinity_of (affinity_of pod.affinity).node_affinity) {
      required = some (some (append_expressions pool.match_expressions (terms_of pod)));
    });
  });
})
  where
    affinity_of : Option Affinity → Affinity
    affinity_of none = record { node_affinity = none; pod_affinities = "" }
    affinity_of (some a) = a

    node_affinity_of : Option NodeAffinity → NodeAffinity
    node_affinity_of none = record { required = none; preferred = "" }
    node_affinity_of (some n) = n

pub attach_tolerations : PodSpec → PoolTopology → PodSpec
attach_tolerations pod pool = elim pool.tolerations [
  | none ↦ pod
  | some tolerations ↦ record pod { tolerations = some (items pod.tolerations ++ tolerations) }
]

pub attach_node_affinity_and_tolerations : PodSpec → PoolTopology → PodSpec
unfolding attach_node_affinity attach_tolerations
attach_node_affinity_and_tolerations pod pool =
    attach_tolerations (attach_node_affinity pod pool) pool

pub get_revision : GoMap String → String
get_revision labels = value_of labels controller_revision_hash_label_key

pub is_expected : GoMap String → String → Bool
is_expected labels revision = not (value_of labels controller_revision_hash_label_key == revision)

-- The pods that do not have the revision, counted.
pub get_current_partition : List (GoMap String) → String → ℕ
unfolding get_revision
get_current_partition [] revision = 0
get_current_partition (pod ∷ pods) revision =
    let rest = get_current_partition pods revision in
    if get_revision pod == revision then rest else rest + 1

pub is_pod_stuck_for_rolling_update : ℕ → GoMap String → Bool → String → ℕ → Bool
unfolding get_revision
is_pod_stuck_for_rolling_update ordinal labels ready revision partition =
    if ltb ordinal partition
    then false
    else if get_revision labels == revision
    then false
    else not ready

abbrev pub put_each : List (String × String) → List (String × String) → List (String × String)
put_each [] m = m
put_each ((k, v) ∷ rest) m = insert k v (put_each rest m)

abbrev pub find_pool : String → List PoolTopology → Option PoolTopology
find_pool s [] = none
find_pool s (p ∷ ps) = if p.name == s then some p else find_pool s ps
