-- ===== src/AppSet/Examples.antt =====
-- Conditions, patches, pools, revisions and a pod, for the theorems about YurtAppSets.
use mathlib.Core.List.Permᴰ
use yurt_app_manager.Prelude.{
  pos, ℕ, zero, suc, ◌-◌, true, false, none, some, List, [], ◌∷◌, ◌==◌, ◌&&◌, String, Error, ok,
  panic, has, lookup, if◌then◌else◌, ◌≡◌, ◌≢◌, refl, arith,
}
use yurt_app_manager.AppSet.Types.{
  Condition, PoolConfig, Pool, Workload, YurtAppSet, YurtAppSetStatus,
}
use yurt_app_manager.AppSet.Conditions.{get_condition, set_condition, get-set_condition, stored}
use yurt_app_manager.AppSet.Pools.{
  ControlInterface, get_next_patches, get_name_to_pool, delete_all, delete_dup_pool,
  classify_pool_by_pool_name, classify_from,
}
use yurt_app_manager.AppSet.Pools.Names.{get_name_to_pool_keeps_first, first_pool, pools_of_name}
use yurt_app_manager.AppSet.Update.{
  manage_pool_provision, create_stage, create_call, delete_each, clean_others,
}
use yurt_app_manager.AppSet.Update.Recorded.{stands, recorded, manage_pool_provision_reaches}
use yurt_app_manager.Util.SlowStart.{range_from, slow_start_batch, batches, run_calls}
use yurt_app_manager.AppSet.Update.Stay.{spec_names}
use yurt_app_manager.AppSet.Revision
use yurt_app_manager.AppSet.Revision.{
  ControllerRevision, History, clean_expired_revision, clean_from, drop, create_from,
}
use yurt_app_manager.AppSet.Revision.Cleaning.{
  clean_expired_revision-Deletes, create_from_returns, Deletes, not_named, take,
}
use yurt_app_manager.AppSet.Status
use yurt_app_manager.AppSet.Status.{update_status, retry_update, update_retries, calculate_status}
use yurt_app_manager.AppSet.Status.Writing.{update_status_always_writes}
use yurt_app_manager.AppSet.Adapter.{
  PodSpec, PoolTopology, NodeSelectorRequirement, attach_node_affinity, required_terms,
}
use yurt_app_manager.AppSet.Adapter.Selection.{allows, meets_all, allows-attach_node_affinity}

abbrev failed : Condition
failed = record {
  kind = "PoolFailure";
  status = "True";
  last_transition_time = 1;
  reason = "Error";
  message = "first";
}

abbrev failed_again : Condition
failed_again = record failed { message = "second"; last_transition_time = 2 }

get-set_condition_example :
    get_condition (set_condition (failed ∷ []) failed_again) "PoolFailure" ≡ (
      if "PoolFailure" == "PoolFailure"
      then some (stored (get_condition (failed ∷ []) "PoolFailure") failed_again)
      else get_condition (failed ∷ []) "PoolFailure")
get-set_condition_example = get-set_condition (failed ∷ []) failed_again "PoolFailure"

abbrev two_entries : List PoolConfig
two_entries =
    record { name = "hangzhou"; replicas = some 1; patch = none }
    ∷ record { name = "hangzhou"; replicas = some 2; patch = some "{}" }
    ∷ []

abbrev workload_of : String → Workload
workload_of s = record {
  name = s;
  namespace = "";
  labels = none;
  annotations = none;
  replicas = none;
  ready_replicas = 0;
  observed_generation = 0;
}

abbrev pool_of : String → Pool
pool_of s = record {
  name = "hangzhou";
  namespace = "";
  pool_ref = workload_of s;
  observed_generation = 0;
  replicas = 1;
  ready_replicas = 0;
  patch_info = "";
}

-- A cluster with two pools of one name; its world counts the deletions.
abbrev two_pools : ControlInterface ℕ
two_pools = record {
  get_all_pools = λ w. (ok (pool_of "a" ∷ pool_of "b" ∷ []), w);
  create_pool = λ name revision replicas w. (none, w);
  update_pool = λ pool revision replicas w. (none, w);
  delete_pool = λ pool w. (none, suc w);
  get_pool_failure = λ pool. none;
  is_expected = λ pool revision. false;
}

get_name_to_pool_keeps_first_example :
    lookup "hangzhou" (("hangzhou", pool_of "a") ∷ [])
    ≡ first_pool (pools_of_name "hangzhou" (pool_of "a" ∷ pool_of "b" ∷ []))
unfolding get_name_to_pool delete_dup_pool delete_all classify_pool_by_pool_name classify_from
get_name_to_pool_keeps_first_example =
    get_name_to_pool_keeps_first two_pools "hangzhou" 0 1 (pool_of "a" ∷ pool_of "b" ∷ [])
      (("hangzhou", pool_of "a") ∷ []) refl refl

abbrev first_status : YurtAppSetStatus
first_status = record {
  observed_generation = 0;
  collision_count = some (record { address = 0; value = 0 });
  current_revision = "r1";
  conditions = [];
  pool_replicas = none;
  ready_replicas = 0;
  replicas = 0;
  template_type = "";
}

abbrev app_set : YurtAppSet
app_set = record {
  name = "app";
  namespace = "";
  generation = 1;
  deleting = false;
  has_stateful_set_template = true;
  has_deployment_template = false;
  stateful_set_labels = none;
  deployment_labels = none;
  pools = two_entries;
  revision_history_limit = some (pos 1);
  status = first_status;
}

abbrev revision_of : String → ℕ → ControllerRevision
revision_of s n = record { name = s; namespace = ""; revision = n; labels = none; raw = "" }

-- A cluster in which the names that are made of a count below 2 are taken, by other texts.
abbrev taken : Revision.Api ℕ
taken = record {
  controlled_histories = λ yas w. (ok [], w);
  create = λ r w. (if r.name == "free" then none else some Error.already_exists, w);
  get = λ namespace s w.
      (ok (record { name = s; namespace = ""; revision = 1; labels = none; raw = "other" }), w);
  update = λ r w. (none, w);
  delete = λ r w. (none, suc w);
  get_yurt_app_set_patch = λ yas. ok "";
}

abbrev history : History
history = record {
  sort_controller_revisions = λ rs. rs;
  find_equal_revisions = λ rs r. [];
  equal_revision = λ r s. false;
  name_at = λ s r n. elim n [ zero ↦ "taken" | suc _ ↦ "free" ];
  new_controller_revision = λ name labels patch revision count. ok (revision_of "" revision);
}

abbrev old_revisions : List ControllerRevision
old_revisions = revision_of "r0" 0 ∷ revision_of "r1" 1 ∷ revision_of "r2" 2 ∷ []

clean_expired_revision-Deletes_example :
    Deletes taken (not_named "r1" (take (3 - 1) old_revisions)) 0 1
    × ((revision_of "r2" 2 ∷ []) ≡ drop (3 - 1) old_revisions)
unfolding clean_expired_revision clean_from
clean_expired_revision-Deletes_example =
    clean_expired_revision-Deletes taken history app_set 1 old_revisions (revision_of "r2" 2 ∷ []) 0
      1 refl refl

create_from_returns_example : create_from taken history 2 app_set (revision_of "" 1) 0 0 ≢ none
create_from_returns_example =
    create_from_returns taken history app_set (revision_of "" 1) 1 0 0 (λ v h. ground (arith, h))

abbrev accepts : Status.Api ℕ
accepts = record { update_status = λ yas w. (none, suc w); get = λ namespace s w. (panic, w) }

update_status_always_writes_example :
    update_status accepts two_pools 7 0 app_set first_status first_status [] "r1" 0 0
    ≡ retry_update accepts update_retries
        (record (calculate_status two_pools 7 0 app_set first_status [] "r1" 0) {
          observed_generation = 1;
        })
        app_set
        0
update_status_always_writes_example =
    update_status_always_writes accepts two_pools 7 0 app_set first_status first_status [] "r1" 0 0
      (λ p h k. ground (arith, h, k))

abbrev zone_a : NodeSelectorRequirement
zone_a = record { key = "zone"; operator = "In"; values = "a" ∷ [] }

abbrev bare_pod : PodSpec
bare_pod = record { affinity = none; tolerations = none; containers = "" }

abbrev zone_pool : PoolTopology
zone_pool = record { name = "a"; match_expressions = zone_a ∷ []; tolerations = none; patch = none }

-- A pod that asks for the disk of the node.
abbrev bound_pod : PodSpec
bound_pod = record bare_pod {
  affinity = some (record {
    node_affinity = some (record {
      required = some (
          some (
            record {
              match_expressions = record { key = "disk"; operator = "Exists"; values = [] } ∷ [];
              match_fields = [];
            }
            ∷ []));
      preferred = "";
    });
    pod_affinities = "";
  });
}

allows-attach_node_affinity_example :
    allows (λ e. e.key == "zone") (attach_node_affinity bound_pod zone_pool)
    ≡ (allows (λ e. e.key == "zone") bound_pod && meets_all (λ e. e.key == "zone") (zone_a ∷ []))
unfolding required_terms
allows-attach_node_affinity_example =
    allows-attach_node_affinity (λ e. e.key == "zone") bound_pod zone_pool refl (refl, tt)
      (λ h. cc h)

-- A cluster whose world is the names of its pools.
abbrev names_only : ControlInterface (List String)
names_only = record {
  get_all_pools = λ w. (ok (record (pool_of "b") { name = "beijing" } ∷ []), w);
  create_pool = λ name revision replicas w. (none, name ∷ w);
  update_pool = λ pool revision replicas w. (none, w);
  delete_pool = λ pool w. (none, []);
  get_pool_failure = λ pool. none;
  is_expected = λ pool revision. false;
}

abbrev old_pools : List (String × Pool)
old_pools = ("beijing", record (pool_of "b") { name = "beijing" }) ∷ []

manage_pool_provision_reaches_example :
    stands
      ("beijing" ∷ [])
      (manage_pool_provision
        (recorded names_only)
        []
        range_from
        (λ l. l)
        (λ errors. Error.timeout)
        (λ e. "")
        two_entries
        old_pools
        (get_next_patches two_entries)
        "r1"
        ("beijing" ∷ [], [])).3.1
      "hangzhou"
    ≡ has "hangzhou" (spec_names two_entries)
unfolding manage_pool_provision create_stage create_call delete_each clean_others slow_start_batch
    batches run_calls get_name_to_pool delete_dup_pool delete_all classify_pool_by_pool_name
    classify_from
manage_pool_provision_reaches_example =
    manage_pool_provision_reaches names_only [] range_from (λ l. l) (λ errors. Error.timeout)
      (λ e. "") two_entries old_pools (get_next_patches two_entries) "r1" ("beijing" ∷ [])
      ("beijing" ∷ []) refl (λ start size. ∣ Permᴰ.refl (range_from start size) ∣₁)
      (λ k names. refl) refl "hangzhou"
