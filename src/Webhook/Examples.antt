-- ===== src/Webhook/Examples.antt =====
-- Node pools, ingresses, YurtAppSets and YurtAppDaemons that the webhooks see, for the theorems about
-- them.
use yurt_app_manager.Prelude.{
  true, false, Option, none, some, List, [], ◌∷◌, ◌==◌, ◌||◌, String, Error, Result, ok, GoMap, has,
  ◌≡◌, ◌≢◌, ◌↔◌, refl, arith, eq_iff,
}
use yurt_app_manager.NodePool.Types.{label_current_node_pool}
use yurt_app_manager.Webhook.NodePools as NodePools
use yurt_app_manager.Webhook.NodePools.{
  AlphaNodePool, BetaNodePool, convert_to, convert_from, set_defaults, validate_node_pool_spec,
  validate_node_pool_spec_update, validate_node_pool_deletion,
}
use yurt_app_manager.Webhook.NodePools.Laws.{
  convert_from-convert_to_iff, IsHistory, IsHistory-kind, validate_node_pool_deletion_iff,
}
use yurt_app_manager.Webhook.Ingresses.{validate_yurt_ingress_spec}
use yurt_app_manager.Webhook.Ingresses.Exclusive.{
  IsExclusive, stored, validate_yurt_ingress_spec-IsExclusive, validate_yurt_ingress_spec_keeps,
}

abbrev cloud_spec : GoMap String → NodePools.Spec
cloud_spec labels = record {
  kind = "Cloud";
  selector = none;
  labels = labels;
  annotations = none;
  taints = none;
}

abbrev empty_status : NodePools.Status
empty_status = record { ready_node_num = 0; unready_node_num = 0; nodes = none }

abbrev zone_labels : GoMap String
zone_labels = some (("zone", "a") ∷ [])

abbrev beta_pool : GoMap String → BetaNodePool
beta_pool labels = record {
  meta = record { name = "hangzhou"; labels = none; annotations = none };
  spec = cloud_spec labels;
  status = empty_status;
}

abbrev alpha_pool : AlphaNodePool
alpha_pool = record {
  meta = record { name = "hangzhou"; labels = none; annotations = none };
  spec = cloud_spec none;
  status = empty_status;
}

convert_from-convert_to_iff_example :
    (convert_from (beta_pool none) (convert_to (beta_pool zone_labels) alpha_pool)
      ≡ beta_pool zone_labels)
    ↔ (zone_labels ≡ none)
convert_from-convert_to_iff_example =
    convert_from-convert_to_iff (beta_pool zone_labels) (beta_pool none) alpha_pool refl

abbrev no_error : GoMap String → Option Error
no_error annotations = none

IsHistory-kind_example :
    ((cloud_spec (some [])).kind ≡ (cloud_spec none).kind) × (no_error none ≡ none)
unfolding validate_node_pool_spec validate_node_pool_spec_update
IsHistory-kind_example =
    IsHistory-kind no_error {first = cloud_spec none} {spec = cloud_spec (some [])}
      (IsHistory.updated (IsHistory.created {spec = cloud_spec none} refl) refl)

abbrev no_nodes : GoMap String → Result (List String)
no_nodes labels = ok []

abbrev unchanged : String → String
unchanged s = s

validate_node_pool_deletion_iff_example :
    (validate_node_pool_deletion no_nodes (set_defaults unchanged alpha_pool) ≡ ok []) ↔ (
      (("hangzhou" == "default-nodepool" || "hangzhou" == "default-edge-nodepool") ≡ false)
      × (no_nodes (some ((label_current_node_pool, "hangzhou") ∷ [])) ≡ ok []))
validate_node_pool_deletion_iff_example =
    validate_node_pool_deletion_iff no_nodes unchanged alpha_pool

abbrev one_ingress : List (String × List String)
one_ingress = ("first", "hangzhou" ∷ []) ∷ []

one_ingress-IsExclusive : IsExclusive one_ingress
one_ingress-IsExclusive a b pool h k = ground (arith, eq_iff "first" a, eq_iff "first" b)

validate_yurt_ingress_spec-IsExclusive_example :
    IsExclusive (stored "second" ("beijing" ∷ []) one_ingress)
    × ((s : String) → has s ("beijing" ∷ []) ≡ true → has s ("beijing" ∷ "hangzhou" ∷ []) ≡ true)
unfolding validate_yurt_ingress_spec
validate_yurt_ingress_spec-IsExclusive_example =
    validate_yurt_ingress_spec-IsExclusive one_ingress ("beijing" ∷ "hangzhou" ∷ []) "second"
      ("beijing" ∷ []) one_ingress-IsExclusive refl refl

validate_yurt_ingress_spec_keeps_example :
    validate_yurt_ingress_spec (ok one_ingress) (ok ("beijing" ∷ [])) "first" ("hangzhou" ∷ []) true
    ≢ ok []
validate_yurt_ingress_spec_keeps_example =
    validate_yurt_ingress_spec_keeps one_ingress ("beijing" ∷ []) "first" "hangzhou"
      ("hangzhou" ∷ []) refl refl refl
