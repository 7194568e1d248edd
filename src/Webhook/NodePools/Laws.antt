-- ===== src/Webhook/NodePools/Laws.antt =====
-- What the webhooks of node pools let through, and the conversion between the versions.
use yurt_app_manager.Prelude.{
  false, Option, none, some, List, [], ◌∷◌, ◌==◌, ◌||◌, String, Error, Result, ok, GoMap, ◌≡◌, ◌↔◌,
  refl, ap, ◌∙◌, sym, arith, eq_iff,
}
use yurt_app_manager.NodePool.Types.{label_current_node_pool}
use yurt_app_manager.Webhook.NodePools.{
  Spec, AlphaNodePool, BetaNodePool, convert_to, convert_from, set_defaults,
  validate_node_pool_spec, validate_node_pool_spec_update, validate_node_pool_deletion,
}

-- A node pool of v1beta1 comes back from v1alpha1, through destinations without labels, unchanged if
-- and only if its spec has no labels: the conversions leave the labels of the spec behind.
pub convert_from-convert_to_iff :
    (src fresh : BetaNodePool) (hub : AlphaNodePool)
    → fresh.spec.labels ≡ none
    → (convert_from fresh (convert_to src hub) ≡ src) ↔ (src.spec.labels ≡ none)
unfolding convert_from convert_to
convert_from-convert_to_iff src fresh hub h = (
  λ e. sym (ap (λ (p : BetaNodePool). p.spec.labels) e) ∙ h,
  λ e. λ i. record src { spec = record src.spec { labels = (h ∙ sym e) i } },
)

-- A pool spec may replace another if and only if its annotations are valid and it has the same type.
accepted_iff :
    (annotations_error : GoMap String → Option Error) (spec old : Spec)
    → (validate_node_pool_spec_update annotations_error spec old ≡ [])
      ↔ ((annotations_error spec.annotations ≡ none) × (spec.kind ≡ old.kind))
unfolding validate_node_pool_spec_update validate_node_pool_spec
accepted_iff annotations_error spec old = (
  λ h. (ground (arith, eq_iff spec.kind old.kind), ground (arith, eq_iff spec.kind old.kind)),
  λ h.
      rw (h.0, validate_node_pool_spec_update, validate_node_pool_spec)
        (ground (arith, h.1, eq_iff spec.kind old.kind)),
)

module _ (annotations_error : GoMap String → Option Error) where
  -- A history of the spec of a pool: it is created, then each update is accepted.
  pub data IsHistory : Spec → Spec → Type 0 where
    created :
        {spec : Spec} → validate_node_pool_spec annotations_error spec ≡ [] → IsHistory spec spec
    updated :
        {first old spec : Spec}
        → IsHistory first old
        → validate_node_pool_spec_update annotations_error spec old ≡ []
        → IsHistory first spec

-- Through every history of accepted updates a pool keeps the type that it was created with, and its
-- annotations are valid.
pub IsHistory-kind :
    (annotations_error : GoMap String → Option Error) {first spec : Spec}
    → IsHistory annotations_error first spec
    → (spec.kind ≡ first.kind) × (annotations_error spec.annotations ≡ none)
unfolding validate_node_pool_spec
IsHistory-kind annotations_error (IsHistory.created {spec} h) = (refl, ground (arith, h))
IsHistory-kind annotations_error (IsHistory.updated {first} {old} {spec} earlier h) =
    let (valid, same) = (accepted_iff annotations_error spec old).0 h in
    (same ∙ (IsHistory-kind annotations_error earlier).0, valid)

-- A pool that the webhook has given its defaults may be deleted if and only if it is not one of the
-- two default pools and the nodes with the label of the pool can be listed and are none.
pub validate_node_pool_deletion_iff :
    (list_nodes : GoMap String → Result (List String)) (to_lower : String → String)
    (np : AlphaNodePool)
    → (validate_node_pool_deletion list_nodes (set_defaults to_lower np) ≡ ok []) ↔ (
        ((np.meta.name == "default-nodepool" || np.meta.name == "default-edge-nodepool") ≡ false)
        × (list_nodes (some ((label_current_node_pool, np.meta.name) ∷ [])) ≡ ok []))
unfolding validate_node_pool_deletion set_defaults
validate_node_pool_deletion_iff list_nodes to_lower np =
    (λ h. (ground arith, ground arith), λ h. ground (arith, h.0, h.1))
