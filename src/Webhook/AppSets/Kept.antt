-- ===== src/Webhook/AppSets/Kept.antt =====
-- What an accepted update of a YurtAppSet keeps of its pools.
use yurt_app_manager.Prelude.{
  ℕ, zero, suc, append-eq-nil, Bool, true, none, some, List, [], ◌∷◌, String, GoSlice, has, lookup,
  insert, lookup-insert, All, All-map, subst, ◌≡◌, refl, sym, ap, ◌∙◌, arith, eq_iff, eq_refl,
  Option-cases, inl, inr,
}
use yurt_app_manager.Webhook.Fields.{PathElement}
use yurt_app_manager.Webhook.Templates.{Library}
use yurt_app_manager.Webhook.AppSets.{
  Pool, validate_from, validate_kept, validate_yurt_app_set_topology, index_pools,
}
use yurt_app_manager.Webhook.AppSets.Accepted.{HasValidNames}

module _ (library : Library) where
  -- A name that stood before is not the name of a pool.
  lookup-index_pools-before :
      (s : String) (before : List String) (m : List (String × Pool)) (pools : List Pool)
      → HasValidNames library before pools
      → has s before ≡ true
      → lookup s (index_pools m pools) ≡ lookup s m
  lookup-index_pools-before s before m [] names h = refl
  lookup-index_pools-before s before m (p ∷ ps) names h =
      lookup-index_pools-before s (p.name ∷ before) (insert p.name p m) ps names.3
        (ground (arith, h))
      ∙ ground (arith, lookup-insert p.name s p m, eq_iff p.name s, names.1, h)

  -- A pool whose name is its own is found under it.
  index_pools_complete :
      (before : List String) (m : List (String × Pool)) (pools : List Pool)
      → HasValidNames library before pools
      → All (λ p. lookup p.name (index_pools m pools) ≡ some p) pools
  index_pools_complete before m [] names = tt
  index_pools_complete before m (p ∷ ps) names = (
    lookup-index_pools-before p.name (p.name ∷ before) (insert p.name p m) ps names.3
          (ground (arith, eq_refl p.name))
        ∙ ground (arith, lookup-insert p.name p.name p m, eq_refl p.name),
    index_pools_complete (p.name ∷ before) (insert p.name p m) ps names.3,
  )

some_inj : {A : Type 0} {a b : A} → some a ≡ some b → a ≡ b
some_inj {A} {a} h = ap (λ o. elim o [ none ↦ a | some x ↦ x ]) h

module _ (same_term : String → String → Bool)
    (same_tolerations : GoSlice String → GoSlice String → Bool) where
  -- The pool selects its nodes as the old one did, and tolerates the same.
  abbrev pub IsKept : Pool → Pool → Type 0
  IsKept old p =
      (same_term old.node_selector_term p.node_selector_term ≡ true)
      × (same_tolerations old.tolerations p.tolerations ≡ true)

  module _ (path : List PathElement) where
    validate_kept-eq-nil :
        (i : ℕ) (old p : Pool)
        → validate_kept same_term same_tolerations path i old p ≡ []
        → IsKept old p
    unfolding validate_kept
    validate_kept-eq-nil i old p h = (ground arith, ground arith)

    validate_from-eq-nil :
        (olds : List (String × Pool)) (i : ℕ) (pools : List Pool)
        → validate_from same_term same_tolerations path olds i pools ≡ []
        → All (λ p. (old : Pool) → lookup p.name olds ≡ some old → IsKept old p) pools
    unfolding validate_from
    validate_from-eq-nil olds i [] h = tt
    validate_from-eq-nil olds i (p ∷ ps) h = elim (Option-cases (lookup p.name olds)) [
      | inl e ↦ (λ old f. cc, validate_from-eq-nil olds (suc i) ps (rw (e, validate_from) at h))
      | inr (q, e) ↦
          (let (kept, rest) =
              append-eq-nil (validate_kept same_term same_tolerations path i q p)
                (validate_from same_term same_tolerations path olds (suc i) ps)
                (rw (e, validate_from) at h) in
            (
              λ old f. validate_kept-eq-nil i old p (
                  subst (λ o. validate_kept same_term same_tolerations path i o p ≡ [])
                    (some_inj (sym e ∙ f)) kept),
              validate_from-eq-nil olds (suc i) ps rest,
            ))
    ]

-- Where the pools of the old set have valid names, an update that is accepted lets every pool that
-- stays, by its name, keep the nodes that it selects and its tolerations.
pub validate_yurt_app_set_topology_sound :
    (library : Library) (same_term : String → String → Bool)
    (same_tolerations : GoSlice String → GoSlice String → Bool) (path : List PathElement)
    (pools olds : List Pool)
    → HasValidNames library [] olds
    → validate_yurt_app_set_topology same_term same_tolerations path pools olds ≡ []
    → All (λ old. All (λ p. p.name ≡ old.name → IsKept same_term same_tolerations old p) pools) olds
unfolding validate_yurt_app_set_topology
validate_yurt_app_set_topology_sound library same_term same_tolerations path pools olds names h =
    All-map
      (λ old found.
        All-map (λ p kept e. kept old (ap (λ s. lookup s (index_pools [] olds)) e ∙ found)) pools
          (validate_from-eq-nil same_term same_tolerations path (index_pools [] olds) zero pools h))
      olds (index_pools_complete library [] [] olds names)
