-- ===== src/AppSet/Adapter/Selection.antt =====
-- Which nodes a pod may be scheduled to, before and after attachNodeAffinity. `meets` tells whether
-- the node at hand meets a requirement.
use yurt_app_manager.Prelude.{
  Bool, true, false, Option, none, some, List, [], ◌∷◌, ◌++◌, ◌&&◌, ◌||◌, not, All, items, is_empty,
  ◌≡◌, ◌≢◌, refl, sym, ap, subst, ◌∙◌, arith,
}
use yurt_app_manager.AppSet.Adapter.{
  NodeSelectorRequirement, NodeSelectorTerm, at_least_one, required_terms, PodSpec, PoolTopology,
  append_expression, append_expressions, terms_of, attach_node_affinity,
}

abbrev pub meets_all : (NodeSelectorRequirement → Bool) → List NodeSelectorRequirement → Bool
meets_all meets [] = true
meets_all meets (e ∷ es) = meets e && meets_all meets es

-- Whether all the requirements of a term are met, on labels and on fields.
abbrev meets_lists : (NodeSelectorRequirement → Bool) → NodeSelectorTerm → Bool
meets_lists meets t = meets_all meets t.match_expressions && meets_all meets t.match_fields

abbrev pub requires_something : NodeSelectorTerm → Bool
requires_something t = not (is_empty t.match_expressions) || not (is_empty t.match_fields)

-- A term that requires nothing is met by no node.
abbrev pub meets_term : (NodeSelectorRequirement → Bool) → NodeSelectorTerm → Bool
meets_term meets t = requires_something t && meets_lists meets t

-- One of the terms is to be met.
abbrev pub meets_any : (NodeSelectorRequirement → Bool) → List NodeSelectorTerm → Bool
meets_any meets [] = false
meets_any meets (t ∷ ts) = meets_term meets t || meets_any meets ts

abbrev any_lists : (NodeSelectorRequirement → Bool) → List NodeSelectorTerm → Bool
any_lists meets [] = false
any_lists meets (t ∷ ts) = meets_lists meets t || any_lists meets ts

-- The required terms of the pod's node affinity, where it has a node selector.
abbrev pub node_selector_of : PodSpec → Option (List NodeSelectorTerm)
node_selector_of pod = elim pod.affinity [
  | none ↦ none
  | some a ↦ elim a.node_affinity [
    | none ↦ none
    | some n ↦ elim n.required [ none ↦ none | some terms ↦ some (items terms) ]
  ]
]

-- Whether the node may run the pod, as far as the pod's node affinity goes.
abbrev pub allows : (NodeSelectorRequirement → Bool) → PodSpec → Bool
allows meets pod = elim (node_selector_of pod) [ none ↦ true | some ts ↦ meets_any meets ts ]

meets_all-append :
    (meets : NodeSelectorRequirement → Bool) (es : List NodeSelectorRequirement)
    (e : NodeSelectorRequirement)
    → meets_all meets (es ++ e ∷ []) ≡ (meets_all meets es && meets e)
meets_all-append meets [] e = ground arith
meets_all-append meets (d ∷ ds) e = ground (arith, meets_all-append meets ds e)

any_lists-append_expression :
    (meets : NodeSelectorRequirement → Bool) (e : NodeSelectorRequirement)
    (ts : List NodeSelectorTerm)
    → any_lists meets (append_expression e ts) ≡ (any_lists meets ts && meets e)
any_lists-append_expression meets e [] = refl
any_lists-append_expression meets e (t ∷ ts) =
    ground
      (arith, any_lists-append_expression meets e ts, meets_all-append meets t.match_expressions e)

any_lists-append_expressions :
    (meets : NodeSelectorRequirement → Bool) (es : List NodeSelectorRequirement)
    (ts : List NodeSelectorTerm)
    → any_lists meets (append_expressions es ts) ≡ (any_lists meets ts && meets_all meets es)
any_lists-append_expressions meets [] ts = ground arith
any_lists-append_expressions meets (e ∷ es) ts = ground (
  arith,
  any_lists-append_expressions meets es (append_expression e ts),
  any_lists-append_expression meets e ts,
)

abbrev AllRequire : List NodeSelectorTerm → Type 0
AllRequire ts = All (λ t. requires_something t ≡ true) ts

meets_any-AllRequire :
    (meets : NodeSelectorRequirement → Bool) (ts : List NodeSelectorTerm)
    → AllRequire ts
    → meets_any meets ts ≡ any_lists meets ts
meets_any-AllRequire meets [] h = refl
meets_any-AllRequire meets (t ∷ ts) h = ground (arith, meets_any-AllRequire meets ts h.1, h.0)

is_empty-append :
    (es : List NodeSelectorRequirement) (e : NodeSelectorRequirement)
    → is_empty (es ++ e ∷ []) ≡ false
is_empty-append [] e = refl
is_empty-append (d ∷ ds) e = is_empty-append_cons ds
  where
    is_empty-append_cons : (ds : List NodeSelectorRequirement) → is_empty (d ∷ ds ++ e ∷ []) ≡ false
    is_empty-append_cons [] = refl
    is_empty-append_cons (c ∷ cs) = refl

append_expression-AllRequire :
    (e : NodeSelectorRequirement) (ts : List NodeSelectorTerm) → AllRequire (append_expression e ts)
append_expression-AllRequire e [] = tt
append_expression-AllRequire e (t ∷ ts) =
    (rw (is_empty-append t.match_expressions e) refl, append_expression-AllRequire e ts)

append_expressions-AllRequire :
    (es : List NodeSelectorRequirement) (ts : List NodeSelectorTerm)
    → AllRequire ts
    → AllRequire (append_expressions es ts)
append_expressions-AllRequire [] ts h = h
append_expressions-AllRequire (e ∷ es) ts h =
    append_expressions-AllRequire es (append_expression e ts) (append_expression-AllRequire e ts)

abbrev or_none : Option (List NodeSelectorTerm) → List NodeSelectorTerm
or_none none = []
or_none (some ts) = ts

required_terms-eq : (pod : PodSpec) → required_terms pod ≡ or_none (node_selector_of pod)
unfolding required_terms
required_terms-eq pod = ground arith

any_lists-at_least_one :
    (meets : NodeSelectorRequirement → Bool) (o : Option (List NodeSelectorTerm))
    → AllRequire (or_none o)
    → o ≢ some []
    → any_lists meets (at_least_one (or_none o))
      ≡ elim o [ none ↦ true | some ts ↦ meets_any meets ts ]
any_lists-at_least_one meets none h filled = refl
any_lists-at_least_one meets (some []) h filled = absurd (filled refl)
any_lists-at_least_one meets (some (t ∷ ts)) h filled = sym (meets_any-AllRequire meets (t ∷ ts) h)

-- The terms that the code takes the pool's expressions to.
allows-terms_of :
    (meets : NodeSelectorRequirement → Bool) (pod : PodSpec)
    → AllRequire (required_terms pod)
    → node_selector_of pod ≢ some []
    → any_lists meets (terms_of pod) ≡ allows meets pod
unfolding terms_of
allows-terms_of meets pod h filled =
    ap (λ l. any_lists meets (at_least_one l)) (required_terms-eq pod)
    ∙ any_lists-at_least_one meets (node_selector_of pod)
        (subst AllRequire (required_terms-eq pod) h) filled

-- Where the pool has an expression, the pod's node selector, if it has one, is not empty, and each of
-- its terms requires something, the nodes that a pod may run on by its node affinity after
-- attachNodeAffinity are those that it could run on before and that meet all the expressions of the
-- pool.
pub allows-attach_node_affinity :
    (meets : NodeSelectorRequirement → Bool) (pod : PodSpec) (pool : PoolTopology)
    → is_empty pool.match_expressions ≡ false
    → All (λ t. requires_something t ≡ true) (required_terms pod)
    → node_selector_of pod ≢ some []
    → allows meets (attach_node_affinity pod pool)
      ≡ (allows meets pod && meets_all meets pool.match_expressions)
unfolding attach_node_affinity
allows-attach_node_affinity meets pod pool some_expression h filled =
    meets_any-AllRequire meets (append_expressions pool.match_expressions (terms_of pod))
      (requires_after pool.match_expressions some_expression)
    ∙ any_lists-append_expressions meets pool.match_expressions (terms_of pod)
    ∙ ap (λ b. b && meets_all meets pool.match_expressions) (allows-terms_of meets pod h filled)
  where
    requires_after :
        (es : List NodeSelectorRequirement)
        → is_empty es ≡ false
        → AllRequire (append_expressions es (terms_of pod))
    requires_after [] e = cc
    requires_after (e ∷ es) _ =
        append_expressions-AllRequire es (append_expression e (terms_of pod))
          (append_expression-AllRequire e (terms_of pod))
