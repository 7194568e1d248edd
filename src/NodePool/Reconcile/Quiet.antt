-- ===== src/NodePool/Reconcile/Quiet.antt =====
-- On the cluster that a reconciliation leaves, the next one has nothing to write.
use yurt_app_manager.Prelude.{
  ℕ, Bool, true, false, Option, some, List, [], ◌∷◌, String, Result, ok, err, panic, ◌≡◌, refl, sym,
  ap, ◌∙◌, ◌>>=◌,
}
use yurt_app_manager.NodePool.Types.{
  Node, NodeCondition, NodePool, NodePoolStatus, NodePoolRelatedAttributes,
}
use yurt_app_manager.NodePool.Attributes.{Json, attributes, deep_equal, concilate_node}
use yurt_app_manager.NodePool.Attributes.Visits.{concilate_node-status}
use yurt_app_manager.NodePool.Attributes.Repeated.{
  concilate_node_twice, name-concilate_node, conditions-concilate_node,
}
use yurt_app_manager.NodePool.Status.{get_removed_nodes, count_nodes, node_names, appended}
use yurt_app_manager.NodePool.Status.Laws.{
  conciliate_node_pool_status_twice, count_nodes_conditions,
}
use yurt_app_manager.Writes.{Server}
use yurt_app_manager.NodePool.Reconcile.{Write, write_if, visit_nodes, next_status, reconcile}
use yurt_app_manager.NodePool.Reconcile.Laws.{visited_nodes}

-- What a do block needs to succeed.
bind_succeeds :
    {A B : Type 0} {last : B} (first : Result A) (next : A → Result B)
    → ok last ≡ (first >>= next)
    → (mid : A) × (next mid ≡ ok last) × (first ≡ ok mid)
bind_succeeds panic next h = cc
bind_succeeds (err e) next h = cc
bind_succeeds (ok mid) next h = (mid, sym h, refl)

ok-injective : {A : Type 0} (d : A) {a b : A} → ok a ≡ ok b → a ≡ b
ok-injective {A} d h = ap value h
  where
    value : Result A → A
    value (ok a) = a
    value _ = d

module _ (json : Json) (pool : NodePool) (text : String) (back : NodePoolRelatedAttributes)
    (written : json.marshal (attributes pool) ≡ some text) (read : json.unmarshal text ≡ some back)
    (same : deep_equal back (attributes pool) ≡ true) where
  -- The first node of a list, visited.
  visited-cons :
      (n : Node) (ns left : List Node)
      → visited_nodes json pool (n ∷ ns) ≡ ok left
      → (v : Node × Bool) × (vs : List Node) × (concilate_node json pool n ≡ ok v)
        × (visited_nodes json pool ns ≡ ok vs)
        × (left ≡ v.0 ∷ vs)
  visited-cons n ns left h =
      let (v, h', one) = bind_succeeds (concilate_node json pool n) _ (sym h) in
      let (vs, e, rest) = bind_succeeds (visited_nodes json pool ns) _ (sym h') in
      (v, vs, one, rest, sym (ok-injective [] e))

  module _ (answer : Server Write) (status : NodePoolStatus) where
    visit_nodes_quiet :
        (ns left : List Node) (log : List Write)
        → visited_nodes json pool ns ≡ ok left
        → visit_nodes json answer (record pool { status = status }) left log ≡ (ok tt, log)
    unfolding visit_nodes write_if
    visit_nodes_quiet [] left log h = rw (sym (ok-injective [] h)) refl
    visit_nodes_quiet (n ∷ ns) left log h =
        let (v, vs, one, rest, e) = visited-cons n ns left h in
        let again = concilate_node_twice json pool text back written read same n v.0 v.1 one in
        rw (e, concilate_node-status json pool status v.0, again) (visit_nodes_quiet ns vs log rest)

  names_kept :
      (ns left : List Node) → visited_nodes json pool ns ≡ ok left → node_names left ≡ node_names ns
  names_kept [] left h = ap node_names (sym (ok-injective [] h))
  names_kept (n ∷ ns) left h =
      let (v, vs, one, rest, e) = visited-cons n ns left h in
      ap node_names e
      ∙ cc (
        name-concilate_node json pool text back written read same n v.0 v.1 one,
        names_kept ns vs rest,
      )

  module _ (get_node_condition : List NodeCondition → String → Option NodeCondition) where
    counts_kept :
        (ns left : List Node) (a b : ℕ)
        → visited_nodes json pool ns ≡ ok left
        → count_nodes get_node_condition a b left ≡ count_nodes get_node_condition a b ns
    counts_kept [] left a b h = ap (count_nodes get_node_condition a b) (sym (ok-injective [] h))
    counts_kept (n ∷ ns) left a b h =
        let (v, vs, one, rest, e) = visited-cons n ns left h in
        ap (count_nodes get_node_condition a b) e
        ∙ count_nodes_conditions get_node_condition v.0 n vs ns a b
            (conditions-concilate_node json pool text back written read same n v.0 v.1 one)
            (λ a' b'. counts_kept ns vs a' b' rest)

    module _ (sort : List String → List String)
        (idem : (l : List String) → sort (sort l) ≡ sort l) where
      next_status_quiet :
          (ns left : List Node)
          → visited_nodes json pool ns ≡ ok left
          → next_status get_node_condition sort
              (record pool { status = (next_status get_node_condition sort pool ns).0 })
              left
            ≡ ((next_status get_node_condition sort pool ns).0, false)
      unfolding next_status
      next_status_quiet ns left h =
          rw (counts_kept ns left 0 0 h, names_kept ns left h)
            (conciliate_node_pool_status_twice sort idem (count_nodes get_node_condition 0 0 ns).0
              (count_nodes get_node_condition 0 0 ns).1 (appended (node_names ns)) pool.status)

-- After the visits of a reconciliation have left `left` of the nodes of a pool and its status has
-- been brought up to date, a reconciliation that finds no node to remove sends no write at all and
-- succeeds, whatever the server would answer. The JSON text of the pool's attributes has to read
-- back as equal ones, and sorting a sorted slice has to change nothing.
pub reconcile_quiet :
    (json : Json) (pool : NodePool) (text : String) (back : NodePoolRelatedAttributes)
    (get_node_condition : List NodeCondition → String → Option NodeCondition)
    (sort : List String → List String) (answer : Server Write) (desired left current : List Node)
    → json.marshal (attributes pool) ≡ some text
    → json.unmarshal text ≡ some back
    → deep_equal back (attributes pool) ≡ true
    → ((l : List String) → sort (sort l) ≡ sort l)
    → visited_nodes json pool desired ≡ ok left
    → get_removed_nodes current left ≡ []
    → reconcile json answer get_node_condition sort
        (ok (record pool { status = (next_status get_node_condition sort pool desired).0 }))
        (ok left)
        (ok current)
        []
      ≡ (ok tt, [])
unfolding reconcile write_if
reconcile_quiet json pool text back get_node_condition sort answer desired left current written read
      same idem visited none_left =
    rw
      (
        none_left,
        visit_nodes_quiet json pool text back written read same answer
            (next_status get_node_condition sort pool desired).0 desired left [] visited,
        next_status_quiet json pool text back written read same get_node_condition sort idem desired
            left visited,
      )
      refl
