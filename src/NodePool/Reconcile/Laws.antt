-- ===== src/NodePool/Reconcile/Laws.antt =====
-- The writes of a reconciliation that succeeds.
use mathlib.Core.List.{append-nil, append_assoc}
use yurt_app_manager.Prelude.{
  ℕ, Bool, true, false, Option, none, some, List, [], ◌∷◌, ◌++◌, String, Error, Result, ok, err,
  panic, if◌then◌else◌, ◌≡◌, refl, sym, ap, ◌∙◌, subst, arith, All, Bool-cases, inl, inr,
}
use yurt_app_manager.Prelude
use yurt_app_manager.NodePool.Types.{Node, NodeCondition, NodePool}
use yurt_app_manager.NodePool.Attributes.{Json, remove_pool_related_attrs, concilate_node}
use yurt_app_manager.NodePool.Status.{get_removed_nodes}
use yurt_app_manager.Writes.{
  Server, Writes, send-eq-ok, send-then-eq-ok, ◌>>◌, log-eq, >>-eq-ok, and_then-eq-ok,
}
use yurt_app_manager.NodePool.Reconcile.{
  Write, write_node, write_status, remove_nodes, write_if, visit_nodes, next_status,
  reconcile_found, reconcile,
}

module _ (json : Json) where
  -- The nodes that leave, stripped of what the pool gave them.
  abbrev pub removal_plan : List Node → Result (List Write)
  removal_plan [] = ok []
  removal_plan (n ∷ ns) =
      Prelude.◌>>=◌ (remove_pool_related_attrs json n)
        (λ s. Prelude.◌>>=◌ (removal_plan ns) (λ ws. ok (write_node s ∷ ws)))

  -- The nodes of the pool that a visit has changed.
  abbrev pub visit_plan : NodePool → List Node → Result (List Write)
  visit_plan pool [] = ok []
  visit_plan pool (n ∷ ns) = Prelude.◌>>=◌ (concilate_node json pool n) (λ v.
      Prelude.◌>>=◌ (visit_plan pool ns)
        (λ ws. ok ((if v.1 then write_node v.0 ∷ [] else []) ++ ws)))

  -- The nodes of the pool as the visits leave them.
  abbrev pub visited_nodes : NodePool → List Node → Result (List Node)
  visited_nodes pool [] = ok []
  visited_nodes pool (n ∷ ns) =
      Prelude.◌>>=◌ (concilate_node json pool n)
        (λ v. Prelude.◌>>=◌ (visited_nodes pool ns) (λ vs. ok (v.0 ∷ vs)))

module _ (json : Json) (answer : Server Write) where
  remove_nodes_writes :
      (ns : List Node) (log end : List Write)
      → remove_nodes json answer ns log ≡ (ok tt, end)
      → (ws : List Write) × (removal_plan json ns ≡ ok ws) × (end ≡ log ++ ws)
  unfolding remove_nodes
  remove_nodes_writes [] log end h = ([], refl, sym (log-eq h) ∙ sym (append-nil log))
  remove_nodes_writes (n ∷ ns) log end h =
      let (s, stripped, sent) = and_then-eq-ok (remove_pool_related_attrs json n) _ log h in
      let (ws, plan, e) =
        remove_nodes_writes ns (log ++ write_node s ∷ []) end
          (send-then-eq-ok answer (write_node s) (remove_nodes json answer ns) log sent) in
      (write_node s ∷ ws, rw (stripped, plan) refl, e ∙ append_assoc log (write_node s ∷ []) ws)

  write_if-eq-ok :
      (updated : Bool) (w : Write) (log : List Write) {end : List Write}
      → write_if json answer updated w log ≡ (ok tt, end)
      → end ≡ log ++ (if updated then w ∷ [] else [])
  unfolding write_if
  write_if-eq-ok true w log h = send-eq-ok answer w log h
  write_if-eq-ok false w log h = sym (log-eq h) ∙ sym (append-nil log)

  write_if-then-eq-ok :
      (updated : Bool) (w : Write) (k : Writes Write (Unit {0})) (log : List Write)
      {end : List Write}
      → (write_if json answer updated w >> k) log ≡ (ok tt, end)
      → k (log ++ (if updated then w ∷ [] else [])) ≡ (ok tt, end)
  unfolding write_if
  write_if-then-eq-ok true w k log h = send-then-eq-ok answer w k log h
  write_if-then-eq-ok false w k log h = rw (append-nil log) h

  visit_nodes_writes :
      (pool : NodePool) (ns : List Node) (log end : List Write)
      → visit_nodes json answer pool ns log ≡ (ok tt, end)
      → (ws : List Write) × (visit_plan json pool ns ≡ ok ws) × (end ≡ log ++ ws)
  unfolding visit_nodes
  visit_nodes_writes pool [] log end h = ([], refl, sym (log-eq h) ∙ sym (append-nil log))
  visit_nodes_writes pool (n ∷ ns) log end h =
      let (v, visited, sent) = and_then-eq-ok (concilate_node json pool n) _ log h in
      let ws' = if v.1 then write_node v.0 ∷ [] else [] in
      let (ws, plan, e) =
        visit_nodes_writes pool ns (log ++ ws') end
          (write_if-then-eq-ok v.1 (write_node v.0) (visit_nodes json answer pool ns) log sent) in
      (ws' ++ ws, rw (visited, plan) refl, e ∙ append_assoc log ws' ws)

module _ (json : Json) (answer : Server Write)
    (get_node_condition : List NodeCondition → String → Option NodeCondition)
    (sort : List String → List String) where
  abbrev pub status_plan : NodePool → List Node → List Write
  status_plan pool desired =
      let (status, needed) = next_status get_node_condition sort pool desired in
      if needed then write_status pool.name status ∷ [] else []

  status_writes :
      (pool : NodePool) (desired : List Node) (log end : List Write)
      → write_if json answer
          (next_status get_node_condition sort pool desired).1
          (write_status pool.name (next_status get_node_condition sort pool desired).0)
          log
        ≡ (ok tt, end)
      → end ≡ log ++ status_plan pool desired
  status_writes pool desired log end h =
      write_if-eq-ok json answer (next_status get_node_condition sort pool desired).1
        (write_status pool.name (next_status get_node_condition sort pool desired).0) log h

  -- A reconciliation that reads its pool and its nodes and that succeeds has sent: each node that leaves the pool, stripped; then each
  -- node of the pool that its visit has changed; then the status, if it is to be written.
  pub reconcile_writes :
      (pool : NodePool) (desired current : List Node) (log : List Write)
      → reconcile json answer get_node_condition sort (ok pool) (ok desired) (ok current) []
        ≡ (ok tt, log)
      → (removals visits : List Write) × (removal_plan json (get_removed_nodes current desired)
          ≡ ok removals)
        × (visit_plan json pool desired ≡ ok visits)
        × (log ≡ (removals ++ visits) ++ status_plan pool desired)
  unfolding reconcile reconcile_found
  reconcile_writes pool desired current log h =
      let (mid, removed, rest) =
        >>-eq-ok (remove_nodes json answer (get_removed_nodes current desired)) _ [] h in
      let (mid', visited, last) = >>-eq-ok (visit_nodes json answer pool desired) _ mid rest in
      let (ws, plan, e) =
        remove_nodes_writes json answer (get_removed_nodes current desired) [] mid removed in
      let (vs, plan', e') = visit_nodes_writes json answer pool desired mid mid' visited in
      (
        ws,
        vs,
        plan,
        plan',
        status_writes pool desired mid' log last
            ∙ ap (λ l. l ++ status_plan pool desired) (e' ∙ ap (λ l. l ++ vs) e),
      )
