-- ===== src/NodePool/Status/Laws.antt =====
-- The nodes that leave a pool, the counts of its status, and when the status is written.
use yurt_app_manager.Prelude.{
  ℕ, ◌+◌, ◌<◌, ◌≤◌, ◌^◌, Bool, true, false, Option, none, some, List, [], ◌∷◌, ◌==◌, ◌&&◌, not,
  String, GoSlice, eqb, add32, length, if◌then◌else◌, ◌≡◌, refl, sym, ap, arith, eq_iff, eq_refl,
  has, Bool-cases, inl, inr,
}
use yurt_app_manager.NodePool.Types.{Node, NodeCondition, NodePoolStatus}
use yurt_app_manager.NodePool.Status.{
  found_by_name, get_removed_nodes, is_node_ready, count_nodes, node_names, equal_names,
  equal_string_slices, sort_slice, conciliate_node_pool_status,
}

str_eq_comm : (a b : String) → (a == b) ≡ (b == a)
str_eq_comm a b = ground (arith, eq_iff a b, eq_iff b a)

found_by_name-eq-has :
    (name : String) (ds : List Node) → found_by_name name ds ≡ has name (node_names ds)
unfolding found_by_name
found_by_name-eq-has name [] = refl
found_by_name-eq-has name (d ∷ ds) =
    ground (arith, str_eq_comm name d.name, found_by_name-eq-has name ds)

-- A name is among those of the removed nodes exactly if it is among those of the current nodes and
-- not among those of the desired ones.
pub has-get_removed_nodes :
    (name : String) (current desired : List Node)
    → has name (node_names (get_removed_nodes current desired))
      ≡ (has name (node_names current) && not (has name (node_names desired)))
unfolding get_removed_nodes
has-get_removed_nodes name [] desired = refl
has-get_removed_nodes name (m ∷ ms) desired = elim (Bool-cases (m.name == name)) [
  | inl e ↦ ground (
    arith,
    found_by_name-eq-has m.name desired,
    has-get_removed_nodes name ms desired,
    ap (λ n. has n (node_names desired)) ((eq_iff m.name name).0 e),
  )
  | inr e ↦ ground (arith, has-get_removed_nodes name ms desired)
]

abbrev pub number : (Node → Bool) → List Node → ℕ
number p [] = 0
number p (n ∷ ns) = (if p n then 1 else 0) + number p ns

number-le : (p : Node → Bool) (ns : List Node) → number p ns ≤ length ns
number-le p [] = omega arith
number-le p (n ∷ ns) = ground (arith, number-le p ns)

module _ (get_node_condition : List NodeCondition → String → Option NodeCondition) where
  -- As long as the numbers fit an `int32`, the loop adds the number of ready nodes to the first
  -- counter and the number of the others to the second.
  pub count_nodes_exact :
      (nodes : List Node) (ready unready : ℕ)
      → ready + unready + length nodes < 2 ^ 31
      → ((count_nodes get_node_condition ready unready nodes).0
          ≡ ready + number (is_node_ready get_node_condition) nodes)
        × ((count_nodes get_node_condition ready unready nodes).1
            ≡ unready + number (λ n. not (is_node_ready get_node_condition n)) nodes)
  unfolding count_nodes
  count_nodes_exact [] ready unready h = (omega arith, omega arith)
  count_nodes_exact (n ∷ ns) ready unready h =
      elim (Bool-cases (is_node_ready get_node_condition n)) [
        | inl e ↦
            rw (e, count_nodes)
              (let below : ready + 1 < 2 ^ 32 = omega arith in
                let r = count_nodes_exact ns (add32 ready 1) unready (omega arith) in
                (omega (arith, r.0), omega (arith, r.1)))
        | inr e ↦
            rw (e, count_nodes)
              (let r = count_nodes_exact ns ready (add32 unready 1) (omega arith) in
                (omega (arith, r.0), omega (arith, r.1)))
      ]

module _ (get_node_condition : List NodeCondition → String → Option NodeCondition) where
  is_node_ready_conditions :
      (n m : Node)
      → n.conditions ≡ m.conditions
      → is_node_ready get_node_condition n ≡ is_node_ready get_node_condition m
  unfolding is_node_ready
  is_node_ready_conditions n m h = rw (h, is_node_ready) refl

  -- The counters read the conditions only.
  pub count_nodes_conditions :
      (n m : Node) (ns ms : List Node) (a b : ℕ)
      → n.conditions ≡ m.conditions
      → ((a b : ℕ) → count_nodes get_node_condition a b ns ≡ count_nodes get_node_condition a b ms)
      → count_nodes get_node_condition a b (n ∷ ns) ≡ count_nodes get_node_condition a b (m ∷ ms)
  unfolding count_nodes
  count_nodes_conditions n m ns ms a b h k =
      rw (is_node_ready_conditions n m h, count_nodes) (k _ _)

equal_names→eq : (a b : List String) → equal_names a b ≡ true → a ≡ b
equal_names→eq [] [] h = refl
equal_names→eq [] (y ∷ b) h = cc
equal_names→eq (x ∷ a) [] h = cc
equal_names→eq (x ∷ a) (y ∷ b) h = ground (arith, eq_iff x y, equal_names→eq a b)

equal_names_refl : (a : List String) → equal_names a a ≡ true
equal_names_refl [] = refl
equal_names_refl (x ∷ a) = ground (arith, eq_refl x, equal_names_refl a)

equal_string_slices→eq : (a b : GoSlice String) → equal_string_slices a b ≡ true → a ≡ b
equal_string_slices→eq none none h = refl
equal_string_slices→eq none (some b) h = cc
equal_string_slices→eq (some a) none h = cc
equal_string_slices→eq (some a) (some b) h = ap (λ l. some l) (equal_names→eq a b h)

equal_string_slices_refl : (a : GoSlice String) → equal_string_slices a a ≡ true
equal_string_slices_refl none = refl
equal_string_slices_refl (some a) = equal_names_refl a

chosen-eq : (a b : GoSlice String) → (if not (equal_string_slices a b) then a else b) ≡ a
chosen-eq a b = elim (Bool-cases (equal_string_slices a b)) [
  | inl e ↦ rw e (sym (equal_string_slices→eq a b e))
  | inr e ↦ rw e refl
]

module _ (sort : List String → List String) (ready unready : ℕ) (nodes : GoSlice String)
    (status : NodePoolStatus) where
  -- On every branch the status to write has the two counts and the sorted names.
  pub conciliate_node_pool_status_current :
      (conciliate_node_pool_status sort ready unready nodes status).0
      ≡ record { ready_node_num = ready; unready_node_num = unready; nodes = sort_slice sort nodes }
  unfolding conciliate_node_pool_status
  conciliate_node_pool_status_current =
      ground (arith, chosen-eq (sort_slice sort nodes) (sort_slice sort status.nodes))

sort_slice_idem :
    (sort : List String → List String)
    → ((l : List String) → sort (sort l) ≡ sort l)
    → (s : GoSlice String) → sort_slice sort (sort_slice sort s) ≡ sort_slice sort s
sort_slice_idem sort idem none = refl
sort_slice_idem sort idem (some l) = ap (λ x. some x) (idem l)

eqb_refl : (n : ℕ) → eqb n n ≡ true
eqb_refl n = ground arith

current_status_kept :
    (sort : List String → List String)
    → ((l : List String) → sort (sort l) ≡ sort l)
    → (ready unready : ℕ) (nodes : GoSlice String)
    → conciliate_node_pool_status sort ready unready nodes (record {
      ready_node_num = ready;
      unready_node_num = unready;
      nodes = sort_slice sort nodes;
    })
      ≡ (
        record {
          ready_node_num = ready;
          unready_node_num = unready;
          nodes = sort_slice sort nodes;
        },
        false,
      )
unfolding conciliate_node_pool_status
current_status_kept sort idem ready unready nodes =
    rw
      (
        sort_slice_idem sort idem nodes,
        equal_string_slices_refl (sort_slice sort nodes),
        eqb_refl ready,
        eqb_refl unready,
      )
      refl

-- Once the status has been brought up to date, the same counts and names do not write it again, if
-- sorting a sorted slice changes nothing.
pub conciliate_node_pool_status_twice :
    (sort : List String → List String)
    → ((l : List String) → sort (sort l) ≡ sort l)
    → (ready unready : ℕ) (nodes : GoSlice String) (status : NodePoolStatus)
    → conciliate_node_pool_status sort ready unready nodes
        (conciliate_node_pool_status sort ready unready nodes status).0
      ≡ ((conciliate_node_pool_status sort ready unready nodes status).0, false)
conciliate_node_pool_status_twice sort idem ready unready nodes status =
    rw (conciliate_node_pool_status_current sort ready unready nodes status)
      (current_status_kept sort idem ready unready nodes)
