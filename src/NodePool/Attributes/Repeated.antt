-- ===== src/NodePool/Attributes/Repeated.antt =====
-- A second visit of a node, and a node that joins a pool and leaves it again.
use yurt_app_manager.Prelude.{
  ℕ, zero, suc, ◌⊎◌, subst, Bool, true, false, Option, none, some, List, [], ◌==◌, not, String,
  GoMap, items, lookup, get, delete, value_of, lookup-insert, get-delete, ◌≡◌, ◌≢◌, refl, sym, ap,
  ◌∙◌, eq_refl, if◌then◌else◌, Result, ok, Bool-cases, Option-cases, inl, inr,
}
use yurt_app_manager.NodePool.Types.{
  Node, NodePool, NodePoolRelatedAttributes, label_current_node_pool, annotation_prev_attrs,
}
use yurt_app_manager.NodePool.Taints.{detach_taints}
use yurt_app_manager.NodePool.Taints.Unique.{IsUnique, unmentioned}
use yurt_app_manager.NodePool.Taints.Laws.{attach_taints-eq}
use yurt_app_manager.NodePool.Taints.RoundTrip.{detach_taints-attach_taints}
use yurt_app_manager.NodePool.Attributes.{
  conciliate_labels, conciliate_annotations, Json, attributes, deep_equal, attach_attributes,
  change_attributes, detach_attributes, concilate_node, remove_pool_related_attrs, remove_owned,
}
use yurt_app_manager.NodePool.Attributes.Lookups.{
  HasDistinctKeys, or_else, unless, if_changed, get-remove_owned,
}
use yurt_app_manager.NodePool.Attributes.Visits.{
  owned, recorded, concilate_node_new, concilate_node_settled, concilate_node_changed,
  concilate_node_unread,
}
use yurt_app_manager.NodePool.Attributes.Membership.{items-reslice, concilate_node_joins}

-- `owned` twice is `owned` once.
value_of-owned :
    (pool : String) (node : Node)
    → (value_of (owned pool node).labels label_current_node_pool == pool) ≡ true
value_of-owned pool node =
    elim (Bool-cases (value_of node.labels label_current_node_pool == pool)) [
      | inl same ↦ rw same same
      | inr other ↦ rw other (eq_refl pool)
    ]

owned-owned : (pool : String) (node : Node) → owned pool (owned pool node) ≡ owned pool node
owned-owned pool node = rw (value_of-owned pool node)

get-recorded :
    (text : String) (node : Node)
    → get (recorded text node).annotations annotation_prev_attrs ≡ some text
get-recorded text node =
    lookup-insert annotation_prev_attrs annotation_prev_attrs text (items node.annotations) ∙ refl

-- A visit of a node that is just as a visit by the same pool leaves it.
settled :
    (json : Json) (pool : NodePool) (node : Node) {text : String} {pre : NodePoolRelatedAttributes}
    → get node.annotations annotation_prev_attrs ≡ some text
    → json.unmarshal text ≡ some pre
    → deep_equal pre (attributes pool) ≡ true
    → concilate_node json pool (owned pool.name node) ≡ ok (owned pool.name node, false)
settled json pool node {text} {pre} present read same =
    let visited = owned pool.name node in
    concilate_node_settled json pool visited text pre present read same
    ∙ ap (λ (n : Node). ok (n, not (value_of visited.labels label_current_node_pool == pool.name)))
        (owned-owned pool.name node)
    ∙ ap (λ (b : Bool). ok (visited, not b)) (value_of-owned pool.name node)

abbrev visited_node : Node → Result (Node × Bool) → Node
visited_node d (ok (n, _)) = n
visited_node d _ = d

module _ (json : Json) (pool : NodePool) (text : String) (back : NodePoolRelatedAttributes)
    (written : json.marshal (attributes pool) ≡ some text) (read : json.unmarshal text ≡ some back)
    (same : deep_equal back (attributes pool) ≡ true) where
  -- How a visit leaves a node: with the owner label, and a record that reads back as the pool's
  -- attributes.
  abbrev Left : Node → Node → Type 0
  Left node n =
      (seen : Node) × (old : String) × (pre : NodePoolRelatedAttributes) × (n
        ≡ owned pool.name seen)
      × (get seen.annotations annotation_prev_attrs ≡ some old)
      × (json.unmarshal old ≡ some pre)
      × (deep_equal pre (attributes pool) ≡ true)
      × (seen.name ≡ node.name)
      × (seen.conditions ≡ node.conditions)

  left_by :
      (node n seen : Node) {updated updated' : Bool}
      → concilate_node json pool node ≡ ok (n, updated)
      → concilate_node json pool node ≡ ok (owned pool.name seen, updated')
      → n ≡ owned pool.name seen
  left_by node n seen result run = ap (visited_node node) (sym result ∙ run)

  concilate_node_cases :
      (node n : Node) (updated : Bool)
      → concilate_node json pool node ≡ ok (n, updated)
      → Left node n
  unfolding attach_attributes change_attributes conciliate_labels conciliate_annotations
  concilate_node_cases node n updated result =
      elim (Option-cases (get node.annotations annotation_prev_attrs)) [
        | inl absent ↦
            let seen = recorded text (attach_attributes (attributes pool) node) in
            (
              seen,
              text,
              back,
              left_by node n seen result (concilate_node_new json pool node text absent written),
              get-recorded text (attach_attributes (attributes pool) node),
              read,
              same,
              refl,
              refl,
            )
        | inr (old, present) ↦ known old present (Option-cases (json.unmarshal old))
      ]
    where
      known :
          (old : String)
          → get node.annotations annotation_prev_attrs ≡ some old
          → (json.unmarshal old ≡ none)
            ⊎ ((pre : NodePoolRelatedAttributes) × (json.unmarshal old ≡ some pre))
          → Left node n
      known old present (inl unread) =
          absurd (cc (concilate_node_unread json pool node old present unread))
      known old present (inr (pre, h)) = elim (Bool-cases (deep_equal pre (attributes pool))) [
        | inl e ↦ (
          node,
          old,
          pre,
          left_by node n node result (concilate_node_settled json pool node old pre present h e),
          present,
          h,
          e,
          refl,
          refl,
        )
        | inr e ↦
            let seen = recorded text (change_attributes pre (attributes pool) node) in
            (
              seen,
              text,
              back,
              left_by node n seen result
                  (concilate_node_changed json pool node old text pre present h e written),
              get-recorded text (change_attributes pre (attributes pool) node),
              read,
              same,
              refl,
              refl,
            )
      ]

  -- If the JSON text of the pool's attributes reads back as equal ones, a node that a visit of the
  -- reconciler has left is not written by the next visit, and stays as it is.
  pub concilate_node_twice :
      (node n : Node) (updated : Bool)
      → concilate_node json pool node ≡ ok (n, updated)
      → concilate_node json pool n ≡ ok (n, false)
  concilate_node_twice node n updated result =
      let (seen, old, pre, left, present, h, e, _, _) =
        concilate_node_cases node n updated result in
      subst (λ v. concilate_node json pool v ≡ ok (v, false)) (sym left)
        (settled json pool seen present h e)

  pub name-concilate_node :
      (node n : Node) (updated : Bool)
      → concilate_node json pool node ≡ ok (n, updated)
      → n.name ≡ node.name
  name-concilate_node node n updated result =
      let (seen, _, _, left, _, _, _, name, _) = concilate_node_cases node n updated result in
      ap (λ (v : Node). v.name) left ∙ name

  pub conditions-concilate_node :
      (node n : Node) (updated : Bool)
      → concilate_node json pool node ≡ ok (n, updated)
      → n.conditions ≡ node.conditions
  conditions-concilate_node node n updated result =
      let (seen, _, _, left, _, _, _, _, conditions) = concilate_node_cases node n updated result in
      ap (λ (v : Node). v.conditions) left ∙ conditions

-- The next `n` visits of a node by the pool all succeed, and each of them writes the node.
abbrev pub Writes : Json → NodePool → ℕ → Node → Type 0
Writes json pool zero node = Unit
Writes json pool (suc n) node =
    (left : Node) × (concilate_node json pool node ≡ ok (left, true)) × Writes json pool n left

get-owned-recorded :
    (pool text : String) (node : Node)
    → get (owned pool (recorded text node)).annotations annotation_prev_attrs ≡ some text
get-owned-recorded pool text node = get-recorded text node

module _ (json : Json) (pool : NodePool) (text : String) (back : NodePoolRelatedAttributes)
    (empty : pool.spec.labels ≡ some []) (written : json.marshal (attributes pool) ≡ some text)
    (read : json.unmarshal text ≡ some back) (left_out : back.labels ≡ none) where
  known_never_settles :
      (n : ℕ) (node : Node)
      → get node.annotations annotation_prev_attrs ≡ some text
      → Writes json pool n node
  unfolding deep_equal
  known_never_settles zero node present = tt
  known_never_settles (suc n) node present =
      let changed = change_attributes back (attributes pool) node in
      (
        owned pool.name (recorded text changed),
        concilate_node_changed json pool node text text back present read
            (rw (empty, left_out) refl) written,
        known_never_settles n (owned pool.name (recorded text changed))
            (get-owned-recorded pool.name text changed),
      )

  -- A pool whose labels are an empty map, not `nil`, where the record of its attributes reads back
  -- with `nil` labels (the JSON text leaves empty maps out): every visit of a node that joins the
  -- pool writes the node, however often the visit is repeated.
  pub concilate_node_never_settles :
      (n : ℕ) (node : Node)
      → get node.annotations annotation_prev_attrs ≡ none
      → Writes json pool n node
  concilate_node_never_settles zero node absent = tt
  concilate_node_never_settles (suc n) node absent =
      let attached = attach_attributes (attributes pool) node in
      (
        owned pool.name (recorded text attached),
        concilate_node_new json pool node text absent written,
        known_never_settles n (owned pool.name (recorded text attached))
            (get-owned-recorded pool.name text attached),
      )

if_changed-or_else : (v own : Option String) → if_changed v (or_else v own) ≡ unless v own
if_changed-or_else none own = refl
if_changed-or_else (some v) own = rw (eq_refl v) refl

-- A lookup after leaving, from the lookup after joining: `key` is the controller's own key.
get-left :
    (key name : String) (kvs : List (String × String)) (pool own joined : GoMap String) (j : String)
    → HasDistinctKeys kvs
    → lookup j kvs ≡ get pool j
    → get joined j ≡ (if key == j then some name else or_else (get pool j) (get own j))
    → get (delete key (remove_owned kvs joined)) j
      ≡ (if key == j then none else unless (get pool j) (get own j))
get-left key name kvs pool own joined j distinct back there = elim (Bool-cases (key == j)) [
  | inl e ↦ get-delete key j (remove_owned kvs joined) ∙ rw e refl
  | inr e ↦
      get-delete key j (remove_owned kvs joined)
      ∙ rw e (
          get-remove_owned kvs joined j distinct
          ∙ rw (back, there, e) (if_changed-or_else (get pool j) (get own j)))
]

remove_known :
    (json : Json) (node : Node) {text : String} {back : NodePoolRelatedAttributes}
    → get node.annotations annotation_prev_attrs ≡ some text
    → json.unmarshal text ≡ some back
    → remove_pool_related_attrs json node ≡ ok (detach_attributes back node)
unfolding remove_pool_related_attrs
remove_known json node present read = rw (present, remove_pool_related_attrs, read) refl

-- A node that holds no record joins a pool and then leaves it. If the record of the pool's attributes
-- reads back with the same labels, annotations and taints, and neither the pool nor the node has two
-- taints of one key and effect, the node keeps nothing of the pool, and keeps each of
-- its own labels and annotations whose key the pool does not have, but for the controller's own
-- keys, and the taints that the pool does not mention, in their order.
pub remove_pool_related_attrs-concilate_node :
    (json : Json) (pool : NodePool) (node : Node) (text : String) (back : NodePoolRelatedAttributes)
    → pool.name ≢ ""
    → get node.annotations annotation_prev_attrs ≡ none
    → json.marshal (attributes pool) ≡ some text
    → json.unmarshal text ≡ some back
    → ((j : String) → get back.labels j ≡ get pool.spec.labels j)
    → ((j : String) → get back.annotations j ≡ get pool.spec.annotations j)
    → items back.taints ≡ items pool.spec.taints
    → HasDistinctKeys (items back.labels)
    → HasDistinctKeys (items back.annotations)
    → IsUnique (items pool.spec.taints)
    → IsUnique (items node.taints)
    → (joined left : Node) × (concilate_node json pool node ≡ ok (joined, true))
      × (remove_pool_related_attrs json joined ≡ ok left)
      × ((j : String)
          → get left.labels j ≡ (
              if label_current_node_pool == j
              then none
              else unless (get pool.spec.labels j) (get node.labels j)))
      × ((j : String)
          → get left.annotations j ≡ (
              if annotation_prev_attrs == j
              then none
              else unless (get pool.spec.annotations j) (get node.annotations j)))
      × (items left.taints ≡ unmentioned (items pool.spec.taints) (items node.taints))
unfolding detach_attributes
remove_pool_related_attrs-concilate_node json pool node text back named absent written read labels
      annotations taints keys keys' unique own =
    let (joined, run, joined_labels, joined_annotations, joined_taints) =
      concilate_node_joins json pool node named text absent written unique own in
    (
      joined,
      detach_attributes back joined,
      run,
      remove_known json joined (joined_annotations annotation_prev_attrs) read,
      (λ j.
          get-left label_current_node_pool pool.name (items back.labels) pool.spec.labels
            node.labels joined.labels j keys (labels j) (joined_labels j)),
      (λ j.
          get-left annotation_prev_attrs text (items back.annotations) pool.spec.annotations
            node.annotations joined.annotations j keys' (annotations j) (joined_annotations j)),
      items-reslice joined.taints (detach_taints (items back.taints) (items joined.taints))
          ∙ (rw
              (
                taints,
                joined_taints
                    ∙ sym
                        (attach_taints-eq (items pool.spec.taints) (items node.taints) unique own),
              )
              (detach_taints-attach_taints (items pool.spec.taints) (items node.taints) unique
                own)),
    )
