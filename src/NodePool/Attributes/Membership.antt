-- ===== src/NodePool/Attributes/Membership.antt =====
-- What joining, changing and leaving a pool does to a node, as theorems about concilateNode and
-- removePoolRelatedAttrs of pkg/yurtappmanager/controller/nodepool/nodepool_controller.go.
use yurt_app_manager.Prelude.{
  true, false, Option, none, some, List, [], ◌∷◌, ◌++◌, ◌==◌, String, GoMap, items, get, value_of,
  lookup-insert, ◌≡◌, ◌≢◌, refl, sym, ap, ◌∙◌, eq_iff, if◌then◌else◌, ok, Bool-cases, Option-cases,
  inl, inr,
}
use yurt_app_manager.NodePool.Types.{
  Taint, Node, NodePool, NodePoolRelatedAttributes, label_current_node_pool, annotation_prev_attrs,
}
use yurt_app_manager.NodePool.Taints.{attach_taints, conciliate_taints}
use yurt_app_manager.NodePool.Taints.Unique.{IsUnique, unmentioned}
use yurt_app_manager.NodePool.Taints.Laws.{attach_taints-eq, conciliate_taints-eq}
use yurt_app_manager.NodePool.Attributes.{
  Json, attributes, deep_equal, attach_attributes, change_attributes, concilate_node, reslice,
  conciliate_labels, conciliate_annotations,
}
use yurt_app_manager.NodePool.Attributes.Lookups.{
  or_else, unless, get-merge_map, get-merge_map-drop_gone,
}
use yurt_app_manager.NodePool.Attributes.Visits.{
  owned, recorded, concilate_node_new, concilate_node_changed,
}

pub items-reslice : (old : Option (List Taint)) (ts : List Taint) → items (reslice old ts) ≡ ts
items-reslice none [] = refl
items-reslice none (t ∷ ts) = refl
items-reslice (some _) ts = refl

pub value_found :
    (m : GoMap String) (k v : String) → v ≢ "" → (value_of m k == v) ≡ true → get m k ≡ some v
value_found m k v named h = elim (Option-cases (get m k)) [
  | inl e ↦ absurd (named (sym ((eq_iff "" v).0 (rw (e, value_of) at h))))
  | inr (w, e) ↦ e ∙ ap (λ x. some x) ((eq_iff w v).0 (rw (e, value_of) at h))
]

get_known :
    (m : GoMap String) (k j : String) {v : String}
    → get m k ≡ some v
    → get m j ≡ (if k == j then some v else get m j)
get_known m k j h = elim (Bool-cases (k == j)) [
  | inl e ↦ rw e (ap (get m) (sym ((eq_iff k j).0 e)) ∙ h)
  | inr e ↦ rw e refl
]

-- A lookup of a label of a node that has the owner label of its pool.
pub get-owned :
    (pool : String) (node : Node) (j : String)
    → pool ≢ ""
    → get (owned pool node).labels j
      ≡ (if label_current_node_pool == j then some pool else get node.labels j)
get-owned pool node j named =
    elim (Bool-cases (value_of node.labels label_current_node_pool == pool)) [
      | inl same ↦ rw same (
          get_known node.labels label_current_node_pool j
            (value_found node.labels label_current_node_pool pool named same))
      | inr other ↦ rw other (lookup-insert label_current_node_pool j pool (items node.labels))
    ]

module _ (json : Json) (pool : NodePool) (node : Node) (named : pool.name ≢ "") where
  -- A node that holds no record of a pool, where no two taints of the pool have one key and effect
  -- and no two of the node do, where the pool has a name and its attributes can be written as JSON,
  -- is written, and has: the pool's name as its owner label; the pool's labels and annotations and
  -- else its own; the record of the pool's attributes; its own taints that the pool does not mention
  -- and then the pool's.
  pub concilate_node_joins :
      (text : String)
      → get node.annotations annotation_prev_attrs ≡ none
      → json.marshal (attributes pool) ≡ some text
      → IsUnique (items pool.spec.taints)
      → IsUnique (items node.taints)
      → (joined : Node) × (concilate_node json pool node ≡ ok (joined, true))
        × ((j : String)
            → get joined.labels j ≡ (
                if label_current_node_pool == j
                then some pool.name
                else or_else (get pool.spec.labels j) (get node.labels j)))
        × ((j : String)
            → get joined.annotations j ≡ (
                if annotation_prev_attrs == j
                then some text
                else or_else (get pool.spec.annotations j) (get node.annotations j)))
        × (items joined.taints
            ≡ unmentioned (items pool.spec.taints) (items node.taints) ++ items pool.spec.taints)
  unfolding attach_attributes
  concilate_node_joins text absent h unique own =
      let attached = attach_attributes (attributes pool) node in
      (
        owned pool.name (recorded text attached),
        concilate_node_new json pool node text absent h,
        (λ j. get-owned pool.name (recorded text attached) j named ∙ simp get-merge_map),
        (λ j.
            lookup-insert annotation_prev_attrs j text (items attached.annotations)
            ∙ simp get-merge_map),
        items-reslice node.taints (attach_taints (items pool.spec.taints) (items node.taints))
            ∙ attach_taints-eq (items pool.spec.taints) (items node.taints) unique own,
      )

  -- If the pool, which has a name and attributes that can be written as JSON, has changed since the
  -- visit that the node records, and no two taints of the node have one key and effect, the node is
  -- written: a label or
  -- annotation of the changed pool has its value, one that only the old pool had is gone, the
  -- others are the node's own; the taints that the old pool mentions are gone and those of the
  -- changed pool follow the others.
  pub concilate_node_follows_change :
      (text text' : String) (pre : NodePoolRelatedAttributes)
      → get node.annotations annotation_prev_attrs ≡ some text
      → json.unmarshal text ≡ some pre
      → deep_equal pre (attributes pool) ≡ false
      → json.marshal (attributes pool) ≡ some text'
      → IsUnique (items node.taints)
      → (changed : Node) × (concilate_node json pool node ≡ ok (changed, true))
        × ((j : String)
            → get changed.labels j ≡ (
                if label_current_node_pool == j
                then some pool.name
                else or_else
                    (get pool.spec.labels j)
                    (unless (get pre.labels j) (get node.labels j))))
        × ((j : String)
            → get changed.annotations j ≡ (
                if annotation_prev_attrs == j
                then some text'
                else or_else
                    (get pool.spec.annotations j)
                    (unless (get pre.annotations j) (get node.annotations j))))
        × (items changed.taints
            ≡ unmentioned (items pre.taints) (items node.taints) ++ items pool.spec.taints)
  unfolding change_attributes conciliate_labels conciliate_annotations
  concilate_node_follows_change text text' pre present back other h own =
      let changed = change_attributes pre (attributes pool) node in
      (
        owned pool.name (recorded text' changed),
        concilate_node_changed json pool node text text' pre present back other h,
        (λ j. get-owned pool.name (recorded text' changed) j named ∙ simp get-merge_map-drop_gone),
        (λ j.
            lookup-insert annotation_prev_attrs j text' (items changed.annotations)
            ∙ simp get-merge_map-drop_gone),
        items-reslice node.taints
              (conciliate_taints (items pre.taints) (items pool.spec.taints) (items node.taints))
            ∙ conciliate_taints-eq (items pre.taints) (items pool.spec.taints) (items node.taints)
                own,
      )
