-- ===== src/NodePool/Attributes/Visits.antt =====
-- What a visit of the reconciler does to a node.
use yurt_app_manager.Prelude.{
  Bool, true, false, none, some, [], ◌∷◌, ◌==◌, ◌||◌, not, String, GoMap, items, insert, get, put,
  value_of, ◌≡◌, refl, arith, if◌then◌else◌, Error, ok, err, ◌>>=◌, Bool-cases, inl, inr, is_empty,
}
use yurt_app_manager.NodePool.Types.{
  Node, NodePool, NodePoolStatus, NodePoolRelatedAttributes, label_current_node_pool,
  annotation_prev_attrs,
}
use yurt_app_manager.NodePool.Attributes.{
  Json, or_error, attributes, deep_equal, cache_prev_pool_attrs, attach_attributes,
  change_attributes, own_label, visit_known, visit_new, concilate_node,
}

-- The node with the owner label of its pool.
abbrev pub owned : String → Node → Node
owned pool node = record node {
  labels =
      if value_of node.labels label_current_node_pool == pool
      then node.labels
      else some (insert label_current_node_pool pool (items node.labels));
}

put_made :
    (k v : String) (m : GoMap String)
    → put k v (if is_empty (items m) then some [] else m) ≡ ok (some (insert k v (items m)))
put_made k v none = refl
put_made k v (some []) = refl
put_made k v (some (x ∷ m)) = refl

own_label-eq :
    (pool : String) (node : Node) (updated : Bool)
    → own_label pool (node, updated)
      ≡ ok (owned pool node, updated || not (value_of node.labels label_current_node_pool == pool))
unfolding own_label
own_label-eq pool node updated =
    elim (Bool-cases (value_of node.labels label_current_node_pool == pool)) [
      | inl same ↦ rw same (ground arith)
      | inr other ↦ rw (other, put_made label_current_node_pool pool node.labels) (ground arith)
    ]

-- The node with the record of the attributes that it was given.
abbrev pub recorded : String → Node → Node
recorded text node = record node {
  annotations = some (insert annotation_prev_attrs text (items node.annotations));
}

cache-eq :
    (json : Json) (npra : NodePoolRelatedAttributes) (node : Node)
    → cache_prev_pool_attrs json npra node
      ≡ (do text ← or_error (json.marshal npra); ok (recorded text node))
unfolding cache_prev_pool_attrs
cache-eq json npra node = refl

-- A visit does not read the status of the pool.
pub concilate_node-status :
    (json : Json) (pool : NodePool) (status : NodePoolStatus) (node : Node)
    → concilate_node json (record pool { status = status }) node ≡ concilate_node json pool node
unfolding concilate_node
concilate_node-status json pool status node = refl

module _ (json : Json) (pool : NodePool) (node : Node) where
  -- The first visit.
  pub concilate_node_new :
      (text : String)
      → get node.annotations annotation_prev_attrs ≡ none
      → json.marshal (attributes pool) ≡ some text
      → concilate_node json pool node
        ≡ ok (owned pool.name (recorded text (attach_attributes (attributes pool) node)), true)
  unfolding concilate_node visit_new
  concilate_node_new text absent h =
      rw (absent, cache-eq json (attributes pool) (attach_attributes (attributes pool) node), h)
        (own_label-eq pool.name (recorded text (attach_attributes (attributes pool) node)) true)

  -- A later visit, the pool being as it was.
  pub concilate_node_settled :
      (text : String) (pre : NodePoolRelatedAttributes)
      → get node.annotations annotation_prev_attrs ≡ some text
      → json.unmarshal text ≡ some pre
      → deep_equal pre (attributes pool) ≡ true
      → concilate_node json pool node
        ≡ ok (owned pool.name node, not (value_of node.labels label_current_node_pool == pool.name))
  unfolding concilate_node visit_known
  concilate_node_settled text pre present h same =
      rw (present, h, same) (own_label-eq pool.name node false)

  -- A later visit, the pool having changed.
  pub concilate_node_changed :
      (text text' : String) (pre : NodePoolRelatedAttributes)
      → get node.annotations annotation_prev_attrs ≡ some text
      → json.unmarshal text ≡ some pre
      → deep_equal pre (attributes pool) ≡ false
      → json.marshal (attributes pool) ≡ some text'
      → concilate_node json pool node
        ≡ ok (owned pool.name (recorded text' (change_attributes pre (attributes pool) node)), true)
  unfolding concilate_node visit_known
  concilate_node_changed text text' pre present h other m =
      rw
        (
          present,
          h,
          other,
          cache-eq json (attributes pool) (change_attributes pre (attributes pool) node),
          m,
        )
        (own_label-eq pool.name (recorded text' (change_attributes pre (attributes pool) node))
          true)

  -- A record that cannot be read stops the visit.
  pub concilate_node_unread :
      (text : String)
      → get node.annotations annotation_prev_attrs ≡ some text
      → json.unmarshal text ≡ none
      → concilate_node json pool node ≡ err (Error.message "json")
  unfolding concilate_node visit_known
  concilate_node_unread text present h = rw (present, h) refl
