-- ===== src/NodePool/Attributes.antt =====
-- What a pool gives its nodes: mergeMap, conciliateLabels, conciliateAnnotations,
-- cachePrevPoolAttrs, concilateNode and removePoolRelatedAttrs of
-- pkg/yurtappmanager/controller/nodepool/nodepool_controller.go.
pub mod Lookups
pub mod Visits
pub mod Membership
pub mod Repeated
use yurt_app_manager.Prelude.{
  ℕ, Bool, true, false, Option, none, some, List, [], ◌∷◌, ◌==◌, ◌&&◌, not, String, GoMap, GoSlice,
  items, lookup, without, insert, get, put, delete, value_of, Result, ok, err, Error, ◌>>=◌, eqb,
  is_empty, if◌then◌else◌, keys,
}
use yurt_app_manager.NodePool.Types.{
  Taint, Node, NodePool, NodePoolRelatedAttributes, label_current_node_pool, annotation_prev_attrs,
}
use yurt_app_manager.NodePool.Taints.{attach_taints, detach_taints, conciliate_taints}

-- encoding/json on the attributes: `none` where it returns an error.
pub record Json : Type 0 where
  pub marshal : NodePoolRelatedAttributes → Option String
  pub unmarshal : String → Option NodePoolRelatedAttributes

abbrev pub or_error {ℓ} : {A : Type ℓ} → Option A → Result A
or_error none = err (Error.message "json")
or_error (some a) = ok a

abbrev pub put_all : List (String × String) → List (String × String) → List (String × String)
put_all [] m = m
put_all ((k, v) ∷ kvs) m = insert k v (put_all kvs m)

-- The result is never `nil`.
pub merge_map : GoMap String → GoMap String → GoMap String
merge_map m1 m2 = some (put_all (items m2) (items m1))

-- `for oldK := range old { if _, exist := new[oldK]; !exist { delete(m, oldK) } }`
abbrev pub drop_gone : List (String × String) → GoMap String → GoMap String → GoMap String
drop_gone [] news m = m
drop_gone ((k, v) ∷ olds) news m =
    let rest = drop_gone olds news m in elim (get news k) [ none ↦ delete k rest | some _ ↦ rest ]

pub conciliate_labels : GoMap String → GoMap String → Node → Node
unfolding merge_map
conciliate_labels olds news node = record node {
  labels = merge_map (drop_gone (items olds) news node.labels) news;
}

pub conciliate_annotations : GoMap String → GoMap String → Node → Node
unfolding merge_map
conciliate_annotations olds news node = record node {
  annotations = merge_map (drop_gone (items olds) news node.annotations) news;
}

-- A `nil` slice stays `nil` until something is appended to it.
abbrev pub reslice : GoSlice Taint → List Taint → GoSlice Taint
reslice none [] = none
reslice none (t ∷ ts) = some (t ∷ ts)
reslice (some _) ts = some ts

pub cache_prev_pool_attrs : Json → NodePoolRelatedAttributes → Node → Result Node
cache_prev_pool_attrs json npra node = do
  text ← or_error (json.marshal npra)
  annotations ← put annotation_prev_attrs text (some (items node.annotations))
  ok (record node { annotations = annotations })

abbrev same_entries : List (String × String) → GoMap String → Bool
same_entries [] m = true
same_entries ((k, v) ∷ kvs) m =
    elim (get m k) [ none ↦ false | some w ↦ v == w ] && same_entries kvs m

-- reflect.DeepEqual of two maps: both `nil`, or neither and the same entries.
abbrev pub equal_maps : GoMap String → GoMap String → Bool
equal_maps none none = true
equal_maps none (some _) = false
equal_maps (some _) none = false
equal_maps (some a) (some b) = same_entries a (some b) && same_entries b (some a)

abbrev equal_times : Option ℕ → Option ℕ → Bool
equal_times none none = true
equal_times (some a) (some b) = eqb a b
equal_times _ _ = false

abbrev equal_lists : List Taint → List Taint → Bool
equal_lists [] [] = true
equal_lists (a ∷ as') (b ∷ bs) =
    a.key == b.key
    && a.value == b.value
    && a.effect == b.effect
    && equal_times a.time_added b.time_added
    && equal_lists as' bs
equal_lists _ _ = false

abbrev pub equal_slices : GoSlice Taint → GoSlice Taint → Bool
equal_slices none none = true
equal_slices none (some _) = false
equal_slices (some _) none = false
equal_slices (some a) (some b) = equal_lists a b

-- reflect.DeepEqual of the attributes.
unfoldable pub deep_equal : NodePoolRelatedAttributes → NodePoolRelatedAttributes → Bool
deep_equal a b =
    equal_maps a.labels b.labels
    && equal_maps a.annotations b.annotations
    && equal_slices a.taints b.taints

abbrev pub attributes : NodePool → NodePoolRelatedAttributes
attributes pool = record {
  labels = pool.spec.labels;
  annotations = pool.spec.annotations;
  taints = pool.spec.taints;
}

-- The first visit of a node.
pub attach_attributes : NodePoolRelatedAttributes → Node → Node
unfolding merge_map
attach_attributes npra node = record node {
  labels = merge_map node.labels npra.labels;
  annotations = merge_map node.annotations npra.annotations;
  taints = reslice node.taints (attach_taints (items npra.taints) (items node.taints));
}

-- A later visit, after the pool has changed.
pub change_attributes : NodePoolRelatedAttributes → NodePoolRelatedAttributes → Node → Node
unfolding conciliate_labels conciliate_annotations
change_attributes pre npra node =
    let labelled =
      conciliate_annotations pre.annotations npra.annotations
        (conciliate_labels pre.labels npra.labels node) in
    record labelled {
      taints =
          reslice node.taints
            (conciliate_taints (items pre.taints) (items npra.taints) (items node.taints));
    }

-- `update ownerLabel`: the node's label with the name of its pool.
pub own_label : String → Node × Bool → Result (Node × Bool)
own_label pool (node, updated) =
    if value_of node.labels label_current_node_pool == pool then ok (node, updated) else do
      let made = if is_empty (items node.labels) then some [] else node.labels
      labels ← put label_current_node_pool pool made
      ok (record node { labels = labels }, true)

visit_known : Json → NodePoolRelatedAttributes → String → Node → Result (Node × Bool)
unfolding change_attributes deep_equal cache_prev_pool_attrs
visit_known json npra text node = do
  pre ← or_error (json.unmarshal text)
  if deep_equal pre npra then ok (node, false) else do
    changed ← cache_prev_pool_attrs json npra (change_attributes pre npra node)
    ok (changed, true)

visit_new : Json → NodePoolRelatedAttributes → Node → Result (Node × Bool)
unfolding attach_attributes cache_prev_pool_attrs
visit_new json npra node = do
  attached ← cache_prev_pool_attrs json npra (attach_attributes npra node)
  ok (attached, true)

-- The node to write, and whether it has to be written.
pub concilate_node : Json → NodePool → Node → Result (Node × Bool)
unfolding visit_new visit_known own_label
concilate_node json pool node = do
  visited ← elim (get node.annotations annotation_prev_attrs) [
    | none ↦ visit_new json (attributes pool) node
    | some text ↦ visit_known json (attributes pool) text node
  ]
  own_label pool.name visited

-- `for k, v := range kvs { if m[k] == v { delete(m, k) } }`
abbrev pub remove_owned : List (String × String) → GoMap String → GoMap String
remove_owned [] m = m
remove_owned ((k, v) ∷ kvs) m =
    let rest = remove_owned kvs m in if value_of rest k == v then delete k rest else rest

pub detach_attributes : NodePoolRelatedAttributes → Node → Node
detach_attributes npra node = record node {
  labels = delete label_current_node_pool (remove_owned (items npra.labels) node.labels);
  annotations =
      delete annotation_prev_attrs (remove_owned (items npra.annotations) node.annotations);
  taints = reslice node.taints (detach_taints (items npra.taints) (items node.taints));
}

-- A node that holds no record of a pool is left as it is.
pub remove_pool_related_attrs : Json → Node → Result Node
unfolding detach_attributes
remove_pool_related_attrs json node = elim (get node.annotations annotation_prev_attrs) [
  | none ↦ ok node
  | some text ↦ (do npra ← or_error (json.unmarshal text); ok (detach_attributes npra node))
]
