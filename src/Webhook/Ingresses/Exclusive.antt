-- ===== src/Webhook/Ingresses/Exclusive.antt =====
-- A node pool is served by one ingress at most.
use yurt_app_manager.Prelude.{
  Bool, true, false, Option, none, some, List, [], ◌∷◌, ◌==◌, ◌||◌, ◌&&◌, not, String, ok, has,
  is_empty, lookup, insert, lookup-insert, ◌≡◌, ◌≢◌, ◌⊎◌, refl, ◌∙◌, arith, eq_iff, if◌then◌else◌,
  Option-cases, Bool-cases, inl, inr,
}
use yurt_app_manager.Webhook.Ingresses.{
  enable_each, enabled_pools, check_pools, validate_yurt_ingress_spec,
}

-- Whether an ingress of that name has the pool.
abbrev pub serves : String → String → List (String × List String) → Bool
serves ingress pool [] = false
serves ingress pool ((i, pools) ∷ ingresses) =
    (i == ingress && has pool pools) || serves ingress pool ingresses

abbrev pub IsExclusive : List (String × List String) → Type 0
IsExclusive ingresses =
    (a b pool : String) → serves a pool ingresses ≡ true → serves b pool ingresses ≡ true → a ≡ b

-- The ingress of that name is replaced, or added.
abbrev without_ingress : String → List (String × List String) → List (String × List String)
without_ingress name [] = []
without_ingress name ((i, pools) ∷ ingresses) =
    let rest = without_ingress name ingresses in if i == name then rest else (i, pools) ∷ rest

abbrev pub stored : String → List String → List (String × List String) → List (String × List String)
stored name pools ingresses = (name, pools) ∷ without_ingress name ingresses

serves-without_ingress :
    (name a pool : String) (l : List (String × List String))
    → serves a pool (without_ingress name l) ≡ (not (a == name) && serves a pool l)
serves-without_ingress name a pool [] = ground arith
serves-without_ingress name a pool ((i, pools) ∷ l) =
    ground (arith, serves-without_ingress name a pool l, eq_iff i name, eq_iff i a, eq_iff a name)

serves-stored :
    (name a pool : String) (pools : List String) (l : List (String × List String))
    → serves a pool (stored name pools l) ≡ (if a == name then has pool pools else serves a pool l)
serves-stored name a pool pools l =
    ground (arith, serves-without_ingress name a pool l, eq_iff name a, eq_iff a name)

lookup-enable_each :
    (ingress s : String) (pools : List String) (m : List (String × String))
    → lookup s (enable_each ingress pools m) ≡ (if has s pools then some ingress else lookup s m)
unfolding enable_each
lookup-enable_each ingress s [] m = refl
lookup-enable_each ingress s (p ∷ ps) m = ground (
  arith,
  lookup-enable_each ingress s ps (insert p ingress m),
  lookup-insert p s ingress m,
  eq_iff p s,
)

-- What the map names an ingress for, the ingress serves, unless the map did so before.
enabled_pools_sound :
    (s b : String) (l : List (String × List String)) (m : List (String × String))
    → lookup s (enabled_pools l m) ≡ some b
    → (serves b s l ≡ true) ⊎ (lookup s m ≡ some b)
unfolding enabled_pools
enabled_pools_sound s b [] m h = inr h
enabled_pools_sound s b ((i, pools) ∷ l) m h =
    elim (enabled_pools_sound s b l (enable_each i pools m) h) [
      | inl e ↦ inl (ground arith)
      | inr e ↦ elim (Bool-cases (has s pools)) [
        | inl f ↦ inl (ground (arith, eq_iff i b, lookup-enable_each i s pools m))
        | inr f ↦ inr (ground (arith, lookup-enable_each i s pools m))
      ]
    ]

abbrev is_some : Option String → Bool
is_some none = false
is_some (some _) = true

abbrev served : String → List (String × List String) → Bool
served pool [] = false
served pool ((i, pools) ∷ ingresses) = has pool pools || served pool ingresses

is_some-enabled_pools :
    (s : String) (l : List (String × List String)) (m : List (String × String))
    → is_some (lookup s (enabled_pools l m)) ≡ (served s l || is_some (lookup s m))
unfolding enabled_pools
is_some-enabled_pools s [] m = refl
is_some-enabled_pools s ((i, pools) ∷ l) m =
    ground
      (arith, is_some-enabled_pools s l (enable_each i pools m), lookup-enable_each i s pools m)

served-serves :
    (a s : String) (l : List (String × List String)) → serves a s l ≡ true → served s l ≡ true
served-serves a s [] h = cc
served-serves a s ((i, pools) ∷ l) h = ground (arith, served-serves a s l)

-- A pool that an ingress serves has an entry, and the entry is of an ingress that serves it.
enabled_pools_complete :
    (a s : String) (l : List (String × List String))
    → serves a s l ≡ true
    → (b : String) × (lookup s (enabled_pools l []) ≡ some b) × (serves b s l ≡ true)
enabled_pools_complete a s l h = elim (Option-cases (lookup s (enabled_pools l []))) [
  | inl e ↦
      (let absurd : true ≡ false =
          ground (arith, e, is_some-enabled_pools s l [], served-serves a s l h) in
        cc)
  | inr (b, e) ↦ (b, e, elim (enabled_pools_sound s b l [] e) [ inl f ↦ f | inr f ↦ cc ])
]

check_pools-eq-nil :
    (name s : String) (enabled : List (String × String)) (node_pools pools : List String)
    → check_pools name enabled node_pools pools ≡ []
    → has s pools ≡ true
    → (has s node_pools ≡ true) × ((b : String) → lookup s enabled ≡ some b → b ≡ name)
unfolding check_pools
check_pools-eq-nil name s enabled node_pools [] h k = cc
check_pools-eq-nil name s enabled node_pools (p ∷ ps) h k = elim (Bool-cases (p == s)) [
  | inl e ↦ (ground (arith, eq_iff p s), λ b f. ground (arith, eq_iff p s, eq_iff b name))
  | inr e ↦ check_pools-eq-nil name s enabled node_pools ps (ground arith) (ground arith)
]

module _ (ingresses : List (String × List String)) (node_pools : List String) (name : String) where
  accepted-eq-nil :
      (s : String) (pools : List String)
      → is_empty node_pools ≡ false
      → validate_yurt_ingress_spec (ok ingresses) (ok node_pools) name pools false ≡ ok []
      → has s pools ≡ true
      → (has s node_pools ≡ true)
        × ((b : String) → lookup s (enabled_pools ingresses []) ≡ some b → b ≡ name)
  unfolding validate_yurt_ingress_spec
  accepted-eq-nil s [] populated h k = cc
  accepted-eq-nil s (p ∷ ps) populated h k =
      check_pools-eq-nil name s (enabled_pools ingresses []) node_pools (p ∷ ps) (ground arith) k

  -- Who serves a pool of an accepted ingress is the ingress itself.
  accepted-serves :
      (s b : String) (pools : List String)
      → IsExclusive ingresses
      → is_empty node_pools ≡ false
      → validate_yurt_ingress_spec (ok ingresses) (ok node_pools) name pools false ≡ ok []
      → has s pools ≡ true
      → serves b s ingresses ≡ true
      → b ≡ name
  accepted-serves s b pools exclusive populated h k served_by =
      let (c, found, also) = enabled_pools_complete b s ingresses served_by in
      exclusive b c s served_by also ∙ (accepted-eq-nil s pools populated h k).1 c found

-- Where every node pool is served by one ingress at most, and an ingress that the webhook accepts is
-- stored in place of the one of its name, every node pool is still served by one ingress at most, and
-- the pools of the new ingress are node pools of the cluster, if the cluster has any node pool.
pub validate_yurt_ingress_spec-IsExclusive :
    (ingresses : List (String × List String)) (node_pools : List String) (name : String)
    (pools : List String)
    → IsExclusive ingresses
    → is_empty node_pools ≡ false
    → validate_yurt_ingress_spec (ok ingresses) (ok node_pools) name pools false ≡ ok []
    → IsExclusive (stored name pools ingresses)
      × ((s : String) → has s pools ≡ true → has s node_pools ≡ true)
unfolding validate_yurt_ingress_spec
validate_yurt_ingress_spec-IsExclusive ingresses node_pools name pools exclusive populated h = (
  λ a b s x y.
      one a b s (serves-stored name a s pools ingresses) (serves-stored name b s pools ingresses) x
        y,
  λ s k. (accepted-eq-nil ingresses node_pools name s pools populated h k).0,
)
  where
    mine : (s b : String) → has s pools ≡ true → serves b s ingresses ≡ true → b ≡ name
    mine s b k = accepted-serves ingresses node_pools name s b pools exclusive populated h k

    one :
        (a b s : String)
        → serves a s (stored name pools ingresses)
          ≡ (if a == name then has s pools else serves a s ingresses)
        → serves b s (stored name pools ingresses)
          ≡ (if b == name then has s pools else serves b s ingresses)
        → serves a s (stored name pools ingresses) ≡ true
        → serves b s (stored name pools ingresses) ≡ true
        → a ≡ b
    one a b s ea eb x y =
        ground
          (arith, ea, eb, x, y, mine s a, mine s b, exclusive a b s, eq_iff a name, eq_iff b name)

-- An ingress with a pool that is no node pool of the cluster cannot be deleted, while the cluster has
-- other node pools.
pub validate_yurt_ingress_spec_keeps :
    (ingresses : List (String × List String)) (node_pools : List String) (name s : String)
    (pools : List String)
    → is_empty node_pools ≡ false
    → has s pools ≡ true
    → has s node_pools ≡ false
    → validate_yurt_ingress_spec (ok ingresses) (ok node_pools) name pools true ≢ ok []
unfolding validate_yurt_ingress_spec
validate_yurt_ingress_spec_keeps ingresses node_pools name s [] populated k gone h = cc
validate_yurt_ingress_spec_keeps ingresses node_pools name s (p ∷ ps) populated k gone h =
    let known = (check_pools-eq-nil name s [] node_pools (p ∷ ps) (ground arith) k).0 in cc
