-- ===== src/NodePool/Attributes/Lookups.antt =====
-- The loops over labels and annotations, by what a lookup finds afterwards.
use yurt_app_manager.Prelude.{
  Option, none, some, List, [], ◌∷◌, ◌==◌, String, GoMap, items, lookup, get, lookup-insert,
  get-delete, ◌≡◌, refl, arith, eq_iff, if◌then◌else◌,
}
use yurt_app_manager.NodePool.Attributes.{put_all, merge_map, drop_gone, remove_owned}

-- The keys of a Go map are distinct.
abbrev pub HasDistinctKeys : List (String × String) → Type 0
HasDistinctKeys [] = Unit
HasDistinctKeys ((k, v) ∷ kvs) = (lookup k kvs ≡ none) × HasDistinctKeys kvs

abbrev pub or_else {ℓ} : {A : Type ℓ} → Option A → Option A → Option A
or_else none o = o
or_else (some a) o = some a

-- What is left of a lookup after a key that is in `olds` has been dropped.
abbrev pub unless {ℓ} : {A : Type ℓ} → Option A → Option A → Option A
unless none o = o
unless (some a) o = none

lookup-put_all :
    (kvs m : List (String × String)) (j : String)
    → lookup j (put_all kvs m) ≡ or_else (lookup j kvs) (lookup j m)
lookup-put_all [] m j = refl
lookup-put_all ((k, v) ∷ kvs) m j =
    ground (arith, lookup-insert k j v (put_all kvs m), lookup-put_all kvs m j)

pub get-merge_map :
    (m1 m2 : GoMap String) (j : String) → get (merge_map m1 m2) j ≡ or_else (get m2 j) (get m1 j)
unfolding merge_map
get-merge_map m1 m2 j = lookup-put_all (items m2) (items m1) j

get-drop_gone :
    (olds : List (String × String)) (news m : GoMap String) (j : String)
    → or_else (get news j) (get (drop_gone olds news m) j)
      ≡ or_else (get news j) (unless (lookup j olds) (get m j))
get-drop_gone [] news m j = refl
get-drop_gone ((k, v) ∷ olds) news m j =
    ground (arith, get-delete k j (drop_gone olds news m), get-drop_gone olds news m j, eq_iff k j)

-- A change of the pool: the new value, or nothing where only the old pool has the key, or else
-- the node's own value.
pub get-merge_map-drop_gone :
    (olds : List (String × String)) (news m : GoMap String) (j : String)
    → get (merge_map (drop_gone olds news m) news) j
      ≡ or_else (get news j) (unless (lookup j olds) (get m j))
get-merge_map-drop_gone olds news m j =
    ground (arith, get-merge_map (drop_gone olds news m) news j, get-drop_gone olds news m j)

-- Leaving a pool deletes a key where the node still has the pool's value.
abbrev pub if_changed : Option String → Option String → Option String
if_changed none o = o
if_changed (some v) none = none
if_changed (some v) (some w) = if w == v then none else some w

pub get-remove_owned :
    (kvs : List (String × String)) (m : GoMap String) (j : String)
    → HasDistinctKeys kvs
    → get (remove_owned kvs m) j ≡ if_changed (lookup j kvs) (get m j)
get-remove_owned [] m j h = refl
get-remove_owned ((k, v) ∷ kvs) m j h = ground (
  arith,
  get-delete k j (remove_owned kvs m),
  get-remove_owned kvs m j h.1,
  get-remove_owned kvs m k h.1,
  eq_iff k j,
)
