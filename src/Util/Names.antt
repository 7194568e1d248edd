-- ===== src/Util/Names.antt =====
-- pkg/yurtappmanager/util: CheckDuplicate of tools.go, GetPodNames and MergePods of pods.go, and
-- ContainsString and RemoveString of string.go.
use yurt_app_manager.Prelude.{
  Bool, true, false, List, [], ◌∷◌, ◌++◌, ◌==◌, ◌||◌, ◌&&◌, not, String, has, if◌then◌else◌, ◌≡◌,
  ◌↔◌, refl, arith, eq_iff, Bool-cases, inl, inr,
}

pub record Pod : Type 0 where
  pub name : String
  pub node_name : String

-- The loop of CheckDuplicate; `seen` are the keys of its map.
duplicates_from : List String → List String → List String
duplicates_from seen [] = []
duplicates_from seen (n ∷ ns) =
    let rest = duplicates_from (n ∷ seen) ns in
    if has n seen then n ∷ duplicates_from seen ns else rest

pub check_duplicate : List String → List String
unfolding duplicates_from
check_duplicate names = duplicates_from [] names

pub get_pod_names : List Pod → List String
get_pod_names [] = []
get_pod_names (p ∷ ps) = p.name ∷ get_pod_names ps

-- One loop of MergePods, with the names that it has inserted before.
merge_from : List String → List Pod → List Pod
merge_from names [] = []
merge_from names (p ∷ ps) =
    let rest = merge_from (p.name ∷ names) ps in
    if has p.name names then merge_from names ps else p ∷ rest

pub merge_pods : List Pod → List Pod → List Pod
unfolding merge_from
merge_pods pods1 pods2 =
    merge_from [] pods1 ++ merge_from (get_pod_names (merge_from [] pods1)) pods2

pub contains_string : List String → String → Bool
contains_string [] s = false
contains_string (x ∷ xs) s = if x == s then true else contains_string xs s

pub remove_string : List String → String → List String
remove_string [] s = []
remove_string (x ∷ xs) s = let rest = remove_string xs s in if x == s then rest else x ∷ rest

-- No name stands twice, nor among those before.
abbrev pub IsDistinct : List String → List String → Type 0
IsDistinct before [] = Unit
IsDistinct before (n ∷ ns) = (has n before ≡ false) × IsDistinct (n ∷ before) ns

duplicates_from_iff :
    (seen names : List String) → (duplicates_from seen names ≡ []) ↔ IsDistinct seen names
unfolding duplicates_from
duplicates_from_iff seen [] = (λ h. tt, λ h. refl)
duplicates_from_iff seen (n ∷ ns) = (
  λ h. elim (Bool-cases (has n seen)) [
    | inl e ↦ cc (rw (e, duplicates_from) at h)
    | inr e ↦ (e, (duplicates_from_iff (n ∷ seen) ns).0 (rw (e, duplicates_from) at h))
  ],
  λ h. rw (h.0, duplicates_from) ((duplicates_from_iff (n ∷ seen) ns).1 h.1),
)

-- CheckDuplicate finds nothing if and only if no name stands twice.
pub check_duplicate_iff : (names : List String) → (check_duplicate names ≡ []) ↔ IsDistinct [] names
unfolding check_duplicate
check_duplicate_iff names = duplicates_from_iff [] names

-- RemoveString leaves the other texts where they were found, and no copy of the text itself.
pub contains_string-remove_string :
    (xs : List String) (s t : String)
    → contains_string (remove_string xs s) t ≡ (not (s == t) && contains_string xs t)
unfolding contains_string remove_string
contains_string-remove_string [] s t = ground arith
contains_string-remove_string (x ∷ xs) s t =
    ground (arith, contains_string-remove_string xs s t, eq_iff x s, eq_iff x t, eq_iff s t)

has-merge_from :
    (s : String) (names : List String) (pods : List Pod)
    → has s (get_pod_names (merge_from names pods))
      ≡ (has s (get_pod_names pods) && not (has s names))
unfolding get_pod_names merge_from
has-merge_from s names [] = refl
has-merge_from s names (p ∷ ps) =
    ground (arith, has-merge_from s names ps, has-merge_from s (p.name ∷ names) ps, eq_iff p.name s)

has-append_names :
    (s : String) (l m : List Pod)
    → has s (get_pod_names (l ++ m)) ≡ (has s (get_pod_names l) || has s (get_pod_names m))
unfolding get_pod_names
has-append_names s [] m = refl
has-append_names s (p ∷ l) m = ground (arith, has-append_names s l m)

-- MergePods names the pods that either of its lists names.
pub has-merge_pods :
    (s : String) (pods1 pods2 : List Pod)
    → has s (get_pod_names (merge_pods pods1 pods2))
      ≡ (has s (get_pod_names pods1) || has s (get_pod_names pods2))
unfolding merge_pods
has-merge_pods s pods1 pods2 = ground (
  arith,
  has-append_names s (merge_from [] pods1) (merge_from (get_pod_names (merge_from [] pods1)) pods2),
  has-merge_from s [] pods1,
  has-merge_from s (get_pod_names (merge_from [] pods1)) pods2,
)
