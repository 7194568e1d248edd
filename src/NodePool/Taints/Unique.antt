-- ===== src/NodePool/Taints/Unique.antt =====
-- No two taints of a node share key and effect: the loops over taints against a filter.
use yurt_app_manager.Prelude.{
  Bool, true, false, List, [], ◌∷◌, ◌++◌, ◌||◌, ◌≡◌, refl, sym, ◌∙◌, arith, eq_iff, All, All-append,
  if◌then◌else◌, Bool-cases, inl, inr,
}
use yurt_app_manager.NodePool.Types.{Taint}
use yurt_app_manager.NodePool.Taints.{same_taint, remove_taint}

abbrev pub Fresh : Taint → List Taint → Type 0
Fresh t ts = All (λ u. same_taint t u ≡ false) ts

abbrev pub IsUnique : List Taint → Type 0
IsUnique [] = Unit
IsUnique (t ∷ ts) = Fresh t ts × IsUnique ts

-- Whether a list has a taint with that key and effect.
abbrev pub mentions : List Taint → Taint → Bool
mentions [] t = false
mentions (n ∷ ns) t = same_taint n t || mentions ns t

-- The taints that `ns` does not mention.
abbrev pub unmentioned : List Taint → List Taint → List Taint
unmentioned ns [] = []
unmentioned ns (t ∷ ts) = let rest = unmentioned ns ts in if mentions ns t then rest else t ∷ rest

pub same_taint_comm : (a b : Taint) → same_taint a b ≡ same_taint b a
same_taint_comm a b = ground (
  arith,
  eq_iff a.key b.key,
  eq_iff b.key a.key,
  eq_iff a.effect b.effect,
  eq_iff b.effect a.effect,
)

pub same_taint_trans : (a b c : Taint) → same_taint a b ≡ true → same_taint a c ≡ same_taint b c
same_taint_trans a b c h = ground (arith, eq_iff a.key b.key, eq_iff a.effect b.effect)

pub unmentioned-append :
    (ns xs ys : List Taint) → unmentioned ns (xs ++ ys) ≡ unmentioned ns xs ++ unmentioned ns ys
unmentioned-append ns [] ys = refl
unmentioned-append ns (x ∷ xs) ys = ground (arith, unmentioned-append ns xs ys)

pub unmentioned-unmentioned :
    (n : Taint) (ns ts : List Taint)
    → unmentioned ns (unmentioned (n ∷ []) ts) ≡ unmentioned (n ∷ ns) ts
unmentioned-unmentioned n ns [] = refl
unmentioned-unmentioned n ns (t ∷ ts) = ground (arith, unmentioned-unmentioned n ns ts)

unmentioned-Fresh : (u : Taint) (ns ts : List Taint) → Fresh u ts → Fresh u (unmentioned ns ts)
unmentioned-Fresh u ns [] h = tt
unmentioned-Fresh u ns (t ∷ ts) h = ground (arith, unmentioned-Fresh u ns ts)

pub unmentioned-IsUnique : (ns ts : List Taint) → IsUnique ts → IsUnique (unmentioned ns ts)
unmentioned-IsUnique ns [] h = tt
unmentioned-IsUnique ns (t ∷ ts) h =
    ground (arith, unmentioned-Fresh t ns ts, unmentioned-IsUnique ns ts)

-- Nothing is removed where the lists do not meet.
pub unmentioned-eq_of_Fresh :
    (n : Taint) (ts : List Taint) → Fresh n ts → unmentioned (n ∷ []) ts ≡ ts
unmentioned-eq_of_Fresh n [] h = refl
unmentioned-eq_of_Fresh n (t ∷ ts) h = ground (arith, unmentioned-eq_of_Fresh n ts)

pub Fresh-unmentioned : (n : Taint) (ts : List Taint) → Fresh n (unmentioned (n ∷ []) ts)
Fresh-unmentioned n [] = tt
Fresh-unmentioned n (t ∷ ts) = ground (arith, Fresh-unmentioned n ts)

Fresh-same : (n t : Taint) (ts : List Taint) → same_taint n t ≡ true → Fresh t ts → Fresh n ts
Fresh-same n t [] e h = tt
Fresh-same n t (u ∷ ts) e h = (same_taint_trans n t u e ∙ h.0, Fresh-same n t ts e h.1)

pub remove_taint-eq-unmentioned :
    (n : Taint) (ts : List Taint) → IsUnique ts → remove_taint n ts ≡ unmentioned (n ∷ []) ts
unfolding remove_taint
remove_taint-eq-unmentioned n [] h = refl
remove_taint-eq-unmentioned n (t ∷ ts) h = elim (Bool-cases (same_taint n t)) [
  | inl e ↦ rw e (sym (unmentioned-eq_of_Fresh n ts (Fresh-same n t ts e h.0)))
  | inr e ↦ ground (arith, remove_taint-eq-unmentioned n ts h.1)
]

pub snoc-IsUnique :
    (n : Taint) (ts : List Taint) → IsUnique ts → Fresh n ts → IsUnique (ts ++ n ∷ [])
snoc-IsUnique n [] h k = (tt, tt)
snoc-IsUnique n (t ∷ ts) h k = (
  All-append (λ u. same_taint t u ≡ false) ts (n ∷ []) h.0 (same_taint_comm t n ∙ k.0, tt),
  snoc-IsUnique n ts h.1 k.1,
)
