-- ===== src/NodePool/Taints/Laws.antt =====
-- What the loops over taints do to a node whose taints are unique.
use mathlib.Core.List.{append_assoc, append-nil}
use yurt_app_manager.Prelude.{
  ℕ, suc, true, false, List, [], ◌∷◌, ◌++◌, ◌≡◌, refl, sym, ap, ◌∙◌, arith, if◌then◌else◌,
}
use yurt_app_manager.NodePool.Types.{Taint}
use yurt_app_manager.NodePool.Taints.{
  contain_taint_from, contain_taint, remove_at, remove_taint, attach_taints, detach_taints,
  remove_old_taints, conciliate_taints,
}
use yurt_app_manager.NodePool.Taints.Unique.{
  Fresh, IsUnique, unmentioned, same_taint_comm, unmentioned-append, unmentioned-unmentioned,
  unmentioned-IsUnique, Fresh-unmentioned, remove_taint-eq-unmentioned, snoc-IsUnique,
}

unmentioned-nil : (ts : List Taint) → unmentioned [] ts ≡ ts
unmentioned-nil [] = refl
unmentioned-nil (t ∷ ts) = ap (λ l. t ∷ l) (unmentioned-nil ts)

-- A taint that no pool taint repeats is left by the filter.
unmentioned-singleton :
    (ns : List Taint) (t : Taint) → Fresh t ns → unmentioned ns (t ∷ []) ≡ t ∷ []
unmentioned-singleton [] t h = refl
unmentioned-singleton (n ∷ ns) t h =
    ground (arith, same_taint_comm n t, unmentioned-singleton ns t h.1)

remove_taint-IsUnique :
    (n : Taint) (ts : List Taint) → IsUnique ts → IsUnique (remove_taint n ts ++ n ∷ [])
remove_taint-IsUnique n ts h = rw (remove_taint-eq-unmentioned n ts h) (
    snoc-IsUnique n (unmentioned (n ∷ []) ts) (unmentioned-IsUnique (n ∷ []) ts h)
      (Fresh-unmentioned n ts))

-- After the first visit of a node its unique taints stay unique, whatever the pool asks for.
pub attach_taints-IsUnique : (npts ts : List Taint) → IsUnique ts → IsUnique (attach_taints npts ts)
unfolding attach_taints
attach_taints-IsUnique [] ts h = h
attach_taints-IsUnique (n ∷ ns) ts h =
    attach_taints-IsUnique ns (remove_taint n ts ++ n ∷ []) (remove_taint-IsUnique n ts h)

-- The first visit replaces the node's taints of the pool's keys and effects.
pub attach_taints-eq :
    (npts ts : List Taint)
    → IsUnique npts
    → IsUnique ts
    → attach_taints npts ts ≡ unmentioned npts ts ++ npts
unfolding attach_taints
attach_taints-eq [] ts h k = sym (append-nil (unmentioned [] ts) ∙ unmentioned-nil ts)
attach_taints-eq (n ∷ ns) ts h k =
    attach_taints-eq ns (remove_taint n ts ++ n ∷ []) h.1 (remove_taint-IsUnique n ts k)
    ∙ simp (
      remove_taint-eq-unmentioned n ts k,
      unmentioned-append,
      unmentioned-unmentioned n ns ts,
      unmentioned-singleton ns n h.0,
      append_assoc,
    )

contain_taint_shift :
    (i : ℕ) (t : Taint) (ts : List Taint)
    → ((contain_taint_from (suc i) t ts).1 ≡ (contain_taint_from i t ts).1)
      × ((contain_taint_from i t ts).1 ≡ true
          → (contain_taint_from (suc i) t ts).0 ≡ suc (contain_taint_from i t ts).0)
unfolding contain_taint_from
contain_taint_shift i t [] = (refl, λ e. cc)
contain_taint_shift i t (u ∷ ts) = ground (arith, contain_taint_shift (suc i) t ts)

-- The index that `containTaint` finds is the one that `removeTaint` removes.
remove_at-contain_taint :
    (t : Taint) (ts : List Taint)
    → (if (contain_taint t ts).1 then remove_at (contain_taint t ts).0 ts else ts)
      ≡ remove_taint t ts
unfolding contain_taint contain_taint_from remove_at remove_taint
remove_at-contain_taint t [] = refl
remove_at-contain_taint t (u ∷ ts) =
    ground (arith, contain_taint_shift 0 t ts, remove_at-contain_taint t ts)

remove_taint_absent :
    (t : Taint) (i : ℕ) (ts : List Taint)
    → (contain_taint_from i t ts).1 ≡ false
    → remove_taint t ts ≡ ts
unfolding contain_taint_from remove_taint
remove_taint_absent t i [] h = refl
remove_taint_absent t i (u ∷ ts) h = ground (arith, remove_taint_absent t (suc i) ts)

remove_taint-contain_taint :
    (t : Taint) (ts : List Taint)
    → (if (contain_taint t ts).1 then remove_taint t ts else ts) ≡ remove_taint t ts
unfolding contain_taint
remove_taint-contain_taint t ts = ground (arith, remove_taint_absent t 0 ts)

remove_first-IsUnique : (n : Taint) (ts : List Taint) → IsUnique ts → IsUnique (remove_taint n ts)
remove_first-IsUnique n ts h =
    rw (remove_taint-eq-unmentioned n ts h) (unmentioned-IsUnique (n ∷ []) ts h)

-- Leaving a pool removes just the taints of the pool's keys and effects.
pub detach_taints-eq :
    (npts ts : List Taint) → IsUnique ts → detach_taints npts ts ≡ unmentioned npts ts
unfolding detach_taints
detach_taints-eq [] ts k = sym (unmentioned-nil ts)
detach_taints-eq (n ∷ ns) ts k =
    ap (detach_taints ns) (remove_at-contain_taint n ts)
    ∙ detach_taints-eq ns (remove_taint n ts) (remove_first-IsUnique n ts k)
    ∙ ap (unmentioned ns) (remove_taint-eq-unmentioned n ts k)
    ∙ unmentioned-unmentioned n ns ts

remove_old_taints-eq :
    (olds ts : List Taint) → IsUnique ts → remove_old_taints olds ts ≡ unmentioned olds ts
unfolding remove_old_taints
remove_old_taints-eq [] ts k = sym (unmentioned-nil ts)
remove_old_taints-eq (n ∷ ns) ts k =
    ap (remove_old_taints ns) (remove_taint-contain_taint n ts)
    ∙ remove_old_taints-eq ns (remove_taint n ts) (remove_first-IsUnique n ts k)
    ∙ ap (unmentioned ns) (remove_taint-eq-unmentioned n ts k)
    ∙ unmentioned-unmentioned n ns ts

-- A change of the pool removes the taints that the old pool mentions and appends the new ones.
pub conciliate_taints-eq :
    (olds news ts : List Taint)
    → IsUnique ts
    → conciliate_taints olds news ts ≡ unmentioned olds ts ++ news
unfolding conciliate_taints
conciliate_taints-eq olds news ts k = ap (λ l. l ++ news) (remove_old_taints-eq olds ts k)
