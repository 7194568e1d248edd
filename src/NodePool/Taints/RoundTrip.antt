-- ===== src/NodePool/Taints/RoundTrip.antt =====
-- Joining and leaving a pool, and when a change of the pool leaves a node with a repeated taint.
use mathlib.Core.List.{append_assoc, append-nil}
use yurt_app_manager.Prelude.{
  true, false, List, [], ◌∷◌, ◌++◌, ◌≡◌, ◌↔◌, refl, sym, ap, ◌∙◌, arith, eq_refl, All, All-append,
}
use yurt_app_manager.NodePool.Types.{Taint}
use yurt_app_manager.NodePool.Taints.{same_taint, attach_taints, detach_taints, conciliate_taints}
use yurt_app_manager.NodePool.Taints.Unique.{
  Fresh, IsUnique, mentions, unmentioned, unmentioned-append, unmentioned-IsUnique,
}
use yurt_app_manager.NodePool.Taints.Laws.{
  attach_taints-IsUnique, attach_taints-eq, detach_taints-eq, conciliate_taints-eq,
}

same_taint_refl : (t : Taint) → same_taint t t ≡ true
same_taint_refl t = ground (arith, eq_refl t.key, eq_refl t.effect)

mentions_middle : (pre ns : List Taint) (t : Taint) → mentions (pre ++ t ∷ ns) t ≡ true
mentions_middle [] ns t = ground (arith, same_taint_refl t)
mentions_middle (p ∷ pre) ns t = ground (arith, mentions_middle pre ns t)

unmentioned_rest : (pre ns : List Taint) → unmentioned (pre ++ ns) ns ≡ []
unmentioned_rest pre [] = refl
unmentioned_rest pre (t ∷ ns) = rw (mentions_middle pre ns t) (
    ap (λ l. unmentioned l ns) (sym (append_assoc pre (t ∷ []) ns))
    ∙ unmentioned_rest (pre ++ t ∷ []) ns)

unmentioned-unmentioned_self :
    (ns ts : List Taint) → unmentioned ns (unmentioned ns ts) ≡ unmentioned ns ts
unmentioned-unmentioned_self ns [] = refl
unmentioned-unmentioned_self ns (t ∷ ts) = ground (arith, unmentioned-unmentioned_self ns ts)

-- A node that joins a pool and leaves it has the taints that the pool does not mention.
pub detach_taints-attach_taints :
    (npts ts : List Taint)
    → IsUnique npts
    → IsUnique ts
    → detach_taints npts (attach_taints npts ts) ≡ unmentioned npts ts
detach_taints-attach_taints npts ts h k =
    detach_taints-eq npts (attach_taints npts ts) (attach_taints-IsUnique npts ts k)
    ∙ ap (unmentioned npts) (attach_taints-eq npts ts h k)
    ∙ unmentioned-append npts (unmentioned npts ts) npts
    ∙ simp (unmentioned-unmentioned_self npts ts, unmentioned_rest [] npts)
        (append-nil (unmentioned npts ts))

IsUnique-append_iff :
    (xs ys : List Taint)
    → IsUnique (xs ++ ys) ↔ (IsUnique xs × IsUnique ys × All (λ t. Fresh t ys) xs)
IsUnique-append_iff [] ys = (λ h. (tt, h, tt), λ h. h.1)
IsUnique-append_iff (x ∷ xs) ys = (
  λ h.
      let r = (IsUnique-append_iff xs ys).0 h.1 in
      ((All_left xs h.0, r.0), r.1, (All_right xs h.0, r.2)),
  λ h. (
    All-append (λ u. same_taint x u ≡ false) xs ys h.0.0 h.2.0,
    (IsUnique-append_iff xs ys).1 (h.0.1, h.1, h.2.1),
  ),
)
  where
    All_left : (zs : List Taint) → Fresh x (zs ++ ys) → Fresh x zs
    All_left [] h = tt
    All_left (z ∷ zs) h = (h.0, All_left zs h.1)

    All_right : (zs : List Taint) → Fresh x (zs ++ ys) → Fresh x ys
    All_right [] h = h
    All_right (z ∷ zs) h = All_right zs h.1

-- Where no two of the new taints of the pool have one key and effect, and no two of the node's do, a
-- change of the pool keeps it so for the node's taints exactly if no new taint has the key and effect
-- of a taint that the node has and the old pool does not mention.
pub conciliate_taints-IsUnique_iff :
    (olds news ts : List Taint)
    → IsUnique news
    → IsUnique ts
    → IsUnique (conciliate_taints olds news ts) ↔ All (λ t. Fresh t news) (unmentioned olds ts)
conciliate_taints-IsUnique_iff olds news ts h k = rw (conciliate_taints-eq olds news ts k) (
  λ u. ((IsUnique-append_iff (unmentioned olds ts) news).0 u).2,
  λ f. (IsUnique-append_iff (unmentioned olds ts) news).1 (unmentioned-IsUnique olds ts k, h, f),
)
