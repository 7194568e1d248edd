-- ===== src/NodePool/Taints.antt =====
-- The taints of a node: containTaint, removeTaint, conciliateTaints and the loop of concilateNode
-- in pkg/yurtappmanager/controller/nodepool/nodepool_controller.go.
pub mod Unique
pub mod Laws
pub mod RoundTrip
use yurt_app_manager.Prelude.{
  ℕ, zero, suc, Bool, true, false, Option, none, some, List, [], ◌∷◌, ◌++◌, ◌==◌, ◌&&◌,
  if◌then◌else◌, GoSlice, items,
}
use yurt_app_manager.NodePool.Types.{Taint}

-- `taint.Effect == t.Effect && taint.Key == t.Key`
abbrev pub same_taint : Taint → Taint → Bool
same_taint a b = a.effect == b.effect && a.key == b.key

contain_taint_from : ℕ → Taint → List Taint → ℕ × Bool
contain_taint_from i taint [] = (0, false)
contain_taint_from i taint (t ∷ ts) =
    let rest = contain_taint_from (suc i) taint ts in if same_taint taint t then (i, true) else rest

-- The index of the taint and true, or 0 and false.
pub contain_taint : Taint → List Taint → ℕ × Bool
unfolding contain_taint_from
contain_taint taint ts = contain_taint_from 0 taint ts

-- `append(ts[:i], ts[i+1:]...)`
remove_at : ℕ → List Taint → List Taint
remove_at i [] = []
remove_at zero (t ∷ ts) = ts
remove_at (suc i) (t ∷ ts) = t ∷ remove_at i ts

-- The first taint of that key and effect is removed.
pub remove_taint : Taint → List Taint → List Taint
remove_taint taint [] = []
remove_taint taint (t ∷ ts) = if same_taint taint t then ts else t ∷ remove_taint taint ts

-- The loop of concilateNode over the taints of the pool: each replaces the node's own one.
pub attach_taints : List Taint → List Taint → List Taint
unfolding remove_taint
attach_taints [] ts = ts
attach_taints (npt ∷ npts) ts = attach_taints npts (remove_taint npt ts ++ npt ∷ [])

-- The loop of removePoolRelatedAttrs over the taints of the pool.
pub detach_taints : List Taint → List Taint → List Taint
unfolding contain_taint remove_at
detach_taints [] ts = ts
detach_taints (t ∷ npts) ts =
    let (i, exist) = contain_taint t ts in detach_taints npts (if exist then remove_at i ts else ts)

remove_old_taints : List Taint → List Taint → List Taint
unfolding contain_taint remove_taint
remove_old_taints [] ts = ts
remove_old_taints (old ∷ olds) ts =
    let (i, exist) = contain_taint old ts in
    remove_old_taints olds (if exist then remove_taint old ts else ts)

pub conciliate_taints : List Taint → List Taint → List Taint → List Taint
unfolding remove_old_taints
conciliate_taints olds news ts = remove_old_taints olds ts ++ news
