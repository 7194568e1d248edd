-- ===== src/AppSet/Update/Stages.antt =====
-- What the stages of managePoolProvision do to the pools that exist, as far as a control keeps its
-- word: `present w k` tells whether a pool of the name `k` exists in the world `w`.
use yurt_app_manager.Prelude.{
  ℕ, zero, suc, Bool, true, false, Option, none, some, List, [], ◌∷◌, ◌==◌, ◌&&◌, ◌||◌, not, String,
  Error, has, length, ◌≡◌, refl, sym, ap, arith, Option-cases, inl, inr,
}
use yurt_app_manager.Util.SlowStart.{range_from, run_calls}
use yurt_app_manager.Util.SlowStart.Quiet.{run_calls-eq-nil, run_calls-nil, any_at}
use yurt_app_manager.AppSet.Types.{Pool, YurtAppSetPatches}
use yurt_app_manager.AppSet.Pools.{ControlInterface, patches_at}
use yurt_app_manager.AppSet.Update.{get_elem?, create_call, delete_each}

-- What managePoolProvision takes for a creation: no error, or a time-out.
abbrev pub counts_as_done : Option Error → Bool
counts_as_done none = true
counts_as_done (some Error.timeout) = true
counts_as_done (some x) = false

module _ {W : Type 0} (present : W → String → Bool) where
  -- A creation that counts as done adds its pool and no other; a deletion that succeeds takes its
  -- pool away and no other.
  pub record IsLawful (control : ControlInterface W) : Type 0 where
    pub created :
        (s revision : String) (replicas : ℕ) (w : W)
        → counts_as_done (control.create_pool s revision replicas w).0 ≡ true
        → (k : String)
        → present (control.create_pool s revision replicas w).1 k ≡ (s == k || present w k)
    pub deleted :
        (p : Pool) (w : W)
        → (control.delete_pool p w).0 ≡ none
        → (k : String) → present (control.delete_pool p w).1 k ≡ (present w k && not (p.name == k))

  -- A control of another type has pools of its own.
  pub record LeavesAlone (control : ControlInterface W) : Type 0 where
    pub listed : (w : W) (k : String) → present (control.get_all_pools w).1 k ≡ present w k
    pub deleted_other :
        (p : Pool) (w : W) (k : String) → present (control.delete_pool p w).1 k ≡ present w k

abbrev pub called : List String → String → ℕ → Bool
called creates k i = elim (get_elem? creates i) [ none ↦ false | some s ↦ s == k ]

any_at-suc :
    (c : String) (creates : List String) (k : String) (start size : ℕ)
    → any_at (called (c ∷ creates) k) (range_from (suc start) size)
      ≡ any_at (called creates k) (range_from start size)
any_at-suc c creates k start zero = refl
any_at-suc c creates k start (suc size) = ground (arith, any_at-suc c creates k (suc start) size)

pub any_at-range_from :
    (creates : List String) (k : String)
    → any_at (called creates k) (range_from 0 (length creates)) ≡ has k creates
any_at-range_from [] k = refl
any_at-range_from (c ∷ creates) k =
    ground (arith, any_at-suc c creates k 0 (length creates), any_at-range_from creates k)

abbrev pub names_of : List Pool → List String
names_of [] = []
names_of (p ∷ ps) = p.name ∷ names_of ps

module _ {W : Type 0} (present : W → String → Bool) (control : ControlInterface W)
    (lawful : IsLawful present control) (next : List (String × YurtAppSetPatches))
    (revision : String) where
  create_pool_done :
      (s : String) (w : W)
      → elim (control.create_pool s revision (patches_at next s).replicas w).0 [
        | none ↦ none
        | some Error.timeout ↦ none
        | some x ↦ some (Error.wrapped "fail to create Pool" x)
      ]
        ≡ none
      → counts_as_done (control.create_pool s revision (patches_at next s).replicas w).0 ≡ true
  create_pool_done s w h = ground (arith, h)

  create_call-eq :
      (creates : List String) (i : ℕ) (w : W) (k : String)
      → (create_call control next revision creates i w).0 ≡ none
      → present (create_call control next revision creates i w).1 k
        ≡ (called creates k i || present w k)
  unfolding create_call
  create_call-eq creates i w k h = elim (Option-cases (get_elem? creates i)) [
    | inl e ↦ ground (arith, e)
    | inr (s, e) ↦
        (let done = create_pool_done s w (rw (e, create_call) at h) in
          ground (arith, e, lawful.created s revision (patches_at next s).replicas w done k))
  ]

  pub run_creates :
      (creates : List String) (is : List ℕ) (w w' : W) (k : String)
      → run_calls (create_call control next revision creates) is w ≡ ([], w')
      → present w' k ≡ (any_at (called creates k) is || present w k)
  run_creates creates [] w w' k h = ap (λ v. present v k) (sym (run_calls-nil _ w w' h))
  run_creates creates (i ∷ is) w w' k h =
      let (done, rest) = run_calls-eq-nil (create_call control next revision creates) i is w w' h in
      ground (arith, run_creates creates is _ w' k rest, create_call-eq creates i w k done)

  pub delete_each-eq :
      (text : String) (ps : List Pool) (w : W) (k : String)
      → (delete_each control text ps w).0 ≡ []
      → present (delete_each control text ps w).1 k ≡ (present w k && not (has k (names_of ps)))
  unfolding delete_each
  delete_each-eq text [] w k h = ground arith
  delete_each-eq text (p ∷ ps) w k h = elim (Option-cases (control.delete_pool p w).0) [
    | inl e ↦ ground (
      arith,
      delete_each-eq text ps (control.delete_pool p w).1 k (rw e at h),
      lawful.deleted p w e k,
    )
    | inr (x, e) ↦ cc (rw e at h)
  ]
