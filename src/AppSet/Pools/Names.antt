-- ===== src/AppSet/Pools/Names.antt =====
-- Which patches and which pool stand under a name.
use mathlib.Core.List.{append_assoc, append-nil}
use yurt_app_manager.Prelude.{
  Option, none, some, List, [], ◌∷◌, ◌++◌, ◌==◌, String, Error, Result, ok, ◌≡◌, refl, sym, ap, ◌∙◌,
  arith, eq_iff, items, lookup, insert, without, lookup-insert, lookup-without, if◌then◌else◌,
  Bool-cases, inl, inr,
}
use yurt_app_manager.AppSet.Types.{PoolConfig, Pool, YurtAppSetPatches}
use yurt_app_manager.AppSet.Pools.{
  ControlInterface, classify_from, classify_pool_by_pool_name, patch_of, next_patches_from,
  get_next_patches, delete_all, delete_dup_pool, get_name_to_pool,
}

-- The last entry of the topology that has the name.
abbrev pub last_named : String → List PoolConfig → Option PoolConfig
last_named s [] = none
last_named s (p ∷ ps) = elim (last_named s ps) [
  | some q ↦ some q
  | none ↦ if p.name == s then some p else none
]

pub patch_or : Option YurtAppSetPatches → Option PoolConfig → Option YurtAppSetPatches
patch_or next none = next
patch_or next (some p) = some (patch_of p)

lookup-next_patches_from :
    (s : String) (next : List (String × YurtAppSetPatches)) (pools : List PoolConfig)
    → lookup s (next_patches_from next pools) ≡ patch_or (lookup s next) (last_named s pools)
unfolding next_patches_from patch_or
lookup-next_patches_from s next [] = refl
lookup-next_patches_from s next (p ∷ ps) =
    lookup-next_patches_from s (insert p.name (patch_of p) next) ps ∙ step (last_named s ps)
  where
    step :
        (q : Option PoolConfig)
        → patch_or (lookup s (insert p.name (patch_of p) next)) q
          ≡ patch_or
              (lookup s next)
              (elim q [ some r ↦ some r | none ↦ if p.name == s then some p else none ])
    step (some r) = refl
    step none = ground (arith, lookup-insert p.name s (patch_of p) next)

-- GetNextPatches: the patches under a name are those of the last pool of the topology with that name,
-- its replicas or 0 and its patch or the empty text; a name that no pool has is missing.
pub lookup-get_next_patches :
    (s : String) (pools : List PoolConfig)
    → lookup s (get_next_patches pools) ≡ patch_or none (last_named s pools)
unfolding get_next_patches
lookup-get_next_patches s pools = lookup-next_patches_from s [] pools

abbrev pub pools_of_name : String → List Pool → List Pool
pools_of_name s [] = []
pools_of_name s (p ∷ ps) = let rest = pools_of_name s ps in if p.name == s then p ∷ rest else rest

abbrev pub first_pool : List Pool → Option Pool
first_pool [] = none
first_pool (p ∷ ps) = some p

lookup-classify_from :
    (s : String) (m : List (String × List Pool)) (ps : List Pool)
    → items (lookup s (classify_from m ps)) ≡ items (lookup s m) ++ pools_of_name s ps
unfolding classify_from
lookup-classify_from s m [] = sym (append-nil (items (lookup s m)))
lookup-classify_from s m (p ∷ ps) =
    lookup-classify_from s (insert p.name (items (lookup p.name m) ++ p ∷ []) m) ps ∙ step
  where
    step :
        items (lookup s (insert p.name (items (lookup p.name m) ++ p ∷ []) m)) ++ pools_of_name s ps
        ≡ items (lookup s m) ++ pools_of_name s (p ∷ ps)
    step = elim (Bool-cases (p.name == s)) [
      | inl e ↦ rw e (
          ap (λ l. (items l ++ p ∷ []) ++ pools_of_name s ps)
            (ap (λ k. lookup k m) ((eq_iff p.name s).0 e))
          ∙ append_assoc (items (lookup s m)) (p ∷ []) (pools_of_name s ps))
      | inr e ↦ rw (e, rw e at (lookup-without p.name s m)) refl
    ]

-- No name stands for an empty list.
abbrev Filled : List (String × List Pool) → Type 0
Filled [] = Unit
Filled ((s, []) ∷ m) = ⊥
Filled ((s, p ∷ ps) ∷ m) = Filled m

without-Filled : (s : String) (m : List (String × List Pool)) → Filled m → Filled (without s m)
without-Filled s [] f = tt
without-Filled s ((t, []) ∷ m) f = elim f [ ]
without-Filled s ((t, p ∷ ps) ∷ m) f = elim (Bool-cases (t == s)) [
  | inl e ↦ rw e (without-Filled s m f)
  | inr e ↦ rw e (without-Filled s m f)
]

append-Filled :
    (s : String) (l : List Pool) (p : Pool) (m : List (String × List Pool))
    → Filled m
    → Filled ((s, l ++ p ∷ []) ∷ m)
append-Filled s [] p m f = f
append-Filled s (q ∷ qs) p m f = f

classify_from-Filled :
    (m : List (String × List Pool)) (ps : List Pool) → Filled m → Filled (classify_from m ps)
unfolding classify_from
classify_from-Filled m [] f = f
classify_from-Filled m (p ∷ ps) f =
    classify_from-Filled (insert p.name (items (lookup p.name m) ++ p ∷ []) m) ps (
      append-Filled p.name (items (lookup p.name m)) p (without p.name m)
        (without-Filled p.name m f))

module _ {W : Type 0} (control : ControlInterface W) where
  lookup-delete_dup_pool :
      (s : String) (m : List (String × List Pool)) (w w' : W) (kept : List (String × Pool))
      → Filled m
      → delete_dup_pool control m w ≡ (kept, none, w')
      → lookup s kept ≡ first_pool (items (lookup s m))
  unfolding delete_dup_pool
  lookup-delete_dup_pool s [] w w' kept f h =
      ap (λ (r : List (String × Pool) × Option Error × W). lookup s r.0) (sym h)
  lookup-delete_dup_pool s ((t, []) ∷ m) w w' kept f h = elim f [ ]
  lookup-delete_dup_pool s ((t, p ∷ ps) ∷ m) w w' kept f h =
      go (λ v v' k. lookup-delete_dup_pool s m v v' k f) (delete_all control ps w).0 refl
    where
      go :
          ((v v' : W) (k : List (String × Pool))
            → delete_dup_pool control m v ≡ (k, none, v')
            → lookup s k ≡ first_pool (items (lookup s m)))
          → (r : Option Error) → (delete_all control ps w).0 ≡ r
          → lookup s kept ≡ first_pool (items (lookup s ((t, p ∷ ps) ∷ m)))
      go rec (some x) e = cc (rw (e, delete_dup_pool) at h)
      go rec none e = then_rest (delete_dup_pool control m (delete_all control ps w).1) refl
        where
          then_rest :
              (r : List (String × Pool) × Option Error × W)
              → delete_dup_pool control m (delete_all control ps w).1 ≡ r
              → lookup s kept ≡ first_pool (items (lookup s ((t, p ∷ ps) ∷ m)))
          then_rest (kept', some x, w2) e' = cc (rw (e, e', delete_dup_pool) at h)
          then_rest (kept', none, w2) e' =
              let same : (t, p) ∷ kept' ≡ kept =
                ap (λ (r : List (String × Pool) × Option Error × W). r.0)
                  (rw (e, e', delete_dup_pool) at h) in
              ground (arith, same, rec (delete_all control ps w).1 w2 kept' e')

  -- getNameToPool, when it succeeds, gives under each name the first of the listed pools that has the
  -- name, and nothing where none has it.
  pub get_name_to_pool_keeps_first :
      (s : String) (w w' : W) (pools : List Pool) (kept : List (String × Pool))
      → (control.get_all_pools w).0 ≡ ok pools
      → get_name_to_pool control w ≡ (ok kept, w')
      → lookup s kept ≡ first_pool (pools_of_name s pools)
  unfolding get_name_to_pool classify_pool_by_pool_name
  get_name_to_pool_keeps_first s w w' pools kept listed h =
      go (delete_dup_pool control (classify_pool_by_pool_name pools) (control.get_all_pools w).1)
        refl
    where
      go :
          (r : List (String × Pool) × Option Error × W)
          → delete_dup_pool control (classify_pool_by_pool_name pools) (control.get_all_pools w).1
            ≡ r
          → lookup s kept ≡ first_pool (pools_of_name s pools)
      go (k, some x, w2) e = cc (rw (listed, e, get_name_to_pool) at h)
      go (k, none, w2) e =
          let found =
            lookup-delete_dup_pool s (classify_from [] pools) (control.get_all_pools w).1 w2 k
              (classify_from-Filled [] pools tt) e in
          let done = ap (λ (r : List (String × Pool) × Option Error × W). r.1) e in
          let same =
            ap (λ (r : Result (List (String × Pool)) × W). r.0)
              (rw (listed, done, get_name_to_pool) at h) in
          let first = ap (λ (r : List (String × Pool) × Option Error × W). r.0) e in
          ground (arith, same, first, found, lookup-classify_from s [] pools)
