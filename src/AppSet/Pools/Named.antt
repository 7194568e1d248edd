-- ===== src/AppSet/Pools/Named.antt =====
-- The pools that getNameToPool returns stand under their own names.
use yurt_app_manager.Prelude.{
  List, [], ◌∷◌, ◌++◌, ◌==◌, String, Result, ok, err, panic, All, All-append, items, lookup, insert,
  without, ◌≡◌, refl, subst, ap, arith, eq_iff, Bool-cases, Option-cases, inl, inr,
}
use yurt_app_manager.AppSet.Types.{Pool}
use yurt_app_manager.AppSet.Pools.{
  ControlInterface, classify_from, classify_pool_by_pool_name, delete_all, delete_dup_pool,
  get_name_to_pool,
}

abbrev pub IsNamed : List (String × Pool) → Type 0
IsNamed [] = Unit
IsNamed ((s, p) ∷ m) = (p.name ≡ s) × IsNamed m

-- The pools that are classified under a name have that name.
abbrev Classed : List (String × List Pool) → Type 0
Classed [] = Unit
Classed ((s, ps) ∷ m) = All (λ p. p.name ≡ s) ps × Classed m

without-Classed : (s : String) (m : List (String × List Pool)) → Classed m → Classed (without s m)
without-Classed s [] c = tt
without-Classed s ((t, ps) ∷ m) c = ground (arith, without-Classed s m c.1)

lookup-Classed :
    (s : String) (m : List (String × List Pool))
    → Classed m
    → All (λ p. p.name ≡ s) (items (lookup s m))
lookup-Classed s [] c = tt
lookup-Classed s ((t, ps) ∷ m) c = elim (Bool-cases (t == s)) [
  | inl e ↦ rw e (subst (λ x. All (λ p. p.name ≡ x) ps) ((eq_iff t s).0 e) c.0)
  | inr e ↦ rw e (lookup-Classed s m c.1)
]

classify_from-Classed :
    (m : List (String × List Pool)) (ps : List Pool) → Classed m → Classed (classify_from m ps)
unfolding classify_from
classify_from-Classed m [] c = c
classify_from-Classed m (p ∷ ps) c =
    classify_from-Classed (insert p.name (items (lookup p.name m) ++ p ∷ []) m) ps (
      All-append (λ q. q.name ≡ p.name) (items (lookup p.name m)) (p ∷ [])
          (lookup-Classed p.name m c) (refl, tt),
      without-Classed p.name m c,
    )

module _ {W : Type 0} (control : ControlInterface W) where
  delete_dup_pool-IsNamed :
      (m : List (String × List Pool)) (w : W) → Classed m → IsNamed (delete_dup_pool control m w).0
  unfolding delete_dup_pool
  delete_dup_pool-IsNamed [] w c = tt
  delete_dup_pool-IsNamed ((s, []) ∷ m) w c = delete_dup_pool-IsNamed m w c.1
  delete_dup_pool-IsNamed ((s, p ∷ ps) ∷ m) w c = elim (Option-cases (delete_all control ps w).0) [
    | inl e ↦
        rw (e, delete_dup_pool) (c.0.0, delete_dup_pool-IsNamed m (delete_all control ps w).1 c.1)
    | inr (x, e) ↦ rw (e, delete_dup_pool) tt
  ]

  -- The pools that getNameToPool returns, when it succeeds, stand under their own names.
  pub get_name_to_pool-IsNamed :
      (w w' : W) (kept : List (String × Pool))
      → get_name_to_pool control w ≡ (ok kept, w')
      → IsNamed kept
  unfolding get_name_to_pool classify_pool_by_pool_name
  get_name_to_pool-IsNamed w w' kept h = of_pools (control.get_all_pools w).0 refl
    where
      pools_of : Result (List (String × Pool)) × W → List (String × Pool)
      pools_of (ok found, v) = found
      pools_of (_, v) = []

      of_pools : (r : Result (List Pool)) → (control.get_all_pools w).0 ≡ r → IsNamed kept
      of_pools (err x) e = cc (rw (e, get_name_to_pool) at h)
      of_pools panic e = cc (rw (e, get_name_to_pool) at h)
      of_pools (ok ps) e =
          let mapping = classify_from [] ps in
          let w1 = (control.get_all_pools w).1 in
          elim (Option-cases (delete_dup_pool control mapping w1).1) [
            | inl f ↦
                subst IsNamed (ap pools_of (rw (e, f, get_name_to_pool) at h))
                  (delete_dup_pool-IsNamed mapping w1 (classify_from-Classed [] ps tt))
            | inr (x, f) ↦ cc (rw (e, f, get_name_to_pool) at h)
          ]
