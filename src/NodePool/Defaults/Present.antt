-- ===== src/NodePool/Defaults/Present.antt =====
-- That the default pools are there once createDefaultNodePool has run.
use yurt_app_manager.Prelude.{
  ℕ, zero, suc, Bool, true, false, Option, none, some, String, Error, ◌≡◌, ◌⊎◌, Option-cases,
  Bool-cases, inl, inr,
}
use yurt_app_manager.NodePool.Types.{NodePoolType, NodePool}
use yurt_app_manager.NodePool.Defaults.{
  new_pool, attempts, create_node_pool, create_default_node_pool, is_already_exists,
  default_edge_node_pool_name, default_cloud_node_pool_name,
}

-- A server that has a pool once it has created it or says that it exists, and that loses none.
pub record IsLawful {W : Type 0} (present : W → String → Bool)
    (create : NodePool → W → Option Error × W) (sleep : W → W) : Type 0 where
  pub created :
      (p : NodePool) (w : W) → (create p w).0 ≡ none → present (create p w).1 p.name ≡ true
  pub exists :
      (p : NodePool) (w : W) (e : Error)
      → (create p w).0 ≡ some e
      → is_already_exists e ≡ true
      → present (create p w).1 p.name ≡ true
  pub keeps :
      (p : NodePool) (w : W) (s : String) → present w s ≡ true → present (create p w).1 s ≡ true
  pub sleeps : (w : W) (s : String) → present w s ≡ true → present (sleep w) s ≡ true

module _ {W : Type 0} (present : W → String → Bool) (create : NodePool → W → Option Error × W)
    (sleep : W → W) where
  -- All the attempts that are left fail, with another error than that the pool exists.
  abbrev pub AllFail : ℕ → NodePool → W → Type 0
  AllFail zero p w = Unit
  AllFail (suc n) p w =
      ((e : Error) × ((create p w).0 ≡ some e) × (is_already_exists e ≡ false))
      × AllFail n p (sleep (create p w).1)

  module _ (lawful : IsLawful present create sleep) where
    attempts_keep :
        (n : ℕ) (p : NodePool) (w : W) (s : String)
        → present w s ≡ true
        → present (attempts create sleep n p w).1 s ≡ true
    unfolding attempts
    attempts_keep zero p w s h = h
    attempts_keep (suc n) p w s h =
        let kept = lawful.keeps p w s h in
        elim (Option-cases (create p w).0) [
          | inl k ↦ rw (k, attempts) kept
          | inr (e, k) ↦ elim (Bool-cases (is_already_exists e)) [
            | inl j ↦ rw (k, j, attempts) kept
            | inr j ↦
                rw (k, j, attempts)
                  (attempts_keep n p (sleep (create p w).1) s (lawful.sleeps (create p w).1 s kept))
          ]
        ]

    attempts-present :
        (n : ℕ) (p : NodePool) (w : W)
        → (present (attempts create sleep n p w).1 p.name ≡ true) ⊎ AllFail n p w
    unfolding attempts
    attempts-present zero p w = inr tt
    attempts-present (suc n) p w = elim (Option-cases (create p w).0) [
      | inl k ↦ inl (rw (k, attempts) (lawful.created p w k))
      | inr (e, k) ↦ elim (Bool-cases (is_already_exists e)) [
        | inl j ↦ inl (rw (k, j, attempts) (lawful.exists p w e k j))
        | inr j ↦ elim (attempts-present n p (sleep (create p w).1)) [
          | inl there ↦ inl (rw (k, j, attempts) there)
          | inr failed ↦ inr ((e, k, j), failed)
        ]
      ]
    ]

-- Once createDefaultNodePool has run against a server that has a pool when it creates it or says that it
-- exists, and that loses none, each default pool is there, unless all five attempts to create it failed
-- with another error.
pub create_default_node_pool-present :
    {W : Type 0} (present : W → String → Bool) (create : NodePool → W → Option Error × W)
    (sleep : W → W) (w : W)
    → IsLawful present create sleep
    → ((present (create_default_node_pool create sleep w) default_edge_node_pool_name ≡ true)
        ⊎ AllFail present create sleep 5 (new_pool default_edge_node_pool_name NodePoolType.edge) w)
      × ((present (create_default_node_pool create sleep w) default_cloud_node_pool_name ≡ true)
          ⊎ AllFail present create sleep 5
              (new_pool default_cloud_node_pool_name NodePoolType.cloud)
              (create_node_pool create sleep default_edge_node_pool_name NodePoolType.edge w).1)
unfolding create_default_node_pool create_node_pool
create_default_node_pool-present present create sleep w lawful =
    let edge = new_pool default_edge_node_pool_name NodePoolType.edge in
    let cloud = new_pool default_cloud_node_pool_name NodePoolType.cloud in
    let w1 = (attempts create sleep 5 edge w).1 in
    (
      elim (attempts-present present create sleep lawful 5 edge w) [
        | inl there ↦
            inl (
              attempts_keep present create sleep lawful 5 cloud w1 default_edge_node_pool_name
                there)
        | inr failed ↦ inr failed
      ],
      attempts-present present create sleep lawful 5 cloud w1,
    )
