-- ===== src/AppSet/Update/Stay.antt =====
-- Which pools managePoolProvision leaves to be updated.
use yurt_app_manager.Prelude.{
  ℕ, List, [], ◌∷◌, ◌&&◌, String, Error, has, keys, ◌≡◌, refl, arith, eq_iff,
}
use yurt_app_manager.AppSet.Types.{PoolConfig, Pool, YurtAppSetPatches}
use yurt_app_manager.AppSet.Pools.{ControlInterface}
use yurt_app_manager.AppSet.Update.{names_in, config_names, manage_pool_provision}

abbrev pub spec_names : List PoolConfig → List String
spec_names [] = []
spec_names (p ∷ ps) = p.name ∷ spec_names ps

pub has-config_names :
    (s : String) (pools : List PoolConfig) → has s (config_names pools) ≡ has s (spec_names pools)
has-config_names s [] = refl
has-config_names s (p ∷ ps) = ground (arith, has-config_names s ps, eq_iff p.name s)

has-names_in :
    (s : String) (others names : List String)
    → has s (names_in others names) ≡ (has s names && has s others)
has-names_in s others [] = refl
has-names_in s others (n ∷ ns) = ground (arith, has-names_in s others ns, eq_iff n s)

-- Whatever the calls of managePoolProvision answer, and in whatever order they take effect, the names
-- that it leaves to be updated are those of the pools of the spec for which there is a pool already.
pub has-manage_pool_provision :
    {W : Type 0} (control : ControlInterface W) (others : List (ControlInterface W))
    (order : ℕ → ℕ → List ℕ) (sort : List String → List String) (aggregate : List Error → Error)
    (text : Error → String) (s : String) (pools : List PoolConfig)
    (name_to_pool : List (String × Pool)) (next : List (String × YurtAppSetPatches))
    (revision : String) (w : W)
    → has s
        (manage_pool_provision control others order sort aggregate text pools name_to_pool next
          revision w).0
      ≡ (has s (spec_names pools) && has s (keys name_to_pool))
unfolding manage_pool_provision
has-manage_pool_provision control others order sort aggregate text s pools name_to_pool next
      revision w =
    rw (has-names_in s (keys name_to_pool) (config_names pools), has-config_names s pools) refl
