-- ===== src/Ingress/PoolsDiff.antt =====
-- What getPools tells of each pool of the spec and of the status.
use yurt_app_manager.Prelude.{
  true, false, none, some, List, [], ◌∷◌, ◌&&◌, not, String, has, ◌≡◌, refl, arith, eq_iff,
}
use yurt_app_manager.Ingress.{IngressPool, get_pools, known_in, unknown_in, pool_named}

abbrev pub pool_names : List IngressPool → List String
pool_names [] = []
pool_names (p ∷ ps) = p.name ∷ pool_names ps

pub pool_named-has :
    (s : String) (ps : List IngressPool)
    → has s (pool_names ps) ≡ elim (pool_named s ps) [ none ↦ false | some _ ↦ true ]
pool_named-has s [] = refl
pool_named-has s (p ∷ ps) = ground (arith, pool_named-has s ps)

has-unknown_in :
    (s : String) (others ps : List IngressPool)
    → has s (pool_names (unknown_in others ps))
      ≡ (has s (pool_names ps) && not (has s (pool_names others)))
has-unknown_in s others [] = refl
has-unknown_in s others (p ∷ ps) =
    ground (arith, has-unknown_in s others ps, eq_iff p.name s, pool_named-has p.name others)

has-known_in :
    (s : String) (others ps : List IngressPool)
    → has s (pool_names (known_in others ps)) ≡ (has s (pool_names ps) && has s (pool_names others))
has-known_in s others [] = refl
has-known_in s others (p ∷ ps) =
    ground (arith, has-known_in s others ps, eq_iff p.name s, pool_named-has p.name others)

-- getPools: the names of the added pools are those of the spec that the status does not have, the
-- names of the removed ones are those of the status that the spec does not have, and the names of the
-- unchanged ones are those that both have.
pub has-get_pools :
    (s : String) (desired current : List IngressPool)
    → (has s (pool_names (get_pools desired current).0)
        ≡ (has s (pool_names desired) && not (has s (pool_names current))))
      × (has s (pool_names (get_pools desired current).1)
          ≡ (has s (pool_names current) && not (has s (pool_names desired))))
      × (has s (pool_names (get_pools desired current).2)
          ≡ (has s (pool_names desired) && has s (pool_names current)))
unfolding get_pools
has-get_pools s desired current = (
  has-unknown_in s current desired,
  has-unknown_in s desired current,
  has-known_in s current desired,
)
