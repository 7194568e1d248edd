-- ===== src/Ingress/Steps/Conditions.antt =====
-- The pools that the status names, after the steps that add and remove them.
use yurt_app_manager.Prelude.{
  ℕ, suc, ◌+◌, ◌-◌, ◌≤◌, Bool, true, false, none, some, List, [], ◌∷◌, ◌++◌, ◌==◌, ◌&&◌, not,
  String, ok, items, has, ltb, add32, if◌then◌else◌, ◌≡◌, refl, sym, ap, ◌∙◌, arith, eq_iff,
  Option-cases, inl, inr,
}
use yurt_app_manager.Ingress.{
  IngressPool, IngressNotReadyPool, Status, YurtIngress, pool_named, unknown_in, pools_of,
  get_pools, get_current_pools, remove_ready, remove_not_ready, remove_pool_from_condition,
}
use yurt_app_manager.Ingress.PoolsDiff.{pool_names, pool_named-has}
use yurt_app_manager.Ingress.Steps.{
  Write, Cluster, add_each, add_pools, remove_each, remove_pools, is_nil, no_current_pools,
  create_specific, delete_specific, create_common, delete_common,
}
use yurt_app_manager.Writes.{
  Server, pure, send, pure-eq-ok, and_then-eq-ok, >>-eq-ok, send-then-eq-ok, ◌>>=◌, ◌>>◌,
}

-- How often a name stands in a list of pools.
abbrev count : String → List IngressPool → ℕ
count s [] = 0
count s (p ∷ ps) = let rest = count s ps in if p.name == s then suc rest else rest

abbrev pub current_of : Status → List IngressPool
current_of status = items status.ready_pools ++ pools_of (items status.not_ready_pools)

count-append : (s : String) (l m : List IngressPool) → count s (l ++ m) ≡ count s l + count s m
count-append s [] m = omega arith
count-append s (p ∷ l) m = ground (arith, count-append s l m)

count-pools_of-append :
    (s : String) (l m : List IngressNotReadyPool)
    → count s (pools_of (l ++ m)) ≡ count s (pools_of l) + count s (pools_of m)
count-pools_of-append s [] m = omega arith
count-pools_of-append s (p ∷ l) m = ground (arith, count-pools_of-append s l m)

has-pool_names : (s : String) (l : List IngressPool) → has s (pool_names l) ≡ ltb 0 (count s l)
has-pool_names s [] = refl
has-pool_names s (p ∷ l) = ground (arith, has-pool_names s l)

abbrev one_if : Bool → ℕ
one_if true = 1
one_if false = 0

-- A name that is found stands there, one that is not does not.
count-pool_named-none :
    (s n : String) (l : List IngressPool) → pool_named n l ≡ none → (n == s) ≡ true → count s l ≡ 0
count-pool_named-none s n [] h e = refl
count-pool_named-none s n (p ∷ l) h e =
    ground (arith, count-pool_named-none s n l, eq_iff n s, eq_iff p.name n, eq_iff p.name s)

count-pool_named-some :
    (s n : String) (l : List IngressPool) (p : IngressPool)
    → pool_named n l ≡ some p
    → one_if (n == s) ≤ count s l
count-pool_named-some s n [] p h = cc
count-pool_named-some s n (q ∷ l) p h =
    ground (arith, count-pool_named-some s n l p, eq_iff n s, eq_iff q.name n, eq_iff q.name s)

count-remove_ready :
    (s n : String) (l : List IngressPool) → count s (remove_ready n l) ≡ count s l - one_if (n == s)
count-remove_ready s n [] = ground arith
count-remove_ready s n (p ∷ l) =
    ground (arith, count-remove_ready s n l, eq_iff p.name n, eq_iff p.name s, eq_iff n s)

count-remove_not_ready :
    (s n : String) (l : List IngressNotReadyPool)
    → count s (pools_of (remove_not_ready n l)) ≡ count s (pools_of l) - one_if (n == s)
count-remove_not_ready s n [] = ground arith
count-remove_not_ready s n (p ∷ l) =
    ground
      (arith, count-remove_not_ready s n l, eq_iff p.pool.name n, eq_iff p.pool.name s, eq_iff n s)

count-remove_pool_from_condition :
    (s n : String) (status : Status)
    → count s (current_of (remove_pool_from_condition status n).0)
      ≡ count s (current_of status) - one_if (n == s)
unfolding remove_pool_from_condition
count-remove_pool_from_condition s n status =
    elim (Option-cases (pool_named n (items status.ready_pools))) [
      | inr (p, e) ↦
          rw (e, remove_pool_from_condition)
            (omega (
              arith,
              count-append s (remove_ready n (items status.ready_pools))
                  (pools_of (items status.not_ready_pools)),
              count-append s (items status.ready_pools) (pools_of (items status.not_ready_pools)),
              count-remove_ready s n (items status.ready_pools),
              count-pool_named-some s n (items status.ready_pools) p e,
            ))
      | inl e ↦ elim (Option-cases (pool_named n (pools_of (items status.not_ready_pools)))) [
        | inr (p, f) ↦
            rw (e, f, remove_pool_from_condition)
              (ground (
                arith,
                count-append s (items status.ready_pools)
                    (pools_of (remove_not_ready n (items status.not_ready_pools))),
                count-append s (items status.ready_pools) (pools_of (items status.not_ready_pools)),
                count-remove_not_ready s n (items status.not_ready_pools),
                count-pool_named-none s n (items status.ready_pools) e,
              ))
        | inl f ↦
            rw (e, f, remove_pool_from_condition)
              (ground (
                arith,
                count-append s (items status.ready_pools) (pools_of (items status.not_ready_pools)),
                count-pool_named-none s n (items status.ready_pools) e,
                count-pool_named-none s n (pools_of (items status.not_ready_pools)) f,
              ))
      ]
    ]

count-unknown_in :
    (s : String) (others l : List IngressPool)
    → count s (unknown_in others l) ≡ (if ltb 0 (count s others) then 0 else count s l)
count-unknown_in s others [] = ground arith
count-unknown_in s others (p ∷ l) = ground (
  arith,
  count-unknown_in s others l,
  eq_iff p.name s,
  pool_named-has p.name others,
  has-pool_names p.name others,
)

module _ (answer : Server Write) (cluster : Cluster) where
  count-add_each :
      (s : String) (pools : List IngressPool) (status done : Status) (log end : List Write)
      → add_each answer cluster pools status log ≡ (ok done, end)
      → count s (current_of done) ≡ count s (current_of status) + count s pools
  unfolding add_each
  count-add_each s [] status done log end h =
      ap (λ r. count s (current_of r)) (sym (pure-eq-ok status log h)) ∙ omega arith
  count-add_each s (p ∷ ps) status done log end h =
      let next : Status = record status {
        not_ready_pools =
            some (items status.not_ready_pools ++ record { pool = p; info = none } ∷ []);
        unready_num = add32 status.unready_num 1;
      } in
      ground (
        arith,
        count-add_each s ps next done (log ++ create_specific p ∷ []) end
            (send-then-eq-ok answer (create_specific p) (add_each answer cluster ps next) log h),
        count-append s (items status.ready_pools) (pools_of (items next.not_ready_pools)),
        count-append s (items status.ready_pools) (pools_of (items status.not_ready_pools)),
        count-pools_of-append s (items status.not_ready_pools)
            (record { pool = p; info = none } ∷ []),
      )

  count-remove_each :
      (s : String) (pools : List IngressPool) (status done : Status) (log end : List Write)
      → remove_each answer cluster false pools status log ≡ (ok done, end)
      → count s (current_of done) ≡ count s (current_of status) - count s pools
  unfolding remove_each
  count-remove_each s [] status done log end h =
      ap (λ r. count s (current_of r)) (sym (pure-eq-ok status log h)) ∙ omega arith
  count-remove_each s (p ∷ ps) status done log end h = ground (
    arith,
    count-remove_each s ps (remove_pool_from_condition status p.name).0 done
        (log ++ delete_specific p.name false ∷ []) end
        (send-then-eq-ok answer (delete_specific p.name false)
          (remove_each answer cluster false ps (remove_pool_from_condition status p.name).0) log h),
    count-remove_pool_from_condition s p.name status,
  )

  count-remove_some :
      (s : String) (pools : List IngressPool) (status done : Status) (log end : List Write)
      (none_desired : Bool)
      → none_desired ≡ false
      → remove_each answer cluster none_desired pools status log ≡ (ok done, end)
      → count s (current_of done) ≡ count s (current_of status) - count s pools
  count-remove_some s pools status done log end true e h = cc
  count-remove_some s pools status done log end false e h =
      count-remove_each s pools status done log end h

  -- Where the spec has pools, the status is not cleared at the end.
  kept_eq :
      (none_desired : Bool) (removed done : Status) (log end : List Write)
      → none_desired ≡ false
      → (if none_desired && cluster.is_only
            then send answer delete_common
              >> pure (record removed {
                ready_pools = none;
                not_ready_pools = none;
                ready_num = 0;
                unready_num = 0;
              })
            else pure removed)
          log
        ≡ (ok done, end)
      → removed ≡ done
  kept_eq true removed done log end e h = cc
  kept_eq false removed done log end e h = pure-eq-ok removed log h

  count-add_pools :
      (s : String) (ying : YurtIngress) (pools : List IngressPool) (done : Status)
      (log end : List Write)
      → add_pools answer cluster ying pools log ≡ (ok done, end)
      → count s (current_of done) ≡ count s (current_of ying.status) + count s pools
  unfolding add_pools
  count-add_pools s ying [] done log end h = count-add_each s [] ying.status done log end h
  count-add_pools s ying (p ∷ ps) done log end h =
      let (mid, _, rest) =
        >>-eq-ok
          (if no_current_pools answer cluster ying.status && not cluster.is_ingress_namespace_ready
            then send answer create_common
            else pure tt)
          (add_each answer cluster (p ∷ ps) ying.status) log h in
      count-add_each s (p ∷ ps) ying.status done mid end rest

  count-remove_pools :
      (s : String) (ying : YurtIngress) (desired pools : List IngressPool) (status done : Status)
      (log end : List Write)
      → ying.pools ≡ some desired
      → remove_pools answer cluster ying pools status log ≡ (ok done, end)
      → count s (current_of done) ≡ count s (current_of status) - count s pools
  unfolding remove_pools
  count-remove_pools s ying desired [] status done log end e h =
      count-remove_each s [] status done log end h
  count-remove_pools s ying desired (p ∷ ps) status done log end e h =
      let run = remove_each answer cluster (is_nil ying.pools) (p ∷ ps) status log in
      let (removed, first, rest) =
        and_then-eq-ok run.0
          (λ removed.
            if is_nil ying.pools && cluster.is_only
            then send answer delete_common
              >> pure (record removed {
                ready_pools = none;
                not_ready_pools = none;
                ready_num = 0;
                unready_num = 0;
              })
            else pure removed)
          run.1 h in
      sym (
        ap (λ r. count s (current_of r))
          (kept_eq (is_nil ying.pools) removed done run.1 end (rw (e) refl) rest))
      ∙ count-remove_some s (p ∷ ps) status removed log run.1 (is_nil ying.pools) (rw (e) refl)
          (λ i. (first i, run.1))

-- When the steps that add and remove pools succeed, for an ingress whose list of pools is given, the
-- status names a pool, as ready or as not ready, if and only if the spec does.
pub add_pools-remove_pools :
    (answer : Server Write) (cluster : Cluster) (ying : YurtIngress) (desired : List IngressPool)
    (log end : List Write) (done : Status) (s : String)
    → ying.pools ≡ some desired
    → (add_pools answer cluster ying (get_pools desired (get_current_pools ying)).0 >>= λ status.
          remove_pools answer cluster ying (get_pools desired (get_current_pools ying)).1 status)
        log
      ≡ (ok done, end)
    → has s (pool_names (current_of done)) ≡ has s (pool_names desired)
unfolding get_pools get_current_pools
add_pools-remove_pools answer cluster ying desired log end done s e h =
    let added = unknown_in (current_of ying.status) desired in
    let removed = unknown_in desired (current_of ying.status) in
    let (status, first, rest) =
      and_then-eq-ok (add_pools answer cluster ying added log).0
        (remove_pools answer cluster ying removed) (add_pools answer cluster ying added log).1 h in
    ground (
      arith,
      count-add_pools answer cluster s ying added status log
          (add_pools answer cluster ying added log).1
          (λ i. (first i, (add_pools answer cluster ying added log).1)),
      count-remove_pools answer cluster s ying desired removed status done
          (add_pools answer cluster ying added log).1 end e rest,
      count-unknown_in s (current_of ying.status) desired,
      count-unknown_in s desired (current_of ying.status),
      has-pool_names s (current_of done),
      has-pool_names s desired,
    )
