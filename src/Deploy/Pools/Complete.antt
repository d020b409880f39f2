-- ===== src/Deploy/Pools/Complete.antt =====
-- The list that a deploy of pools returns.
use vngcloud_load_balancer_c.Base.{
  ◌≡◌, ◌≢◌, ◌<◌, ℕ, suc, length, refl, subst, Bool, Bool-cases, inl, inr, true, List, [], ◌∷◌,
  Option, none, some, Text, ◌==◌, text_eq, text, ◌++◌, text_beq_iff, arith, find?,
}
use vngcloud_load_balancer_c.Api.{CreatedPool, LoadBalancerConfig, Pool}
use vngcloud_load_balancer_c.Cloud.{PoolEntity}
use vngcloud_load_balancer_c.Deploy.Pools.{
  collect_pool, conclude, deploy_listed, create_new_pool, deploy_each, deploy_on, deploy_pool,
  deploy_pools, deployed, update_found_pool, ensure_members, health_of, update_settings,
}
use vngcloud_load_balancer_c.Deploy.Pools.Requests.{
  build_create_pool_request, build_pool_update_request,
}
use vngcloud_load_balancer_c.Teardown.Busy.{retry_write}
use vngcloud_load_balancer_c.Status.{status_add_pool, status_add_pool_member}
use vngcloud_load_balancer_c.Errs.{Error, Result, ok, failed}
use vngcloud_load_balancer_c.Program.{attempt, wrapping}
use vngcloud_load_balancer_c.Program.Calls.{
  Settings, create_pool, get_pool_health_monitor, get_pool_members, wait_active,
}
use vngcloud_load_balancer_c.Program.Histories.{
  Ends, Ends-attempt, Ends-bind, asks, ends, Fits, Gives, Gives-after, Gives-wrapping, gives,
}

-- The record of a pool has its name and members.
abbrev Describes : Pool → CreatedPool → Type 0
Describes pool created = (created.name ≡ pool.name) × (created.created_members ≡ pool.members)

-- One record for each pool, in order.
abbrev pub DescribeAll : List Pool → List CreatedPool → Type 0
DescribeAll [] [] = Unit
DescribeAll (p ∷ pools) (c ∷ created) = Describes p c × DescribeAll pools created
DescribeAll _ _ = ⊥

-- One record for each of so many pools, in order, and none for the others, which are as many as
-- the second number.
pub data DescribeSome : List Pool → List CreatedPool → ℕ → Type 0 where
  no_pools : DescribeSome [] [] 0
  described :
      {p : Pool} {pools : List Pool} {c : CreatedPool} {created : List CreatedPool} {n : ℕ}
      → Describes p c
      → DescribeSome pools created n
      → DescribeSome (p ∷ pools) (c ∷ created) n
  left_out :
      {p : Pool} {pools : List Pool} {created : List CreatedPool} {n : ℕ}
      → DescribeSome pools created n
      → DescribeSome (p ∷ pools) created (suc n)

all_described :
    {pools : List Pool} {created : List CreatedPool}
    → DescribeSome pools created 0
    → DescribeAll pools created
all_described no_pools = tt
all_described (described d ds) = (d, all_described ds)

-- What a deploy returns: records of pools of the spec, in order; of all of them, if no error comes
-- with them, and not of all, if there were any and one does.
abbrev pub Concluded : List Pool → List CreatedPool × Option Error → Type 0
Concluded pools (created, none) = DescribeAll pools created
Concluded pools (created, some e) = (n : ℕ) × DescribeSome pools created n × ((pools ≢ []) → 0 < n)

find?-passes : {A : Type 0} (p : A → Bool) (xs : List A) (a : A) → find? p xs ≡ some a → p a ≡ true
unfolding find?
find?-passes p [] a e = cc
find?-passes p (x ∷ xs) a e = elim (Bool-cases (p x)) [
  | inl b ↦ let s : x ≡ a = ground (arith, b, e) in subst (λ z. p z ≡ true) s b
  | inr b ↦ find?-passes p xs a (ground (arith, b, e))
]

module _ (s : Settings) (lbc : LoadBalancerConfig) (lb_id : Text) where
  create_new_pool-Gives : (pool : Pool) → Gives (Describes pool) (create_new_pool s lbc lb_id pool)
  unfolding create_new_pool deployed
  create_new_pool-Gives pool =
      Gives-after
        (retry_write s lb_id
          (create_pool lb_id (build_create_pool_request s lbc.spec.type lb_id pool)))
        (λ c.
          Gives-after (status_add_pool_member c.uuid pool.name pool.members)
            (λ _. Gives-after (wait_active lb_id) (λ _. gives (refl, refl))))

  update_found_pool-Gives :
      (pool : Pool) (current : PoolEntity)
      → current.name ≡ pool.name
      → Gives (Describes pool) (update_found_pool s lbc lb_id pool current)
  unfolding update_found_pool deployed
  update_found_pool-Gives pool current h =
      let read = get_pool_health_monitor lb_id current.uuid in
      let about = text "get members of pool " ++ (current.uuid ++ (text " on LB " ++ lb_id)) in
      Gives-after (status_add_pool current.uuid current.name) (λ _. Gives-after (attempt read) (λ r.
        Gives-after (health_of s lbc lb_id current.uuid r) (λ monitor.
          Gives-after
            (update_settings s lbc lb_id current.uuid
              (build_pool_update_request s lbc.spec.type lb_id pool current monitor))
            (λ _. Gives-after (wrapping about (get_pool_members lb_id current.uuid)) (λ members.
              Gives-after (ensure_members s lbc lb_id pool current.uuid members) (λ _.
                Gives-after (status_add_pool_member current.uuid current.name pool.members)
                  (λ _. gives (h, refl))))))))

  deploy_on-Gives :
      (pool : Pool) (o : Option PoolEntity)
      → ((current : PoolEntity) → o ≡ some current → current.name ≡ pool.name)
      → Gives (Describes pool) (deploy_on s lbc lb_id pool o)
  unfolding deploy_on
  deploy_on-Gives pool none h = create_new_pool-Gives pool
  deploy_on-Gives pool (some current) h = update_found_pool-Gives pool current (h current refl)

  -- A record for each pool that did not fail.
  abbrev Collected : List Pool → List CreatedPool × List Error → Type 0
  Collected pools (created, es) = DescribeSome pools created (length es)

  collect-Collected :
      (p : Pool) (pools : List Pool) (r : Result CreatedPool) (rest : List CreatedPool × List Error)
      → Fits (Describes p) r
      → Collected pools rest
      → Collected (p ∷ pools) (collect_pool s lbc lb_id r rest)
  unfolding collect_pool
  collect-Collected p pools (ok c) (created, es) d h = described d h
  collect-Collected p pools (failed e) (created, es) d h = left_out h

  deploy_each-Ends :
      (current : List PoolEntity) (pools : List Pool)
      → Ends (Collected pools) (deploy_each s lbc lb_id current pools)
  unfolding deploy_each deploy_pool
  deploy_each-Ends current [] = ends no_pools
  deploy_each-Ends current (p ∷ pools) =
      Ends-bind
        (Ends-attempt (
          Gives-wrapping _ (
            deploy_on-Gives p _ (λ c e.
              let same : (c.name == p.name) ≡ true =
                find?-passes (λ (q : PoolEntity). q.name == p.name) current c e in
              (text_beq_iff c.name p.name).0 same))))
        (λ r d.
          Ends-bind (deploy_each-Ends current pools)
            (λ rest h. ends (collect-Collected p pools r rest d h)))

  conclude-Concluded :
      (pools : List Pool) (o : List CreatedPool × List Error)
      → Collected pools o
      → Concluded pools (conclude s lbc lb_id o)
  unfolding conclude
  conclude-Concluded pools (created, []) h = all_described h
  conclude-Concluded pools (created, e ∷ es) h = (suc (length es), h, λ _. omega arith)

  none_described : (pools : List Pool) → DescribeSome pools [] (length pools)
  none_described [] = no_pools
  none_described (p ∷ pools) = left_out (none_described pools)

  some_left : (pools : List Pool) → pools ≢ [] → 0 < length pools
  some_left [] n = absurd (n refl)
  some_left (p ∷ pools) n = omega arith

  deploy_listed-Ends :
      (r : Result (List PoolEntity)) → Ends (Concluded lbc.spec.pools) (deploy_listed s lbc lb_id r)
  unfolding deploy_listed
  deploy_listed-Ends (failed e) =
      let pools = lbc.spec.pools in ends (length pools, none_described pools, some_left pools)
  deploy_listed-Ends (ok current) =
      Ends-bind (deploy_each-Ends current lbc.spec.pools)
        (λ o h. ends (conclude-Concluded lbc.spec.pools o h))

  -- Whatever is replied, a deploy of pools returns a list with records of pools of the spec, with
  -- their names and members, in order. If no error comes with the list it has one for each pool,
  -- and if an error does and the spec has pools, it leaves out at least one.
  pub deployed_pools_complete : Ends (Concluded lbc.spec.pools) (deploy_pools s lbc lb_id)
  unfolding deploy_pools
  deployed_pools_complete = asks (λ r. deploy_listed-Ends r)
