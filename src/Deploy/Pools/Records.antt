-- ===== src/Deploy/Pools/Records.antt =====
-- The deploy of all pools records members only where they are held.
use vngcloud_load_balancer_c.Base.{refl, List, [], ◌∷◌, Option, none, some, Text, text_eq}
use vngcloud_load_balancer_c.Api.{LoadBalancerConfig, Pool}
use vngcloud_load_balancer_c.Cloud.{PoolEntity}
use vngcloud_load_balancer_c.Deploy.Pools.{
  deploy_listed, deploy_each, deploy_on, deploy_pool, deploy_pools, update_found_pool,
}
use vngcloud_load_balancer_c.Deploy.Pools.Held.{
  RecordsHeld, create_new_pool-Meets, ensure_members-Meets, health_of-Meets, no_record,
  other-RecordsHeld, record-Meets, status_add_pool-Meets, update_settings-Meets,
}
use vngcloud_load_balancer_c.Deploy.Pools.Requests.{build_pool_update_request}
use vngcloud_load_balancer_c.Errs.{Result, ok, failed}
use vngcloud_load_balancer_c.Program.{Call, Prog, finish, ◌>>=◌, wrapping}
use vngcloud_load_balancer_c.Program.Calls.{Settings}
use vngcloud_load_balancer_c.Program.Histories.{
  Event, History, Meets, Meets-attempt, Meets-bind, Meets-wrapping, makes, returns, stops,
}

module _ (s : Settings) (lbc : LoadBalancerConfig) (lb_id : Text) where
  abbrev Safe : {A : Type 0} → History → Prog A → Type 0
  Safe h m = Meets (RecordsHeld s lbc lb_id) (λ _ _. Unit {0}) h m

  -- The reply of the members, and what follows it.
  read_members-Meets :
      {A B : Type 0} (message : Text) (past : Result A → History) (r : Result A) (f : A → Prog B)
      → ((a : A) → Safe (past (Result.ok a)) (f a))
      → Safe (past r) (wrapping message (finish r) >>= f)
  read_members-Meets message past (ok a) f k = k a
  read_members-Meets message past (failed e) f k = stops

  update_found_pool-Meets :
      (pool : Pool) (current : PoolEntity) (h : History)
      → Safe h (update_found_pool s lbc lb_id pool current)
  unfolding update_found_pool no_record
  update_found_pool-Meets pool current h =
      let id = current.uuid in
      Meets-bind (status_add_pool-Meets s lbc lb_id id current.name h) (λ h1 _ _.
        makes (other-RecordsHeld s lbc lb_id h1 (Call.get_pool_health_monitor lb_id id) refl) (λ r.
          Meets-bind (health_of-Meets s lbc lb_id id r _) (λ h2 monitor _.
            Meets-bind
              (update_settings-Meets s lbc lb_id id
                (build_pool_update_request s lbc.spec.type lb_id pool current monitor) h2)
              (λ h3 _ _.
                makes (other-RecordsHeld s lbc lb_id h3 (Call.get_pool_members lb_id id) refl) (λ r.
                  read_members-Meets _ (λ r. Event.event (Call.get_pool_members lb_id id) r ∷ h3) r
                    _
                    (λ members.
                      Meets-bind (ensure_members-Meets s lbc lb_id pool id members h3) (λ h4 _ held.
                        Meets-bind (record-Meets s lbc lb_id id current.name pool.members h4 held)
                          (λ _ _ _. returns tt))))))))

  deploy_on-Meets :
      (pool : Pool) (o : Option PoolEntity) (h : History) → Safe h (deploy_on s lbc lb_id pool o)
  unfolding deploy_on
  deploy_on-Meets pool none h = create_new_pool-Meets s lbc lb_id pool h
  deploy_on-Meets pool (some current) h = update_found_pool-Meets pool current h

  deploy_each-Meets :
      (current : List PoolEntity) (pools : List Pool) (h : History)
      → Safe h (deploy_each s lbc lb_id current pools)
  unfolding deploy_each deploy_pool
  deploy_each-Meets current [] h = returns tt
  deploy_each-Meets current (p ∷ pools) h =
      Meets-bind (Meets-attempt (Meets-wrapping _ (deploy_on-Meets p _ h)))
        (λ h1 r _. Meets-bind (deploy_each-Meets current pools h1) (λ _ _ _. returns tt))

  deploy_listed-Meets :
      (r : Result (List PoolEntity)) (h : History) → Safe h (deploy_listed s lbc lb_id r)
  unfolding deploy_listed
  deploy_listed-Meets (failed e) h = returns tt
  deploy_listed-Meets (ok current) h =
      Meets-bind (deploy_each-Meets current lbc.spec.pools h) (λ _ _ _. returns tt)

  -- Whatever is replied, a deploy of pools records members for a pool only right after the load
  -- balancer has created it with these members, or has listed members that include them, or has
  -- taken an update to members that include them and become active again.
  pub members_recorded_once_held : (h : History) → Safe h (deploy_pools s lbc lb_id)
  unfolding deploy_pools no_record
  members_recorded_once_held h =
      makes (other-RecordsHeld s lbc lb_id h (Call.list_pools lb_id) refl)
        (λ r. deploy_listed-Meets r _)
