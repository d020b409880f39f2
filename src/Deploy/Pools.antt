-- ===== src/Deploy/Pools.antt =====
-- The deploy of pools: deployPools and deployPool (internal/usecase/lbc_uc/deploy_pool.go).
pub mod Requests
pub mod Held
pub mod Records
pub mod Complete
use vngcloud_load_balancer_c.Base.{
  Bool, true, false, not, List, [], ◌∷◌, ◌++◌, map, Option, none, some, Text, text, ◌==◌, text_eq,
  find?, if◌then◌else◌,
}
use vngcloud_load_balancer_c.Api.{CreatedPool, LoadBalancerConfig, Pool, PoolMember}
use vngcloud_load_balancer_c.Cloud.{
  HealthMonitor, LoadBalancerEntity, MemberEntity, PoolEntity, UpdatePoolRequest,
}
use vngcloud_load_balancer_c.Errs.{Error, Result, error_text, ok, failed}
use vngcloud_load_balancer_c.Members.{compare_pool_members, merge_pool_members, sent_member}
use vngcloud_load_balancer_c.Deploy.Pools.Requests.{
  build_create_pool_request, build_pool_update_request,
}
use vngcloud_load_balancer_c.Program.{Prog, ◌>>=◌, ◌>>◌, attempt, fail, finish, pure, wrapping}
use vngcloud_load_balancer_c.Program.Calls.{
  Settings, create_pool, get_pool_health_monitor, get_pool_members, list_pools, update_pool,
  update_pool_members, wait_active,
}
use vngcloud_load_balancer_c.Status.{status_add_pool, status_add_pool_member}
use vngcloud_load_balancer_c.Teardown.{convert_member}
use vngcloud_load_balancer_c.Teardown.Busy.{retry_write}
use vngcloud_load_balancer_c.Teardown.Failures.{collect_failure, join_errors}

abbrev pub partial_deploy : Error
partial_deploy = Error.plain (text "some pools could not be deployed")

-- The members recorded for the first pool of that name.
unfoldable pub recorded_members : Text → List CreatedPool → List PoolMember
recorded_members name pools = elim (find? (λ (p : CreatedPool). p.name == name) pools) [
  | none ↦ []
  | some p ↦ p.created_members
]

-- What a deployed pool is recorded as.
unfoldable pub deployed : Pool → Text → Text → CreatedPool
deployed pool id name = record { id = id; name = name; created_members = pool.members }

-- `fmt.Errorf("…: %v", err)`: the text of the error, and not the error.
unfoldable pub health_error : Settings → Text → Error → Error
health_error s id e = Error.plain (
    text "failed to get health monitor for pool "
    ++ (id ++ (text ": " ++ error_text s.show_duration e)))

module _ (s : Settings) (lbc : LoadBalancerConfig) (lb_id : Text) where
  pub create_new_pool : Pool → Prog CreatedPool
  create_new_pool pool = do
    created ←
        retry_write s lb_id
          (create_pool lb_id (build_create_pool_request s lbc.spec.type lb_id pool))
    status_add_pool_member created.uuid pool.name pool.members
    wait_active lb_id
    pure (deployed pool created.uuid pool.name)

  -- The settings of the pool, if they differ.
  pub update_settings : Text → Option UpdatePoolRequest → Prog (Unit {0})
  update_settings id none = pure tt
  update_settings id (some request) = do
    wrapping (text "update pool " ++ (id ++ (text " on LB " ++ lb_id)))
        (retry_write s lb_id (update_pool lb_id id request))
    wrapping (text "wait LB " ++ (lb_id ++ (text " active after updating pool " ++ id)))
        (wait_active lb_id)
    pure tt

  send_members : Text → List PoolMember → Prog (Unit {0})
  send_members id members = do
    wrapping (text "update members of pool " ++ (id ++ (text " on LB " ++ lb_id)))
        (retry_write s lb_id (update_pool_members lb_id id (map sent_member members)))
    wrapping (text "wait LB " ++ (lb_id ++ (text " active after updating members of pool " ++ id)))
        (wait_active lb_id)
    pure tt

  -- The members, from the current ones.
  pub ensure_members : Pool → Text → List MemberEntity → Prog (Unit {0})
  unfolding send_members recorded_members convert_member
  ensure_members pool id members =
      let current = map convert_member members in
      let merged =
        merge_pool_members (recorded_members pool.name lbc.status.created_pools) current
          pool.members in
      if compare_pool_members merged current then pure tt else send_members id merged

  pub health_of : Text → Result HealthMonitor → Prog HealthMonitor
  unfolding health_error
  health_of id (ok monitor) = pure monitor
  health_of id (failed e) = fail (health_error s id e)

  update_found_pool : Pool → PoolEntity → Prog CreatedPool
  unfolding update_settings ensure_members health_of
  update_found_pool pool current = do
    status_add_pool current.uuid current.name
    read ← attempt (get_pool_health_monitor lb_id current.uuid)
    monitor ← health_of current.uuid read
    update_settings current.uuid
        (build_pool_update_request s lbc.spec.type lb_id pool current monitor)
    members ←
        wrapping (text "get members of pool " ++ (current.uuid ++ (text " on LB " ++ lb_id)))
          (get_pool_members lb_id current.uuid)
    ensure_members pool current.uuid members
    status_add_pool_member current.uuid current.name pool.members
    pure (deployed pool current.uuid current.name)

  deploy_on : Pool → Option PoolEntity → Prog CreatedPool
  unfolding create_new_pool update_found_pool
  deploy_on pool none = create_new_pool pool
  deploy_on pool (some current) = update_found_pool pool current

  unfoldable pub deploy_pool : Pool → List PoolEntity → Prog CreatedPool
  unfolding deploy_on
  deploy_pool pool current_pools =
      deploy_on pool (find? (λ (p : PoolEntity). p.name == pool.name) current_pools)

  -- The outcome of a pool before those of the others.
  collect_pool : Result CreatedPool → List CreatedPool × List Error → List CreatedPool × List Error
  collect_pool (ok p) (pools, es) = (p ∷ pools, es)
  collect_pool (failed e) (pools, es) = (pools, e ∷ es)

  -- The loop: a failure does not stop the others.
  deploy_each : List PoolEntity → List Pool → Prog (List CreatedPool × List Error)
  unfolding deploy_pool collect_pool
  deploy_each current [] = pure ([], [])
  deploy_each current (p ∷ pools) = do
    r ← attempt (wrapping (text "pool " ++ p.name) (deploy_pool p current))
    rest ← deploy_each current pools
    pure (collect_pool r rest)

  -- The list comes with the error, if pools failed.
  conclude : List CreatedPool × List Error → List CreatedPool × Option Error
  unfolding join_errors
  conclude (pools, []) = (pools, none)
  conclude (pools, e ∷ es) =
      (pools, some (Error.joined (text ": ") partial_deploy (join_errors e es)))

  -- After the list of the pools that are there.
  deploy_listed : Result (List PoolEntity) → Prog (List CreatedPool × Option Error)
  unfolding deploy_each conclude
  deploy_listed (failed e) = pure ([], some e)
  deploy_listed (ok current) = do
    outcome ← deploy_each current lbc.spec.pools
    pure (conclude outcome)

  unfoldable pub deploy_pools : Prog (List CreatedPool × Option Error)
  unfolding deploy_listed
  deploy_pools = attempt (list_pools lb_id) >>= deploy_listed
