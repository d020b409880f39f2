-- ===== src/Deploy/LoadBalancer.antt =====
-- The deploy of a load balancer (internal/usecase/lbc_uc/deploy_lb.go): found by the status, the
-- spec or a name, created, or moved to. What the task's resource is afterwards is given back.
pub mod Requests
pub mod Broken
pub mod Deletes
use vngcloud_load_balancer_c.Base.{
  Bool, true, false, not, ◌&&◌, List, [], ◌∷◌, ◌++◌, Option, none, some, Text, text, ◌==◌, text_eq,
  if◌then◌else◌, get_or, is_set, names,
}
use vngcloud_load_balancer_c.Base.Maps.{Map}
use vngcloud_load_balancer_c.Api.{CreatedCertificate, LoadBalancerConfig}
use vngcloud_load_balancer_c.Cloud.{LoadBalancerEntity}
use vngcloud_load_balancer_c.Deploy.LoadBalancer.Requests.{
  build_create_inter_vpc_load_balancer_request, build_create_load_balancer_request,
}
use vngcloud_load_balancer_c.Errs.{Error, Result, ok, failed}
use vngcloud_load_balancer_c.Patches.{Patch}
use vngcloud_load_balancer_c.Program.{Prog, ◌>>=◌, ◌>>◌, attempt, fail, finish, pure, wrapping}
use vngcloud_load_balancer_c.Program.Calls.{
  Settings, create_inter_load_balancer, create_load_balancer, delete_load_balancer,
  get_load_balancer, get_load_balancer_by_name, patch_status, resize_load_balancer, wait_active,
}
use vngcloud_load_balancer_c.Program.Tags.{ensure_tags}
use vngcloud_load_balancer_c.Status.{
  status_add_load_balancer_id, status_clear_created_resources, status_set_adopted_load_balancer_id,
  status_set_created_load_balancer_id, status_set_retiring_load_balancer,
}
use vngcloud_load_balancer_c.Tags.Wanted.{want_tags}

abbrev pub new_id_obtained : Error
new_id_obtained = Error.requeue_needed (text "new load balancer ID obtained, requeue needed")

-- `deployTags`: the closure makes no calls and keeps no memo.
unfoldable pub deploy_tags : LoadBalancerConfig → Text → Prog (Unit {0})
deploy_tags lbc lb_id =
    ensure_tags lb_id
      (λ current memo. pure ((want_tags lbc lb_id current, lbc.status.created_tags), memo)) tt
    >>= λ r. finish r.0

unfoldable pub sync_status : LoadBalancerEntity → Prog (Unit {0})
sync_status lb = patch_status (Patch.load_balancer lb) >> pure tt

unfoldable pub is_status_error : Error → Bool
is_status_error Error.status_error = true
is_status_error _ = false

module _ (s : Settings) where
  -- The package that is wanted, where it is another one and not scaled by the cloud.
  unfoldable pub deploy_package_id : LoadBalancerConfig → LoadBalancerEntity → Prog (Unit {0})
  deploy_package_id lbc lb =
      let wanted = get_or lbc.spec.package_id [] in
      let resize = do
        resize_load_balancer lb.uuid wanted
        wrapping (text "wait LB " ++ (lb.uuid ++ text " active after resize")) (wait_active lb.uuid)
        pure tt
      in if is_set lbc.spec.package_id && (not (wanted == lb.package_id) && not lb.auto_scalable)
        then resize
        else pure tt

  -- The entity that was passed on, or else a read.
  entity_of : Text → Option LoadBalancerEntity → Prog LoadBalancerEntity
  entity_of lb_id none = get_load_balancer lb_id
  entity_of lb_id (some lb) = pure lb

  ensure_on : LoadBalancerConfig → Text → Option LoadBalancerEntity → Prog Text
  unfolding entity_of
  ensure_on lbc lb_id known = do
    lb ← entity_of lb_id known
    sync_status lb
    active ← wait_active lb_id
    status_add_load_balancer_id (some lb_id) (some active.address)
    deploy_tags lbc lb_id
    deploy_package_id lbc active
    pure lb_id

  unfoldable pub ensure_exist_load_balancer :
      LoadBalancerConfig → Text → Option LoadBalancerEntity → Prog Text
  unfolding ensure_on
  ensure_exist_load_balancer lbc lb_id known =
      if lb_id == []
      then fail (Error.plain (text "load balancer id is empty"))
      else ensure_on lbc lb_id known

  -- A new id asks for another pass.
  requeued : Prog Text → Prog Text
  requeued m = m >> fail new_id_obtained

  unfoldable pub migrate_load_balancer : LoadBalancerConfig → Text → Text → Prog Text
  migrate_load_balancer lbc old_id new_id = do
    adopting ← status_set_adopted_load_balancer_id new_id lbc
    retiring ←
        status_set_retiring_load_balancer
          (some (record {
            id = old_id;
            created_listeners = adopting.status.created_listeners;
            created_pools = adopting.status.created_pools;
            created_tags = adopting.status.created_tags;
          }))
          adopting
    cleared ← status_clear_created_resources retiring
    ensure_exist_load_balancer cleared new_id none

  -- What was created must have an id.
  created_entity : Option LoadBalancerEntity → Prog LoadBalancerEntity
  created_entity none =
      fail (Error.plain (text "load balancer not have UUID after create, need to retry"))
  created_entity (some lb) =
      if lb.uuid == []
      then fail (Error.plain (text "load balancer not have UUID after create, need to retry"))
      else pure lb

  request_load_balancer :
      LoadBalancerConfig → List CreatedCertificate → Prog (Option LoadBalancerEntity)
  request_load_balancer lbc certs =
      let inter = build_create_inter_vpc_load_balancer_request s lbc >>= λ request.
      create_inter_load_balancer request in
      let ordinary = build_create_load_balancer_request s lbc certs >>= λ request.
      create_load_balancer request in
      if names lbc.spec.scheme s.inter_vpc then inter else ordinary

  -- A load balancer that came up broken is forgotten, then deleted.
  discard : Text → Prog Text
  discard lb_id = do
    status_add_load_balancer_id none none
    wrapping (text "delete load balancer " ++ (lb_id ++ text " after status error"))
        (delete_load_balancer lb_id)
    fail (Error.requeue_needed (text "loadbalancer status is error, delete and recreate"))

  after_create : LoadBalancerConfig → Text → Result LoadBalancerEntity → Prog Text
  unfolding discard is_status_error
  after_create lbc lb_id (ok _) = ensure_exist_load_balancer lbc lb_id none
  after_create lbc lb_id (failed e) =
      if is_status_error e
      then discard lb_id
      else fail (Error.wrap (text "wait LB " ++ (lb_id ++ text " active after create")) e)

  unfoldable pub record_created : LoadBalancerConfig → LoadBalancerEntity → Prog Text
  unfolding after_create
  record_created lbc lb = do
    owning ← status_set_created_load_balancer_id lb.uuid lbc
    status_add_load_balancer_id (some lb.uuid) (some lb.address)
    active ← attempt (wait_active lb.uuid)
    after_create owning lb.uuid active

  unfoldable pub create : LoadBalancerConfig → List CreatedCertificate → Prog Text
  unfolding request_load_balancer created_entity
  create lbc certs = do
    reply ← request_load_balancer lbc certs
    lb ← created_entity reply
    record_created lbc lb

  -- Adopted, and asked for another pass.
  adopt : LoadBalancerConfig → Text → Option LoadBalancerEntity → Prog Text
  unfolding requeued
  adopt lbc lb_id known = do
    adopting ← status_set_adopted_load_balancer_id lb_id lbc
    requeued (ensure_exist_load_balancer adopting lb_id known)

  adopt_or_create :
      LoadBalancerConfig → List CreatedCertificate → Option LoadBalancerEntity → Prog Text
  unfolding adopt
  adopt_or_create lbc certs none = create lbc certs
  adopt_or_create lbc certs (some lb) = adopt lbc lb.uuid (some lb)

  by_name_or_create : LoadBalancerConfig → List CreatedCertificate → Prog Text
  unfolding adopt_or_create
  by_name_or_create lbc certs =
      let by_name = get_load_balancer_by_name lbc.spec.load_balancer_name >>= λ found.
      adopt_or_create lbc certs found in
      if lbc.spec.load_balancer_name == [] then create lbc certs else by_name

  -- A deployed load balancer, unless the spec names another one.
  keep_or_migrate : LoadBalancerConfig → Text → Prog Text
  unfolding requeued
  keep_or_migrate lbc lb_id =
      if is_set lbc.spec.load_balancer_id && not (names lbc.spec.load_balancer_id lb_id)
      then requeued (migrate_load_balancer lbc lb_id (get_or lbc.spec.load_balancer_id []))
      else ensure_exist_load_balancer lbc lb_id none

  unfoldable pub deploy_load_balancer : LoadBalancerConfig → List CreatedCertificate → Prog Text
  unfolding keep_or_migrate adopt by_name_or_create
  deploy_load_balancer lbc certs =
      if is_set lbc.status.load_balancer_id
      then keep_or_migrate lbc (get_or lbc.status.load_balancer_id [])
      else if is_set lbc.spec.load_balancer_id
      then adopt lbc (get_or lbc.spec.load_balancer_id []) none
      else by_name_or_create lbc certs
