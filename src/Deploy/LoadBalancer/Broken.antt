-- ===== src/Deploy/LoadBalancer/Broken.antt =====
-- A deploy deletes only a load balancer that it has just created, and that came up broken.
use vngcloud_load_balancer_c.Base.{
  ◌≡◌, refl, ap, Bool, true, false, not, ◌&&◌, [], ◌∷◌, Option, none, some, Text, ◌==◌, text_eq,
  get_or, is_set,
}
use vngcloud_load_balancer_c.Api.{LoadBalancerConfig, LoadBalancerConfigStatus}
use vngcloud_load_balancer_c.Cloud.{
  CreateInterLoadBalancerRequest, CreateLoadBalancerRequest, LoadBalancerEntity,
}
use vngcloud_load_balancer_c.Deploy.LoadBalancer.{
  deploy_package_id, deploy_tags, ensure_exist_load_balancer, ensure_on, entity_of, is_status_error,
  migrate_load_balancer, sync_status,
}
use vngcloud_load_balancer_c.Deploy.LoadBalancer.Requests.Calls.{is_lookup}
use vngcloud_load_balancer_c.Errs.{Error, Result}
use vngcloud_load_balancer_c.Patches.{Patch}
use vngcloud_load_balancer_c.Program.{Call, Prog}
use vngcloud_load_balancer_c.Program.Calls.{Settings}
use vngcloud_load_balancer_c.Program.Histories.{
  Event, Extends, Gives-anything, History, Meets, Meets-weaken, Only-Meets, same,
}
use vngcloud_load_balancer_c.Program.Only.{Only, Only-bind, Only-if, Only-wrapping, calls, ended}
use vngcloud_load_balancer_c.Program.Tags.Calls.{ensure_tags-Only}
use vngcloud_load_balancer_c.Status.{
  status_add_load_balancer_id, status_clear_created_resources, status_set_adopted_load_balancer_id,
  status_set_retiring_load_balancer,
}

-- The load balancer was created in this deploy.
pub data CreatedNow (id : Text) : History → Type 0 where
  ordinary :
      {request : CreateLoadBalancerRequest} {lb : LoadBalancerEntity} {h : History}
      → lb.uuid ≡ id
      → CreatedNow id (Event.event (Call.create_load_balancer request) (Result.ok (some lb)) ∷ h)
  inter_vpc :
      {request : CreateInterLoadBalancerRequest} {lb : LoadBalancerEntity} {h : History}
      → lb.uuid ≡ id
      → CreatedNow id
          (Event.event (Call.create_inter_load_balancer request) (Result.ok (some lb)) ∷ h)
  later : {e : Event} {h : History} → CreatedNow id h → CreatedNow id (e ∷ h)

-- It was created in this deploy, the wait for it ended with its status in error, and the status of
-- the resource has just forgotten it.
pub data Broken (id : Text) : History → Type 0 where
  broken :
      {e : Error} {status : LoadBalancerConfigStatus} {h : History}
      → is_status_error e ≡ true
      → CreatedNow id h
      → Broken id (
          Event.event (Call.patch_status (Patch.load_balancer_id none none)) (Result.ok status)
          ∷ Event.event (Call.wait_active id) (Result.failed e)
          ∷ h)

-- Everything but the delete of a load balancer.
unfoldable pub keeps : Call → Bool
keeps (Call.delete_load_balancer _) = false
keeps _ = true

module _ (s : Settings) where
  -- A delete is of a broken load balancer.
  abbrev pub DeletesBroken : History → Call → Type 0
  DeletesBroken h c = (id : Text) → c ≡ Call.delete_load_balancer id → Broken id h

  pub keeps-DeletesBroken : (h : History) (c : Call) → keeps c ≡ true → DeletesBroken h c
  unfolding keeps
  keeps-DeletesBroken h c e id p = let q : keeps c ≡ false = ap keeps p in cc (q, e)

  pub lookup-DeletesBroken : (h : History) (c : Call) → is_lookup c ≡ true → DeletesBroken h c
  unfolding is_lookup
  lookup-DeletesBroken h c e id p = let q : is_lookup c ≡ false = ap is_lookup p in cc (q, e)

  abbrev Safe : {A : Type 0} → (History → A → Type 0) → History → Prog A → Type 0
  Safe Q h m = Meets DeletesBroken Q h m

  abbrev Anything : {A : Type 0} → History → A → Type 0
  Anything h a = Unit {0}

  pub keeping-Meets : {A : Type 0} (m : Prog A) (h : History) → Only keeps m → Safe Anything h m
  keeping-Meets m h o =
      let x : Extends keeps h h = same in
      Meets-weaken (Only-Meets keeps-DeletesBroken o (Gives-anything m) x) (λ _ _ _. tt)

  deploy_tags-Only : (lbc : LoadBalancerConfig) (lb_id : Text) → Only keeps (deploy_tags lbc lb_id)
  unfolding deploy_tags keeps
  deploy_tags-Only lbc lb_id =
      Only-bind (ensure_tags-Only lb_id _ refl refl (λ _. refl) (λ _. refl) (λ _ _. ended _) tt)
        (λ _. ended _)

  deploy_package_id-Only :
      (lbc : LoadBalancerConfig) (lb : LoadBalancerEntity) → Only keeps (deploy_package_id s lbc lb)
  unfolding deploy_package_id keeps
  deploy_package_id-Only lbc lb =
      Only-if
        (is_set lbc.spec.package_id
          && (not (get_or lbc.spec.package_id [] == lb.package_id) && not lb.auto_scalable))
        (λ _.
          Only-bind (calls refl (λ r. ended r))
            (λ _. Only-bind (Only-wrapping _ (calls refl (λ r. ended r))) (λ _. ended _)))
        (λ _. ended _)

  entity_of-Only : (lb_id : Text) (o : Option LoadBalancerEntity) → Only keeps (entity_of s lb_id o)
  unfolding entity_of keeps
  entity_of-Only lb_id none = calls refl (λ r. ended r)
  entity_of-Only lb_id (some lb) = ended _

  pub ensure_exist-Only :
      (lbc : LoadBalancerConfig) (lb_id : Text) (o : Option LoadBalancerEntity)
      → Only keeps (ensure_exist_load_balancer s lbc lb_id o)
  unfolding ensure_exist_load_balancer ensure_on sync_status status_add_load_balancer_id keeps
  ensure_exist-Only lbc lb_id o =
      Only-if (lb_id == []) (λ _. ended _)
        (λ _. Only-bind (entity_of-Only lb_id o) (λ lb.
          Only-bind (Only-bind (calls refl (λ r. ended r)) (λ _. ended _)) (λ _.
            Only-bind (calls refl (λ r. ended r)) (λ active.
              Only-bind (Only-bind (calls refl (λ r. ended r)) (λ _. ended _)) (λ _.
                Only-bind (deploy_tags-Only lbc lb_id)
                  (λ _. Only-bind (deploy_package_id-Only lbc active) (λ _. ended _)))))))

  pub migrate-Only :
      (lbc : LoadBalancerConfig) (old new : Text) → Only keeps (migrate_load_balancer s lbc old new)
  unfolding migrate_load_balancer status_set_adopted_load_balancer_id
      status_set_retiring_load_balancer status_clear_created_resources keeps
  migrate-Only lbc old new = Only-bind (Only-bind (calls refl (λ r. ended r)) (λ _. ended _)) (λ a.
      Only-bind (Only-bind (calls refl (λ r. ended r)) (λ _. ended _)) (λ b.
        Only-bind (Only-bind (calls refl (λ r. ended r)) (λ _. ended _))
          (λ c. ensure_exist-Only c new none)))
