-- ===== src/Deploy/LoadBalancer/Deletes.antt =====
-- The deploy of a load balancer, from its start.
use vngcloud_load_balancer_c.Base.{
  ◌≡◌, refl, ap, sym, Bool-cases, inl, inr, true, not, ◌&&◌, List, [], ◌∷◌, Option, none, some,
  Text, ◌==◌, text_eq, is_set, names,
}
use vngcloud_load_balancer_c.Api.{CreatedCertificate, LoadBalancerConfig, LoadBalancerConfigStatus}
use vngcloud_load_balancer_c.Cloud.{LoadBalancerEntity}
use vngcloud_load_balancer_c.Deploy.LoadBalancer.{
  adopt, adopt_or_create, after_create, by_name_or_create, create, created_entity,
  deploy_load_balancer, discard, is_status_error, keep_or_migrate, record_created,
  request_load_balancer, requeued,
}
use vngcloud_load_balancer_c.Deploy.LoadBalancer.Broken.{
  Broken, CreatedNow, DeletesBroken, broken, ensure_exist-Only, inter_vpc, keeping-Meets, keeps,
  keeps-DeletesBroken, later, lookup-DeletesBroken, migrate-Only, ordinary,
}
use vngcloud_load_balancer_c.Deploy.LoadBalancer.Requests.Calls.{
  build_create_inter_vpc_load_balancer_request-Only, build_create_load_balancer_request-Only,
}
use vngcloud_load_balancer_c.Errs.{Error, Result, ok, failed}
use vngcloud_load_balancer_c.Patches.{Patch}
use vngcloud_load_balancer_c.Program.{Call, Prog, finish, perform, ◌>>◌, pure}
use vngcloud_load_balancer_c.Program.Calls.{Settings}
use vngcloud_load_balancer_c.Program.Histories.{
  Event, Extends, Gives-anything, History, Meets, Meets-bind, Meets-finish, Meets-reply,
  Meets-wrapping, Only-Meets, makes, returns, same, stops,
}
use vngcloud_load_balancer_c.Program.Only.{Only, Only-bind, Only-if, calls, ended}
use vngcloud_load_balancer_c.Status.{
  status_add_load_balancer_id, status_set_adopted_load_balancer_id,
  status_set_created_load_balancer_id,
}

module _ (s : Settings) where
  abbrev Safe : {A : Type 0} → (History → A → Type 0) → History → Prog A → Type 0
  Safe Q h m = Meets (DeletesBroken s) Q h m

  abbrev Anything : {A : Type 0} → History → A → Type 0
  Anything h a = Unit {0}

  -- A patch of the status, and what it gives back.
  abbrev Patched : {A : Type 0} → Patch → History → History → A → Type 0
  Patched p h g a =
      (status : LoadBalancerConfigStatus) × (g
        ≡ (Event.event (Call.patch_status p) (Result.ok status) ∷ h))

  send_patch-Meets :
      {A : Type 0} (p : Patch) (a : A) (h : History)
      → Safe (Patched p h) h (perform (Call.patch_status p) finish >> pure a)
  unfolding keeps
  send_patch-Meets p a h = makes (keeps-DeletesBroken s h (Call.patch_status p) refl) (
      Meets-reply (λ r. Event.event (Call.patch_status p) r ∷ h) (λ status. returns (status, refl)))

  deleted_id : Call → Text
  deleted_id (Call.delete_load_balancer id) = id
  deleted_id _ = []

  delete-Meets :
      (id : Text) (h : History)
      → Broken id h
      → Safe Anything h (perform (Call.delete_load_balancer id) finish)
  unfolding deleted_id
  delete-Meets id h q =
      makes (λ j e. let f : j ≡ id = sym (ap deleted_id e) in rw f q)
        (Meets-finish {Q = Anything} (λ r. Event.event (Call.delete_load_balancer id) r ∷ h)
          (λ _. tt))

  -- After the failed wait for a load balancer that was created.
  discard-Meets :
      (id : Text) (e : Error) (h : History)
      → is_status_error e ≡ true
      → CreatedNow id h
      → Safe Anything (Event.event (Call.wait_active id) (Result.failed e) ∷ h) (discard s id)
  unfolding discard status_add_load_balancer_id
  discard-Meets id e h b c =
      Meets-bind (send_patch-Meets (Patch.load_balancer_id none none) tt _) (λ h1 _ q.
        Meets-bind (Meets-wrapping _ (delete-Meets id h1 (rw q.1 (broken b c)))) (λ _ _ _. stops))

  after_create-Meets :
      (lbc : LoadBalancerConfig) (id : Text) (r : Result LoadBalancerEntity) (h : History)
      → CreatedNow id h
      → Safe Anything (Event.event (Call.wait_active id) r ∷ h) (after_create s lbc id r)
  unfolding after_create
  after_create-Meets lbc id (ok _) h c = keeping-Meets s _ _ (ensure_exist-Only s lbc id none)
  after_create-Meets lbc id (failed e) h c = elim (Bool-cases (is_status_error e)) [
    | inl b ↦ rw b (discard-Meets id e h b c)
    | inr b ↦ rw b stops
  ]

  record_created-Meets :
      (lbc : LoadBalancerConfig) (lb : LoadBalancerEntity) (h : History)
      → CreatedNow lb.uuid h
      → Safe Anything h (record_created s lbc lb)
  unfolding record_created status_set_created_load_balancer_id status_add_load_balancer_id keeps
  record_created-Meets lbc lb h c =
      Meets-bind (send_patch-Meets (Patch.created_load_balancer_id lb.uuid) _ h) (λ h1 owning q1.
        Meets-bind
          (send_patch-Meets (Patch.load_balancer_id (some lb.uuid) (some lb.address)) tt h1)
          (λ h2 _ q2.
            makes (keeps-DeletesBroken s h2 (Call.wait_active lb.uuid) refl)
              (λ r. after_create-Meets owning lb.uuid r h2 (rw (q2.1, q1.1) (later (later c))))))

  -- The load balancer of the reply is the one that was created.
  abbrev IsCreated : History → Option LoadBalancerEntity → Type 0
  IsCreated h o = (lb : LoadBalancerEntity) → o ≡ some lb → CreatedNow lb.uuid h

  request_load_balancer-Meets :
      (lbc : LoadBalancerConfig) (certs : List CreatedCertificate) (h : History)
      → Safe IsCreated h (request_load_balancer s lbc certs)
  unfolding request_load_balancer keeps
  request_load_balancer-Meets lbc certs h = elim (Bool-cases (names lbc.spec.scheme s.inter_vpc)) [
    | inl e ↦ rw e (
        let x : Extends _ h h = same in
        Meets-bind
          (Only-Meets (lookup-DeletesBroken s)
            (build_create_inter_vpc_load_balancer_request-Only s lbc) (Gives-anything _) x)
          (λ h1 request _.
            makes (keeps-DeletesBroken s h1 (Call.create_inter_load_balancer request) refl) (
              Meets-finish (λ r. Event.event (Call.create_inter_load_balancer request) r ∷ h1)
                (λ o lb f. rw f (inter_vpc refl)))))
    | inr e ↦ rw e (
        let x : Extends _ h h = same in
        Meets-bind
          (Only-Meets (lookup-DeletesBroken s) (build_create_load_balancer_request-Only s lbc certs)
            (Gives-anything _) x)
          (λ h1 request _.
            makes (keeps-DeletesBroken s h1 (Call.create_load_balancer request) refl) (
              Meets-finish (λ r. Event.event (Call.create_load_balancer request) r ∷ h1)
                (λ o lb f. rw f (ordinary refl)))))
  ]

  created_entity-Meets :
      (o : Option LoadBalancerEntity) (h : History)
      → IsCreated h o
      → Safe (λ h lb. CreatedNow lb.uuid h) h (created_entity s o)
  unfolding created_entity
  created_entity-Meets none h c = stops
  created_entity-Meets (some lb) h c = elim (Bool-cases (lb.uuid == [])) [
    | inl e ↦ rw e stops
    | inr e ↦ rw e (returns (c lb refl))
  ]

  create-Meets :
      (lbc : LoadBalancerConfig) (certs : List CreatedCertificate) (h : History)
      → Safe Anything h (create s lbc certs)
  unfolding create
  create-Meets lbc certs h = Meets-bind (request_load_balancer-Meets lbc certs h) (λ h1 o c.
      Meets-bind (created_entity-Meets o h1 c) (λ h2 lb c. record_created-Meets lbc lb h2 c))

  adopt-Meets :
      (lbc : LoadBalancerConfig) (id : Text) (o : Option LoadBalancerEntity) (h : History)
      → Safe Anything h (adopt s lbc id o)
  unfolding adopt requeued status_set_adopted_load_balancer_id keeps
  adopt-Meets lbc id o h = keeping-Meets s _ h (
      Only-bind (Only-bind (calls refl (λ r. ended r)) (λ _. ended _))
        (λ a. Only-bind (ensure_exist-Only s a id o) (λ _. ended _)))

  adopt_or_create-Meets :
      (lbc : LoadBalancerConfig) (certs : List CreatedCertificate) (o : Option LoadBalancerEntity)
      (h : History)
      → Safe Anything h (adopt_or_create s lbc certs o)
  unfolding adopt_or_create
  adopt_or_create-Meets lbc certs none h = create-Meets lbc certs h
  adopt_or_create-Meets lbc certs (some lb) h = adopt-Meets lbc lb.uuid (some lb) h

  by_name_or_create-Meets :
      (lbc : LoadBalancerConfig) (certs : List CreatedCertificate) (h : History)
      → Safe Anything h (by_name_or_create s lbc certs)
  unfolding by_name_or_create keeps
  by_name_or_create-Meets lbc certs h =
      let ask = Call.get_load_balancer_by_name lbc.spec.load_balancer_name in
      elim (Bool-cases (lbc.spec.load_balancer_name == [])) [
        | inl e ↦ rw e (create-Meets lbc certs h)
        | inr e ↦ rw e (
            makes (keeps-DeletesBroken s h ask refl)
              (Meets-reply (λ r. Event.event ask r ∷ h) (λ o. adopt_or_create-Meets lbc certs o _)))
      ]

  keep_or_migrate-Only :
      (lbc : LoadBalancerConfig) (id : Text) → Only keeps (keep_or_migrate s lbc id)
  unfolding keep_or_migrate requeued
  keep_or_migrate-Only lbc id =
      Only-if (is_set lbc.spec.load_balancer_id && not (names lbc.spec.load_balancer_id id))
        (λ _. Only-bind (migrate-Only s lbc id _) (λ _. ended _))
        (λ _. ensure_exist-Only s lbc id none)

  -- Whatever is replied, the deploy of a load balancer deletes one only if a create call of this
  -- deploy gave its id, the wait for it ended with its status in error, and the next call took its
  -- id out of the status of the resource.
  pub deploy_load_balancer-DeletesBroken :
      (lbc : LoadBalancerConfig) (certs : List CreatedCertificate) (h : History)
      → Meets (DeletesBroken s) (λ _ _. Unit {0}) h (deploy_load_balancer s lbc certs)
  unfolding deploy_load_balancer
  deploy_load_balancer-DeletesBroken lbc certs h =
      elim (Bool-cases (is_set lbc.status.load_balancer_id)) [
        | inl e ↦ rw e (keeping-Meets s _ h (keep_or_migrate-Only lbc _))
        | inr e ↦ rw e (elim (Bool-cases (is_set lbc.spec.load_balancer_id)) [
          | inl f ↦ rw f (adopt-Meets lbc _ none h)
          | inr f ↦ rw f (by_name_or_create-Meets lbc certs h)
        ])
      ]
