-- ===== src/Deploy/Pools/Held.antt =====
-- Members are recorded as created only once the load balancer holds them.
use vngcloud_load_balancer_c.Base.{
  ◌≡◌, refl, sym, ap, Bool, Bool-cases, inl, inr, true, false, List, [], ◌∷◌, map, Option, none,
  some, Text, ◌==◌, text_eq, In,
}
use vngcloud_load_balancer_c.Api.{LoadBalancerConfig, Pool, PoolMember}
use vngcloud_load_balancer_c.Cloud.{
  CreatePoolRequest, HealthMonitor, LoadBalancerEntity, MemberEntity, PoolEntity, UpdatePoolRequest,
}
use vngcloud_load_balancer_c.Deploy.Pools.{
  create_new_pool, ensure_members, health_of, recorded_members, send_members, update_settings,
}
use vngcloud_load_balancer_c.Deploy.Pools.Requests.{build_create_pool_request}
use vngcloud_load_balancer_c.Errs.{Result, ok, failed}
use vngcloud_load_balancer_c.Members.{
  compare_pool_members, merge_pool_members, pool_member_exists, sent_member,
}
use vngcloud_load_balancer_c.Members.Compared.{compared-holds, merged-holds}
use vngcloud_load_balancer_c.Patches.{Patch}
use vngcloud_load_balancer_c.Program.{Call, Prog, finish, perform, wrapping}
use vngcloud_load_balancer_c.Program.Calls.{Settings}
use vngcloud_load_balancer_c.Program.Histories.{
  Event, History, Meets, Meets-bind, Meets-finish, Meets-reply, Meets-wrapping, makes, returns,
  stops,
}
use vngcloud_load_balancer_c.Status.{status_add_pool, status_add_pool_member}
use vngcloud_load_balancer_c.Teardown.{convert_member}
use vngcloud_load_balancer_c.Teardown.Busy.Outcomes.{retry_write-Meets}

-- The list holds every member that is wanted.
abbrev pub HoldsAll : List PoolMember → List PoolMember → Type 0
HoldsAll members wanted = (m : PoolMember) → In m wanted → pool_member_exists members m ≡ true

-- The load balancer has just shown that the pool holds the wanted members.
pub data Held (lb_id : Text) (wanted : List PoolMember) (id : Text) : History → Type 0 where
  -- The pool has been created with them.
  created :
      {request : CreatePoolRequest} {p : PoolEntity} {h : History}
      → p.uuid ≡ id
      → request.members ≡ map sent_member wanted
      → Held lb_id wanted id (Event.event (Call.create_pool lb_id request) (Result.ok p) ∷ h)
  -- They were among its members.
  found :
      {members : List MemberEntity} {h : History}
      → HoldsAll (map convert_member members) wanted
      → Held lb_id wanted id (Event.event (Call.get_pool_members lb_id id) (Result.ok members) ∷ h)
  -- They have been sent, and the update has settled.
  sent :
      (members : List PoolMember) {lb : LoadBalancerEntity} {u : Unit {0}} {h : History}
      → HoldsAll members wanted
      → Held lb_id wanted id (
          Event.event (Call.wait_active lb_id) (Result.ok lb)
          ∷ Event.event (Call.update_pool_members lb_id id (map sent_member members)) (Result.ok u)
          ∷ h)

-- The call is no record of members.
unfoldable pub no_record : Call → Bool
no_record (Call.patch_status (Patch.pool_members _ _ _)) = false
no_record _ = true

recorded_id : Call → Text
recorded_id (Call.patch_status (Patch.pool_members id _ _)) = id
recorded_id _ = []

members_in : Call → List PoolMember
members_in (Call.patch_status (Patch.pool_members _ _ members)) = members
members_in _ = []

same_record :
    {lb_id i j m n : Text} {ms ns : List PoolMember} {h : History}
    → ◌≡◌ {A = Call}
        (Call.patch_status (Patch.pool_members i m ms))
        (Call.patch_status (Patch.pool_members j n ns))
    → Held lb_id ms i h
    → Held lb_id ns j h
unfolding recorded_id members_in
same_record {i = i} {j = j} {ms = ms} {ns = ns} e held =
    let a : j ≡ i = sym (ap recorded_id e) in
    let b : ns ≡ ms = sym (ap members_in e) in rw (a, b) held

module _ (s : Settings) (lbc : LoadBalancerConfig) (lb_id : Text) where
  -- Members are recorded for a pool that holds them.
  abbrev pub RecordsHeld : History → Call → Type 0
  RecordsHeld h c =
      (id name : Text) (members : List PoolMember)
      → c ≡ Call.patch_status (Patch.pool_members id name members)
      → Held lb_id members id h

  pub other-RecordsHeld : (h : History) (c : Call) → no_record c ≡ true → RecordsHeld h c
  unfolding no_record
  other-RecordsHeld h c e id name members p =
      let q : no_record c ≡ false = ap no_record p in cc (q, e)

  abbrev Safe : {A : Type 0} → (History → A → Type 0) → History → Prog A → Type 0
  Safe Q h m = Meets RecordsHeld Q h m

  abbrev Anything : {A : Type 0} → History → A → Type 0
  Anything h a = Unit {0}

  waits-RecordsHeld : (h : History) → RecordsHeld h (Call.wait_active lb_id)
  unfolding no_record
  waits-RecordsHeld h = other-RecordsHeld h (Call.wait_active lb_id) refl

  wait-Meets :
      (message : Text) (h : History)
      → Safe
          (λ g lb. g ≡ (Event.event (Call.wait_active lb_id) (Result.ok lb) ∷ h))
          h
          (wrapping message (perform (Call.wait_active lb_id) finish))
  wait-Meets message h = Meets-wrapping message (
      makes (waits-RecordsHeld h)
        (Meets-finish (λ r. Event.event (Call.wait_active lb_id) r ∷ h) (λ _. refl)))

  pub record-Meets :
      (id name : Text) (members : List PoolMember) (h : History)
      → Held lb_id members id h
      → Safe Anything h (status_add_pool_member id name members)
  unfolding status_add_pool_member
  record-Meets id name members h held =
      makes (λ i n ms e. same_record e held)
        (Meets-reply
          (λ r. Event.event (Call.patch_status (Patch.pool_members id name members)) r ∷ h)
          (λ _. returns tt))

  pub create_new_pool-Meets :
      (pool : Pool) (h : History) → Safe Anything h (create_new_pool s lbc lb_id pool)
  unfolding create_new_pool build_create_pool_request no_record
  create_new_pool-Meets pool h =
      let request = build_create_pool_request s lbc.spec.type lb_id pool in
      Meets-bind
        (retry_write-Meets {Q = λ h p. Held lb_id pool.members p.uuid h} s lb_id _ waits-RecordsHeld
          (λ h. makes (other-RecordsHeld h (Call.create_pool lb_id request) refl) (
            Meets-finish (λ r. Event.event (Call.create_pool lb_id request) r ∷ h)
              (λ p. created refl refl)))
          h)
        (λ h p held. Meets-bind (record-Meets p.uuid pool.name pool.members h held) (λ h _ _.
          makes (waits-RecordsHeld h)
            (Meets-reply (λ r. Event.event (Call.wait_active lb_id) r ∷ h) (λ _. returns tt))))

  pub update_settings-Meets :
      (id : Text) (request : Option UpdatePoolRequest) (h : History)
      → Safe Anything h (update_settings s lbc lb_id id request)
  unfolding update_settings no_record
  update_settings-Meets id none h = returns tt
  update_settings-Meets id (some request) h =
      Meets-bind
        (Meets-wrapping _ (
          retry_write-Meets {Q = Anything} s lb_id _ waits-RecordsHeld
            (λ h.
              makes (other-RecordsHeld h (Call.update_pool lb_id id request) refl) (
                Meets-finish (λ r. Event.event (Call.update_pool lb_id id request) r ∷ h)
                  (λ _. tt)))
            h))
        (λ h _ _. Meets-bind (wait-Meets _ h) (λ _ _ _. returns tt))

  -- The update of the members, which has just succeeded.
  abbrev Updated : Text → List PoolMember → History → Unit {0} → Type 0
  Updated id members h u =
      (g : History) × (h ≡ (
        Event.event (Call.update_pool_members lb_id id (map sent_member members)) (Result.ok u)
        ∷ g))

  send_members-Meets :
      (id : Text) (members wanted : List PoolMember) (h : History)
      → HoldsAll members wanted
      → Safe (λ h _. Held lb_id wanted id h) h (send_members s lbc lb_id id members)
  unfolding send_members no_record
  send_members-Meets id members wanted h w =
      let update = Call.update_pool_members lb_id id (map sent_member members) in
      Meets-bind
        (Meets-wrapping _ (
          retry_write-Meets {Q = Updated id members} s lb_id _ waits-RecordsHeld
            (λ h.
              makes (other-RecordsHeld h update refl)
                (Meets-finish (λ r. Event.event update r ∷ h) (λ u. (h, refl))))
            h))
        (λ h1 u q. Meets-bind (wait-Meets _ h1) (λ h2 lb e. returns (rw (e, q.1) (sent members w))))

  pub ensure_members-Meets :
      (pool : Pool) (id : Text) (members : List MemberEntity) (h : History)
      → Safe
          (λ h _. Held lb_id pool.members id h)
          (Event.event (Call.get_pool_members lb_id id) (Result.ok members) ∷ h)
          (ensure_members s lbc lb_id pool id members)
  unfolding ensure_members
  ensure_members-Meets pool id members h =
      let current = map convert_member members in
      let recorded = recorded_members pool.name lbc.status.created_pools in
      let merged = merge_pool_members recorded current pool.members in
      elim (Bool-cases (compare_pool_members merged current)) [
        | inl c ↦ rw c (returns (found (λ m i. compared-holds recorded current pool.members m c i)))
        | inr c ↦ rw c (
            send_members-Meets id merged pool.members _
              (λ m i. merged-holds recorded current pool.members m i))
      ]

  pub health_of-Meets :
      (id : Text) (r : Result HealthMonitor) (h : History)
      → Safe Anything h (health_of s lbc lb_id id r)
  unfolding health_of
  health_of-Meets id (ok m) h = returns tt
  health_of-Meets id (failed e) h = stops

  pub status_add_pool-Meets :
      (id name : Text) (h : History) → Safe Anything h (status_add_pool id name)
  unfolding status_add_pool no_record
  status_add_pool-Meets id name h = elim (Bool-cases (id == [])) [
    | inl e ↦ rw e stops
    | inr e ↦ rw e (
        makes (other-RecordsHeld h (Call.patch_status (Patch.pool id name)) refl) (
          Meets-reply (λ r. Event.event (Call.patch_status (Patch.pool id name)) r ∷ h)
            (λ _. returns tt)))
  ]
