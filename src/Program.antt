-- ===== src/Program.antt =====
-- Programs over the calls of the two repositories (internal/repository/contracts.go): a program
-- makes a call, reads its reply and goes on. Replies are any that the call can have, so that a
-- theorem about a program holds whatever the cloud answers and whatever others do in between.
pub mod Calls
pub mod Only
pub mod Histories
pub mod Tags
use vngcloud_load_balancer_c.Base.{ℕ, Bool, true, false, List, [], ◌∷◌, Option, none, some, Text}
use vngcloud_load_balancer_c.Base.Maps.{Map}
use vngcloud_load_balancer_c.Api.{LoadBalancerConfig, LoadBalancerConfigStatus}
use vngcloud_load_balancer_c.Cloud.{
  CertificateEntity, PackageEntity, CreateLoadBalancerRequest, CreateInterLoadBalancerRequest,
  CreatePolicyRequest, UpdatePolicyRequest, CreatePoolRequest, HealthMonitor, UpdatePoolRequest,
  MemberRequest, ListenerEntity, ListenerUpdate, LoadBalancerEntity, MemberEntity, PolicyEntity,
  PoolEntity,
}
use vngcloud_load_balancer_c.Errs.{Error, Result, ok, failed}
use vngcloud_load_balancer_c.Patches.{Patch}
use vngcloud_load_balancer_c.Tags.{Tag}

pub data Call : Type 0 where
  get_load_balancer : (lb_id : Text) → Call
  list_tags : (lb_id : Text) → Call
  invalidate_tags_cache : (lb_id : Text) → Call
  create_tags : (lb_id : Text) (tags : Map Text) → Call
  list_configs : Call
  list_listeners : (lb_id : Text) → Call
  list_policies : (lb_id listener_id : Text) → Call
  list_pools : (lb_id : Text) → Call
  get_pool_members : (lb_id pool_id : Text) → Call
  wait_active : (lb_id : Text) → Call
  delete_load_balancer : (lb_id : Text) → Call
  delete_listener : (lb_id listener_id : Text) → Call
  delete_policy : (lb_id listener_id policy_id : Text) → Call
  delete_pool : (lb_id pool_id : Text) → Call
  update_listener : (lb_id listener_id : Text) (update : ListenerUpdate) → Call
  update_pool_members : (lb_id pool_id : Text) (members : List MemberRequest) → Call
  create_pool : (lb_id : Text) (request : CreatePoolRequest) → Call
  update_pool : (lb_id pool_id : Text) (request : UpdatePoolRequest) → Call
  get_pool_health_monitor : (lb_id pool_id : Text) → Call
  list_certificates : Call
  delete_certificate : (certificate_id : Text) → Call
  get_load_balancer_by_name : (name : Text) → Call
  list_packages : (zone_id : Text) → Call
  get_user_id : Call
  create_policy : (lb_id listener_id : Text) (request : CreatePolicyRequest) → Call
  update_policy : (lb_id listener_id policy_id : Text) (request : UpdatePolicyRequest) → Call
  reorder_policies : (lb_id listener_id : Text) (policy_ids : List Text) → Call
  create_load_balancer : (request : CreateLoadBalancerRequest) → Call
  create_inter_load_balancer : (request : CreateInterLoadBalancerRequest) → Call
  resize_load_balancer : (lb_id package_id : Text) → Call
  patch_status : (patch : Patch) → Call

-- What a call can reply. A patch replies the fresh status that the mutation ran on.
abbrev pub Reply : Call → Type 0
Reply (Call.get_load_balancer _) = Result LoadBalancerEntity
Reply (Call.list_tags _) = Result (Option (List (Option Tag)))
Reply (Call.invalidate_tags_cache _) = Unit {0}
Reply (Call.create_tags _ _) = Result (Unit {0})
Reply Call.list_configs = Result (List LoadBalancerConfig)
Reply (Call.list_listeners _) = Result (List ListenerEntity)
Reply (Call.list_policies _ _) = Result (List PolicyEntity)
Reply (Call.list_pools _) = Result (List PoolEntity)
Reply (Call.get_pool_members _ _) = Result (List MemberEntity)
Reply (Call.wait_active _) = Result LoadBalancerEntity
Reply (Call.delete_load_balancer _) = Result (Unit {0})
Reply (Call.delete_listener _ _) = Result (Unit {0})
Reply (Call.delete_policy _ _ _) = Result (Unit {0})
Reply (Call.delete_pool _ _) = Result (Unit {0})
Reply (Call.update_listener _ _ _) = Result (Unit {0})
Reply (Call.update_pool_members _ _ _) = Result (Unit {0})
Reply (Call.create_pool _ _) = Result PoolEntity
Reply (Call.update_pool _ _ _) = Result (Unit {0})
Reply (Call.get_pool_health_monitor _ _) = Result HealthMonitor
Reply Call.list_certificates = Result (List CertificateEntity)
Reply (Call.delete_certificate _) = Result (Unit {0})
Reply (Call.get_load_balancer_by_name _) = Result (Option LoadBalancerEntity)
Reply (Call.list_packages _) = Result (List PackageEntity)
Reply Call.get_user_id = ℕ
Reply (Call.create_policy _ _ _) = Result PolicyEntity
Reply (Call.update_policy _ _ _ _) = Result (Unit {0})
Reply (Call.reorder_policies _ _ _) = Result (Unit {0})
Reply (Call.create_load_balancer _) = Result (Option LoadBalancerEntity)
Reply (Call.create_inter_load_balancer _) = Result (Option LoadBalancerEntity)
Reply (Call.resize_load_balancer _ _) = Result (Unit {0})
Reply (Call.patch_status _) = Result LoadBalancerConfigStatus

pub data Prog (A : Type 0) : Type 0 where
  finish : Result A → Prog A
  perform : (c : Call) → (Reply c → Prog A) → Prog A

infixl 5 ◌>>=◌ ◌>>◌
abbrev pub ◌>>=◌ : {A B : Type 0} → Prog A → (A → Prog B) → Prog B
finish (ok a) >>= f = f a
finish (failed e) >>= f = finish (failed e)
perform c k >>= f = perform c (λ r. k r >>= f)

abbrev pub ◌>>◌ : {A B : Type 0} → Prog A → Prog B → Prog B
m >> n = m >>= λ _. n

abbrev pub pure : {A : Type 0} → A → Prog A
pure a = finish (ok a)

abbrev pub fail : {A : Type 0} → Error → Prog A
fail e = finish (failed e)

-- The error as a value.
abbrev pub attempt : {A : Type 0} → Prog A → Prog (Result A)
attempt (finish r) = finish (ok r)
attempt (perform c k) = perform c (λ r. attempt (k r))

-- `fmt.Errorf("…: %w", err)` and `errors.Wrap`.
abbrev pub wrapping : {A : Type 0} → Text → Prog A → Prog A
wrapping message (finish (ok a)) = finish (ok a)
wrapping message (finish (failed e)) = finish (failed (Error.wrap message e))
wrapping message (perform c k) = perform c (λ r. wrapping message (k r))

-- One call.
abbrev pub ask : {A : Type 0} → (c : Call) → (Reply c → Result A) → Prog A
ask c read = perform c (λ r. finish (read r))
