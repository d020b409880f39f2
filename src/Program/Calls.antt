-- ===== src/Program/Calls.antt =====
-- Each call as a program of its own, and the settings that programs read.
use vngcloud_load_balancer_c.Base.{ℕ, List, Option, Text}
use vngcloud_load_balancer_c.Base.Maps.{Map}
use vngcloud_load_balancer_c.Acl.{Net}
use vngcloud_load_balancer_c.Api.{LoadBalancerConfig, LoadBalancerConfigStatus}
use vngcloud_load_balancer_c.Cloud.{
  CertificateEntity, PackageEntity, CreateLoadBalancerRequest, CreateInterLoadBalancerRequest,
  CreatePolicyRequest, UpdatePolicyRequest, CreatePoolRequest, HealthMonitor, UpdatePoolRequest,
  MemberRequest, ListenerEntity, ListenerUpdate, LoadBalancerEntity, MemberEntity, PolicyEntity,
  PoolEntity,
}
use vngcloud_load_balancer_c.Patches.{Patch}
use vngcloud_load_balancer_c.Tags.{Tag}
use vngcloud_load_balancer_c.Program.{Call, Prog, perform, finish, pure}

-- The defaults of the configuration (`LoadBalancerOpts`).
pub record PoolDefaults : Type 0 where
  pub healthy_threshold : ℕ
  pub unhealthy_threshold : ℕ
  pub interval : ℕ
  pub timeout : ℕ
  pub algorithm : Text

pub record LoadBalancerDefaults : Type 0 where
  pub scheme : Text
  pub l4_package_name : Text
  pub l7_package_name : Text
  pub user_id : ℕ
  pub timeout_client : ℕ
  pub timeout_member : ℕ
  pub timeout_connection : ℕ

-- Constants of the SDK, libraries of others, and the configuration.
pub record Settings : Type 0 where
  pub layer4 : Text
  pub layer7 : Text
  pub https : Text
  pub check_http : Text  -- `HealthCheckProtocolHTTP`, then HTTPs and TCP
  pub check_https : Text
  pub check_tcp : Text
  pub redirect_to_pool : Text  -- `PolicyActionREDIRECTTOPOOL`, then URL
  pub redirect_to_url : Text
  pub pool_defaults : PoolDefaults
  pub inter_vpc : Text  -- `InterVpcLoadBalancerScheme`
  pub load_balancer_defaults : LoadBalancerDefaults
  pub net : Net
  pub show_duration : ℕ → Text
  pub default_allowed_cidrs : Text

abbrev pub get_load_balancer : Text → Prog LoadBalancerEntity
get_load_balancer lb_id = perform (Call.get_load_balancer lb_id) finish

abbrev pub list_tags : Text → Prog (Option (List (Option Tag)))
list_tags lb_id = perform (Call.list_tags lb_id) finish

abbrev pub invalidate_tags_cache : Text → Prog (Unit {0})
invalidate_tags_cache lb_id = perform (Call.invalidate_tags_cache lb_id) pure

abbrev pub create_tags : Text → Map Text → Prog (Unit {0})
create_tags lb_id tags = perform (Call.create_tags lb_id tags) finish

abbrev pub list_configs : Prog (List LoadBalancerConfig)
list_configs = perform Call.list_configs finish

abbrev pub list_listeners : Text → Prog (List ListenerEntity)
list_listeners lb_id = perform (Call.list_listeners lb_id) finish

abbrev pub list_policies : Text → Text → Prog (List PolicyEntity)
list_policies lb_id listener_id = perform (Call.list_policies lb_id listener_id) finish

abbrev pub list_pools : Text → Prog (List PoolEntity)
list_pools lb_id = perform (Call.list_pools lb_id) finish

abbrev pub get_pool_members : Text → Text → Prog (List MemberEntity)
get_pool_members lb_id pool_id = perform (Call.get_pool_members lb_id pool_id) finish

abbrev pub wait_active : Text → Prog LoadBalancerEntity
wait_active lb_id = perform (Call.wait_active lb_id) finish

abbrev pub delete_load_balancer : Text → Prog (Unit {0})
delete_load_balancer lb_id = perform (Call.delete_load_balancer lb_id) finish

abbrev pub delete_listener : Text → Text → Prog (Unit {0})
delete_listener lb_id listener_id = perform (Call.delete_listener lb_id listener_id) finish

abbrev pub delete_policy : Text → Text → Text → Prog (Unit {0})
delete_policy lb_id listener_id policy_id =
    perform (Call.delete_policy lb_id listener_id policy_id) finish

abbrev pub delete_pool : Text → Text → Prog (Unit {0})
delete_pool lb_id pool_id = perform (Call.delete_pool lb_id pool_id) finish

abbrev pub update_listener : Text → Text → ListenerUpdate → Prog (Unit {0})
update_listener lb_id listener_id update =
    perform (Call.update_listener lb_id listener_id update) finish

abbrev pub update_pool_members : Text → Text → List MemberRequest → Prog (Unit {0})
update_pool_members lb_id pool_id members =
    perform (Call.update_pool_members lb_id pool_id members) finish

abbrev pub create_pool : Text → CreatePoolRequest → Prog PoolEntity
create_pool lb_id request = perform (Call.create_pool lb_id request) finish

abbrev pub update_pool : Text → Text → UpdatePoolRequest → Prog (Unit {0})
update_pool lb_id pool_id request = perform (Call.update_pool lb_id pool_id request) finish

abbrev pub get_pool_health_monitor : Text → Text → Prog HealthMonitor
get_pool_health_monitor lb_id pool_id = perform (Call.get_pool_health_monitor lb_id pool_id) finish

abbrev pub list_certificates : Prog (List CertificateEntity)
list_certificates = perform Call.list_certificates finish

abbrev pub delete_certificate : Text → Prog (Unit {0})
delete_certificate certificate_id = perform (Call.delete_certificate certificate_id) finish

abbrev pub get_load_balancer_by_name : Text → Prog (Option LoadBalancerEntity)
get_load_balancer_by_name name = perform (Call.get_load_balancer_by_name name) finish

abbrev pub list_packages : Text → Prog (List PackageEntity)
list_packages zone_id = perform (Call.list_packages zone_id) finish

abbrev pub get_user_id : Prog ℕ
get_user_id = perform Call.get_user_id pure

abbrev pub create_load_balancer : CreateLoadBalancerRequest → Prog (Option LoadBalancerEntity)
create_load_balancer request = perform (Call.create_load_balancer request) finish

abbrev pub create_inter_load_balancer :
    CreateInterLoadBalancerRequest → Prog (Option LoadBalancerEntity)
create_inter_load_balancer request = perform (Call.create_inter_load_balancer request) finish

abbrev pub resize_load_balancer : Text → Text → Prog (Unit {0})
resize_load_balancer lb_id package_id = perform (Call.resize_load_balancer lb_id package_id) finish

abbrev pub create_policy : Text → Text → CreatePolicyRequest → Prog PolicyEntity
create_policy lb_id listener_id request =
    perform (Call.create_policy lb_id listener_id request) finish

abbrev pub update_policy : Text → Text → Text → UpdatePolicyRequest → Prog (Unit {0})
update_policy lb_id listener_id policy_id request =
    perform (Call.update_policy lb_id listener_id policy_id request) finish

abbrev pub reorder_policies : Text → Text → List Text → Prog (Unit {0})
reorder_policies lb_id listener_id policy_ids =
    perform (Call.reorder_policies lb_id listener_id policy_ids) finish

abbrev pub patch_status : Patch → Prog LoadBalancerConfigStatus
patch_status patch = perform (Call.patch_status patch) finish
