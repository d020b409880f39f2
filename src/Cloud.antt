-- ===== src/Cloud.antt =====
-- The entities of the VNG Cloud SDK (entityv2), a third-party library: of each, the fields that
-- the controller reads.
use vngcloud_load_balancer_c.Base.{ℕ, Bool, List, Option, Text}

pub record LoadBalancerEntity : Type 0 where
  pub uuid : Text
  pub name : Text
  pub address : Text
  pub type : Text
  pub private_subnet_id : Text
  pub backend_subnet_id : Text
  pub zone_id : Text
  pub package_id : Text
  pub auto_scalable : Bool

pub record ListenerEntity : Type 0 where
  pub uuid : Text
  pub name : Text
  pub protocol : Text
  pub protocol_port : ℕ
  pub default_pool_id : Text
  pub allowed_cidrs : Text
  pub blocked_cidrs : Text
  pub default_action : Text
  pub timeout_client : ℕ
  pub timeout_member : ℕ
  pub timeout_connection : ℕ
  pub insert_headers : List (Text × Text)
  pub default_certificate_authority : Option Text
  pub certificate_authorities : List Text
  pub client_certificate_authentication : Option Text

-- The request of UpdateListener.
pub record ListenerUpdate : Type 0 where
  pub default_pool_id : Text
  pub allowed_cidrs : Text
  pub blocked_cidrs : Option Text
  pub default_action : Option Text
  pub timeout_client : ℕ
  pub timeout_member : ℕ
  pub timeout_connection : ℕ
  pub insert_headers : List (Text × Text)
  pub default_certificate_authority : Option Text
  pub certificate_authorities : Option (List Text)
  pub client_certificate : Option Text

pub record L7RuleEntity : Type 0 where
  pub compare_type : Text
  pub rule_value : Text
  pub rule_type : Text

pub record PolicyEntity : Type 0 where
  pub uuid : Text
  pub name : Text
  pub action : Text
  pub redirect_pool_id : Text
  pub redirect_url : Text
  pub redirect_http_code : ℕ
  pub keep_query_string : Bool
  pub position : ℕ
  pub l7_rules : List L7RuleEntity

pub record L7RuleRequest : Type 0 where
  pub compare_type : Text
  pub rule_value : Text
  pub rule_type : Text

-- An absent option is not set on the request.
pub record CreatePolicyRequest : Type 0 where
  pub lb_id : Text
  pub listener_id : Text
  pub action : Text
  pub name : Text
  pub rules : List L7RuleRequest
  pub redirect_pool_id : Option Text
  pub redirect_url : Option Text
  pub redirect_http_code : Option ℕ
  pub keep_query_string : Option Bool

pub record UpdatePolicyRequest : Type 0 where
  pub lb_id : Text
  pub listener_id : Text
  pub policy_id : Text
  pub action : Text
  pub redirect_pool_id : Text
  pub redirect_url : Text
  pub redirect_http_code : ℕ
  pub keep_query_string : Bool
  pub rules : List L7RuleRequest

pub record PoolEntity : Type 0 where
  pub uuid : Text
  pub name : Text
  pub load_balance_method : Text
  pub stickiness : Bool
  pub tls_encryption : Bool

-- A health monitor, as it is read and as it is sent.
pub record HealthMonitor : Type 0 where
  pub protocol : Text
  pub healthy_threshold : ℕ
  pub unhealthy_threshold : ℕ
  pub interval : ℕ
  pub timeout : ℕ
  pub health_check_method : Option Text
  pub health_check_path : Option Text
  pub success_code : Option Text
  pub http_version : Option Text
  pub domain_name : Option Text

-- What `NewMember` takes.
pub record MemberRequest : Type 0 where
  pub name : Text
  pub ip : Text
  pub port : ℕ
  pub monitor_port : ℕ

pub record CreatePoolRequest : Type 0 where
  pub lb_id : Text
  pub pool_name : Text
  pub pool_protocol : Text
  pub algorithm : Text
  pub stickiness : Option Bool
  pub tls_encryption : Option Bool
  pub health_monitor : HealthMonitor
  pub members : List MemberRequest

pub record CreateListenerRequest : Type 0 where
  pub lb_id : Text
  pub listener_name : Text
  pub listener_protocol : Text
  pub listener_protocol_port : ℕ
  pub allowed_cidrs : Text
  pub blocked_cidrs : Option Text
  pub default_action : Option Text
  pub timeout_client : ℕ
  pub timeout_member : ℕ
  pub timeout_connection : ℕ
  pub default_pool_id : Option Text
  pub insert_headers : List Text
  pub default_certificate_authority : Option Text
  pub certificate_authorities : Option (List Text)
  pub client_certificate : Option Text

pub record CertificateEntity : Type 0 where
  pub uuid : Text
  pub name : Text
  pub in_use : Bool

pub record PackageEntity : Type 0 where
  pub uuid : Text
  pub name : Text

-- An absent type, flag, or listener with its pool is not set on the request.
pub record CreateLoadBalancerRequest : Type 0 where
  pub name : Text
  pub package_id : Text
  pub subnet_id : Text
  pub zone_id : Text
  pub scheme : Text
  pub auto_scalable : Option Bool
  pub type : Option Text
  pub is_poc : Option Bool
  pub listener_and_pool : Option (CreateListenerRequest × CreatePoolRequest)
  pub tags : List (Text × Text)

pub record CreateInterLoadBalancerRequest : Type 0 where
  pub user_id : ℕ
  pub name : Text
  pub package_id : Text
  pub subnet_id : Text
  pub private_subnet_id : Text
  pub zone_id : Text
  pub tags : List (Text × Text)

pub record UpdatePoolRequest : Type 0 where
  pub lb_id : Text
  pub pool_id : Text
  pub algorithm : Text
  pub stickiness : Option Bool
  pub tls_encryption : Option Bool
  pub health_monitor : HealthMonitor

pub record MemberEntity : Type 0 where
  pub name : Text
  pub address : Text
  pub protocol_port : ℕ
  pub monitor_port : ℕ
  pub weight : ℕ
  pub backup : Bool
