-- ===== src/Api/Spec.antt =====
-- What the owner of a LoadBalancerConfig asks for (api/v1alpha1/loadbalancerconfig_types.go).
use vngcloud_load_balancer_c.Base.{ℕ, Bool, List, Option, Text}
use vngcloud_load_balancer_c.Base.Maps.{Map}

pub record InsertHeader : Type 0 where
  pub header_name : Text
  pub header_value : Text

pub record L7Rule : Type 0 where
  pub compare_type : Text
  pub rule_value : Text
  pub rule_type : Text

pub record Policy : Type 0 where
  pub name : Text
  pub description : Option Text
  pub redirect_pool_name : Option Text
  pub action : Text
  pub redirect_url : Option Text
  pub redirect_http_code : Option ℕ
  pub keep_query_string : Option Bool
  pub position : Option ℕ
  pub l7_rules : List L7Rule

pub record PoolHealthMonitor : Type 0 where
  pub protocol : Text
  pub healthy_threshold : Option ℕ
  pub unhealthy_threshold : Option ℕ
  pub interval : Option ℕ
  pub timeout : Option ℕ
  pub health_check_method : Option Text
  pub http_version : Option Text
  pub health_check_path : Option Text
  pub domain_name : Option Text
  pub success_code : Option Text

pub record PoolMember : Type 0 where
  pub ip : Text
  pub port : ℕ
  pub monitor_port : ℕ
  pub name : Text
  pub weight : Option ℕ
  pub backup : Option Bool

pub record Pool : Type 0 where
  pub name : Text
  pub protocol : Text
  pub description : Option Text
  pub algorithm : Option Text
  pub stickiness : Option Bool
  pub tls_encryption : Option Bool
  pub health_monitor : PoolHealthMonitor
  pub members : List PoolMember

pub record ListenerCertificate : Type 0 where
  pub id : Option Text
  pub name : Option Text
  pub secret_name : Option Text

pub record Listener : Type 0 where
  pub name : Text
  pub description : Option Text
  pub protocol : Text
  pub protocol_port : ℕ
  pub default_pool_name : Option Text
  pub timeout_client : Option ℕ
  pub timeout_member : Option ℕ
  pub timeout_connection : Option ℕ
  pub allowed_cidrs : Option Text
  pub blocked_cidrs : Option Text
  pub default_action : Option Text
  pub insert_headers : List InsertHeader
  pub policies : List Policy
  pub certificate_default : Option ListenerCertificate
  pub certificate_authorities : List ListenerCertificate
  pub client_certificate_id : Option Text

pub record CreateCertificate : Type 0 where
  pub secret_name : Text

pub record LoadBalancerConfigSpec : Type 0 where
  pub type : Text
  pub cluster_id : Option Text
  pub load_balancer_name : Text
  pub subnet_id : Text
  pub vpc_id : Text
  pub backend_subnet_id : Option Text
  pub private_subnet_id : Option Text
  pub private_zone_id : Option Text
  pub zone_id : Text
  pub package_id : Option Text
  pub scheme : Option Text
  pub load_balancer_id : Option Text
  pub enable_autoscale : Option Bool
  pub tags : Map Text
  pub is_poc : Option Bool
  pub listeners : List Listener
  pub pools : List Pool
  pub create_certificates : List CreateCertificate
