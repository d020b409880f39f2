-- ===== src/Api/Status.antt =====
-- What the controller records (api/v1alpha1/loadbalancerconfig_types.go). Of the Kubernetes
-- metadata the model keeps what the code reads; a time stamp of deletion is whether it is set,
-- and the time of the last reconcile is left out.
use vngcloud_load_balancer_c.Base.{ℕ, Bool, List, Option, Text}
use vngcloud_load_balancer_c.Base.Maps.{Map}
use vngcloud_load_balancer_c.Api.Spec.{PoolMember, LoadBalancerConfigSpec}

pub record CreatedPool : Type 0 where
  pub id : Text
  pub name : Text
  pub created_members : List PoolMember

-- A nil field means that the ACL field is not managed.
pub record ListenerAcl : Type 0 where
  pub allowed_cidrs : Option Text
  pub blocked_cidrs : Option Text
  pub default_action : Option Text

pub record CreatedPolicy : Type 0 where
  pub id : Text

pub record CreatedListener : Type 0 where
  pub id : Text
  pub port : ℕ
  pub created_policies : List CreatedPolicy
  pub adopted : Bool
  pub original_default_pool_id : Option Text
  pub original_acl : Option ListenerAcl

pub record CreatedCertificate : Type 0 where
  pub secret_name : Text
  pub resource_version : Text
  pub id : Text
  pub certificate_name : Option Text

pub record RetiringLoadBalancer : Type 0 where
  pub id : Text
  pub created_listeners : List CreatedListener
  pub created_pools : List CreatedPool
  pub created_tags : Map Text

pub record LoadBalancerConfigStatus : Type 0 where
  pub observed_generation : Option ℕ
  pub last_reconcile_message : Text
  pub address : Option Text
  pub load_balancer_id : Option Text
  pub adopted_load_balancer_id : Option Text
  pub retiring_load_balancer : Option RetiringLoadBalancer
  pub created_load_balancer_id : Option Text
  pub load_balancer_name : Option Text
  pub type : Option Text
  pub subnet_id : Option Text
  pub zone_id : Option Text
  pub created_tags : Map Text
  pub created_pools : List CreatedPool
  pub created_listeners : List CreatedListener
  pub created_certificates : List CreatedCertificate

pub record LoadBalancerConfig : Type 0 where
  pub namespace : Text
  pub name : Text
  pub uid : Text
  pub deleting : Bool  -- DeletionTimestamp != nil
  pub generation : ℕ
  pub spec : LoadBalancerConfigSpec
  pub status : LoadBalancerConfigStatus
