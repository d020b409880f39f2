-- ===== src/Deploy/Examples.antt =====
-- A resource with a pool of two members.
use vngcloud_load_balancer_c.Base.{
  ◌≡◌, refl, text_beq, true, false, List, [], ◌∷◌, none, some, text,
}
use vngcloud_load_balancer_c.Api.{LoadBalancerConfig, Policy, Pool}
use vngcloud_load_balancer_c.Cloud.{PolicyEntity, UpdatePolicyRequest}
use vngcloud_load_balancer_c.Deploy.LoadBalancer.{deploy_load_balancer}
use vngcloud_load_balancer_c.Deploy.LoadBalancer.Broken.{DeletesBroken}
use vngcloud_load_balancer_c.Deploy.LoadBalancer.Deletes.{deploy_load_balancer-DeletesBroken}
use vngcloud_load_balancer_c.Deploy.Policies.Order.{deploy_reorder_policies}
use vngcloud_load_balancer_c.Deploy.Policies.Order.Sent.{SendsOrder, order_sent_as_wanted}
use vngcloud_load_balancer_c.Deploy.Policies.Requests.{build_policy_update_request}
use vngcloud_load_balancer_c.Deploy.Policies.Settled.{policy_update_settles, taken}
use vngcloud_load_balancer_c.Deploy.Pools.{deploy_pools}
use vngcloud_load_balancer_c.Deploy.Pools.Complete.{Concluded, deployed_pools_complete}
use vngcloud_load_balancer_c.Deploy.Pools.Held.{RecordsHeld}
use vngcloud_load_balancer_c.Deploy.Pools.Records.{members_recorded_once_held}
use vngcloud_load_balancer_c.Program.Histories.{Ends, Meets}
use vngcloud_load_balancer_c.Samples.{cluster_a, config, member, settings, spec_of, status_of}

abbrev two_members : Pool
two_members = record {
  name = text "web";
  protocol = text "HTTP";
  description = none;
  algorithm = none;
  stickiness = none;
  tls_encryption = none;
  health_monitor = record {
    protocol = text "TCP";
    healthy_threshold = some 2;
    unhealthy_threshold = none;
    interval = none;
    timeout = none;
    health_check_method = none;
    http_version = none;
    health_check_path = none;
    domain_name = none;
    success_code = none;
  };
  members = member (text "10.0.0.1") 80 ∷ member (text "10.0.0.2") 80 ∷ [];
}

abbrev serving : LoadBalancerConfig
serving =
    config (text "web") (record (spec_of (some cluster_a) none []) { pools = two_members ∷ [] })
      (status_of (some (text "lb-1")) none [])

members_recorded_once_held_example :
    Meets
      (RecordsHeld settings serving (text "lb-1"))
      (λ _ _. Unit {0})
      []
      (deploy_pools settings serving (text "lb-1"))
members_recorded_once_held_example = members_recorded_once_held settings serving (text "lb-1") []

deploy_load_balancer-DeletesBroken_example :
    Meets
      (DeletesBroken settings)
      (λ _ _. Unit {0})
      []
      (deploy_load_balancer settings
        (record serving { status = record serving.status { load_balancer_id = none } })
        [])
deploy_load_balancer-DeletesBroken_example =
    deploy_load_balancer-DeletesBroken settings
      (record serving { status = record serving.status { load_balancer_id = none } }) [] []

deployed_pools_complete_example :
    Ends (Concluded (two_members ∷ [])) (deploy_pools settings serving (text "lb-1"))
deployed_pools_complete_example = deployed_pools_complete settings serving (text "lb-1")

-- A policy that comes to redirect to an address, with a rule more.
abbrev to_address : Policy
to_address = record {
  name = text "old";
  description = none;
  redirect_pool_name = none;
  action = text "REDIRECT_TO_URL";
  redirect_url = some (text "https://example.com");
  redirect_http_code = some 301;
  keep_query_string = some true;
  position = none;
  l7_rules =
      record { compare_type = text "EQUAL_TO"; rule_value = text "/old"; rule_type = text "PATH" }
      ∷ [];
}

abbrev rejecting : PolicyEntity
rejecting = record {
  uuid = text "pol-1";
  name = text "old";
  action = text "REJECT";
  redirect_pool_id = [];
  redirect_url = [];
  redirect_http_code = 0;
  keep_query_string = false;
  position = 1;
  l7_rules = [];
}

abbrev to_address_request : UpdatePolicyRequest
to_address_request = record {
  lb_id = text "lb-1";
  listener_id = text "lis-1";
  policy_id = text "pol-1";
  action = text "REDIRECT_TO_URL";
  redirect_pool_id = [];
  redirect_url = text "https://example.com";
  redirect_http_code = 301;
  keep_query_string = true;
  rules =
      record { compare_type = text "EQUAL_TO"; rule_value = text "/old"; rule_type = text "PATH" }
      ∷ [];
}

policy_update_settles_example :
    build_policy_update_request settings
      (text "lb-1")
      (text "lis-1")
      to_address
      []
      (taken to_address_request rejecting)
    ≡ none
unfolding build_policy_update_request text_beq
policy_update_settles_example =
    policy_update_settles settings (text "lb-1") (text "lis-1") to_address [] rejecting
      to_address_request refl

abbrev first_two : List Policy
first_two =
    record to_address { name = text "b"; position = some 2 }
    ∷ record to_address { name = text "a"; position = some 1 }
    ∷ []

order_sent_as_wanted_example :
    Meets
      (SendsOrder (text "lb-1") (text "lis-1") first_two)
      (λ _ _. Unit {0})
      []
      (deploy_reorder_policies (text "lb-1") (text "lis-1") first_two)
order_sent_as_wanted_example = order_sent_as_wanted (text "lb-1") (text "lis-1") first_two []
