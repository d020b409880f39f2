-- ===== src/Teardown/Examples.antt =====
-- A load balancer with one recorded listener, and an empty one.
use vngcloud_load_balancer_c.Base.{
  ◌≡◌, ◌↔◌, refl, true, false, [], ◌∷◌, none, some, Text, text, All, text_beq, find?, any,
}
use vngcloud_load_balancer_c.Api.{CreatedListener, LoadBalancerConfig}
use vngcloud_load_balancer_c.Cloud.{ListenerEntity}
use vngcloud_load_balancer_c.Samples.{cluster_a, config, spec_of, status_of}
use vngcloud_load_balancer_c.Teardown.{
  Reads, can_delete_whole_load_balancer, is_load_balancer_empty,
}
use vngcloud_load_balancer_c.Errs.{Result}
use vngcloud_load_balancer_c.Teardown.Recorded.{
  RecordedListener, RecordedPool, deletable_is_recorded, is_empty_iff,
}

abbrev layer_4 : Text
layer_4 = text "Layer 4"

abbrev mine : CreatedListener
mine = record {
  id = text "lis-1";
  port = 80;
  created_policies = record { id = text "pol-1" } ∷ [];
  adopted = false;
  original_default_pool_id = none;
  original_acl = none;
}

abbrev owner : LoadBalancerConfig
owner =
    config (text "web") (spec_of (some cluster_a) none [])
      (record (status_of none none []) { created_listeners = mine ∷ [] })

abbrev on_cloud : ListenerEntity
on_cloud = record {
  uuid = text "lis-1";
  name = text "http";
  protocol = text "HTTP";
  protocol_port = 80;
  default_pool_id = [];
  allowed_cidrs = [];
  blocked_cidrs = [];
  default_action = [];
  timeout_client = 50;
  timeout_member = 50;
  timeout_connection = 5;
  insert_headers = [];
  default_certificate_authority = none;
  certificate_authorities = [];
  client_certificate_authentication = none;
}

abbrev one_listener : Reads
one_listener = record {
  list_listeners = λ lb. Result.ok (on_cloud ∷ []);
  list_policies = λ lb l. Result.ok (
      record {
        uuid = text "pol-1";
        name = text "rule";
        action = text "REJECT";
        redirect_pool_id = [];
        redirect_url = [];
        redirect_http_code = 0;
        keep_query_string = false;
        position = 1;
        l7_rules = [];
      }
      ∷ []);
  list_pools = λ lb. Result.ok [];
  pool_members = λ lb p. Result.ok [];
}

deletable_is_recorded_example :
    All (RecordedListener one_listener layer_4 owner (text "lb-1")) (on_cloud ∷ [])
    × All (RecordedPool one_listener layer_4 owner (text "lb-1")) []
unfolding can_delete_whole_load_balancer text_beq find? any
deletable_is_recorded_example =
    deletable_is_recorded one_listener layer_4 owner (text "lb-1") (on_cloud ∷ []) [] refl refl refl

is_empty_iff_example :
    (is_load_balancer_empty one_listener layer_4 owner (text "lb-1") ≡ Result.ok true) ↔ (
      (one_listener.list_listeners (text "lb-1") ≡ Result.ok [])
      × (one_listener.list_pools (text "lb-1") ≡ Result.ok []))
is_empty_iff_example = is_empty_iff one_listener layer_4 owner (text "lb-1")
