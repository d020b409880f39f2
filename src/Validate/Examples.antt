-- ===== src/Validate/Examples.antt =====
-- Two resources on one load balancer.
use vngcloud_load_balancer_c.Base.{
  ℕ, ◌≡◌, ◌≢◌, ◌↔◌, refl, true, inl, inr, List, [], ◌∷◌, none, some, Text, text, text_beq, find?,
  texts_beq, sort, split, push_head,
}
use vngcloud_load_balancer_c.Api.{Listener, LoadBalancerConfig}
use vngcloud_load_balancer_c.Samples.{cluster_a, config, listener, no_net, spec_of, status_of}
use vngcloud_load_balancer_c.Acl.{blocked, cidr_set, trim_space}
use vngcloud_load_balancer_c.Validate.{
  Invalid, default_pool_of, full_name, says, targets, validate_cross_listener_default_pools,
  validate_cross_listener_ports, validate_self_listener_ports,
}
use vngcloud_load_balancer_c.Validate.Ports.{at}
use vngcloud_load_balancer_c.Validate.Declared.{Serves}
use vngcloud_load_balancer_c.Validate.Sharing.{refused_protocols_differ, sharers_agree}
use vngcloud_load_balancer_c.Validate.Self.{PortsDiffer, validate_self_iff}
use vngcloud_load_balancer_c.Validate.Access.{
  Checked, collect_acl_declarations, collect_acl_peers, no_peers, validate_cross_listener_acl,
}
use vngcloud_load_balancer_c.Validate.Access.Recorded.{recorded_peers}
use vngcloud_load_balancer_c.Validate.Access.Agreed.{sharers_agree_on_access}
use vngcloud_load_balancer_c.Acl.Values.{acl_value_equal}

abbrev http_80 : Listener
http_80 = listener (text "HTTP") 80 none

abbrev tcp_80 : Listener
tcp_80 = listener (text "TCP") 80 none

abbrev blocking_80 : Listener
blocking_80 = record http_80 { blocked_cidrs = some (text "10.0.0.0/8") }

abbrev resource : Text → List Listener → LoadBalancerConfig
resource name ls =
    config name (spec_of (some cluster_a) (some (text "lb-1")) ls) (status_of none none [])

abbrev web : LoadBalancerConfig
web = resource (text "web") (http_80 ∷ [])

abbrev api : LoadBalancerConfig
api = resource (text "api") (http_80 ∷ [])

abbrev raw : LoadBalancerConfig
raw = resource (text "raw") (tcp_80 ∷ [])

abbrev guard : LoadBalancerConfig
guard = resource (text "guard") (blocking_80 ∷ [])

sharers_agree_example :
    (text "HTTP" ≡ text "HTTP") × (default_pool_of http_80 ≡ default_pool_of http_80)
unfolding validate_cross_listener_ports validate_cross_listener_default_pools targets text_beq find?
sharers_agree_example =
    sharers_agree (text "lb-1") (web ∷ api ∷ []) web api http_80 http_80 refl refl (inl refl) refl
      (inl refl) (inr (inl refl)) refl (inl refl) refl

refused_protocols_differ_example :
    (p : ℕ) × (a : LoadBalancerConfig) × (b : LoadBalancerConfig) × (l : Listener) × (k : Listener)
    × Serves p (text "lb-1") (web ∷ raw ∷ []) a l
    × Serves p (text "lb-1") (web ∷ raw ∷ []) b k
    × (k.protocol ≢ l.protocol)
    × (Invalid.mixed_protocols 80 (text "shop/web") (text "HTTP") (text "shop/raw") (text "TCP")
        ≡ Invalid.mixed_protocols p (full_name a) l.protocol (full_name b) k.protocol)
unfolding validate_cross_listener_ports targets text_beq find?
refused_protocols_differ_example =
    refused_protocols_differ (text "lb-1") (web ∷ raw ∷ [])
      (Invalid.mixed_protocols 80 (text "shop/web") (text "HTTP") (text "shop/raw") (text "TCP"))
      refl

validate_self_iff_example : (validate_self_listener_ports web ≡ none) ↔ PortsDiffer (http_80 ∷ [])
validate_self_iff_example = validate_self_iff web

abbrev nothing_yet : Checked
nothing_yet = record { peers = []; warnings = [] }

abbrev after_check : Checked
unfolding validate_cross_listener_acl
after_check =
    (validate_cross_listener_acl no_net web (text "lb-1") (web ∷ guard ∷ []) nothing_yet).0

recorded_peers_example :
    at no_peers 80 after_check.peers blocked
    ≡ at no_peers 80 (collect_acl_peers web (text "lb-1") (web ∷ guard ∷ [])) blocked
unfolding validate_cross_listener_acl after_check text_beq
recorded_peers_example =
    recorded_peers no_net web (text "lb-1") (web ∷ guard ∷ []) nothing_yet after_check 80 blocked
      refl refl

-- The peer that is recorded is the other resource.
recorded_peer_test :
    at no_peers 80 after_check.peers blocked ≡ some (says (text "shop/guard") (text "10.0.0.0/8"))
unfolding at after_check validate_cross_listener_acl text_beq find?
recorded_peer_test = refl

abbrev shield : LoadBalancerConfig
shield = resource (text "shield") (blocking_80 ∷ [])

abbrev after_agreement : Checked
unfolding validate_cross_listener_acl
after_agreement =
    (validate_cross_listener_acl no_net shield (text "lb-1") (shield ∷ guard ∷ []) nothing_yet).0

sharers_agree_on_access_example :
    acl_value_equal no_net blocked (some (text "10.0.0.0/8")) (some (text "10.0.0.0/8")) ≡ true
unfolding validate_cross_listener_acl after_agreement collect_acl_declarations at text_beq texts_beq
    cidr_set sort split push_head trim_space
sharers_agree_on_access_example =
    sharers_agree_on_access no_net shield (text "lb-1") (shield ∷ guard ∷ []) nothing_yet
      after_agreement blocked shield guard blocking_80 blocking_80 (text "10.0.0.0/8")
      (text "10.0.0.0/8") refl refl (inl refl) (inl refl) refl (inr (inr (inl refl), λ e. cc, refl))
      (inl refl) refl refl
