-- ===== src/Acl/Plan/Examples.antt =====
-- The access list plan at a concrete listener.
use vngcloud_load_balancer_c.Base.{◌≡◌, refl, true, [], none, some, text, text_beq, equal_fold}
use vngcloud_load_balancer_c.Api.{ListenerAcl}
use vngcloud_load_balancer_c.Acl.{default, Net, no_acl, get_field, get_optional, nil_if_empty}
use vngcloud_load_balancer_c.Acl.Values.{acl_value_equal}
use vngcloud_load_balancer_c.Acl.Plan.{plan_listener_acl, plan_field, plan_fields}
use vngcloud_load_balancer_c.Acl.Plan.Restore.{
  given_back, to_come_back, put_acl, no_peer, plan_records_original, plan_settles, plan_restores,
}

-- A net package that takes each text with a slash for a canonical network.
abbrev plain_net : Net
plain_net = record { parse_cidr = λ s. some s; parse_ipv4 = λ s. none }

abbrev drops : ListenerAcl
drops = record { allowed_cidrs = none; blocked_cidrs = none; default_action = some (text "drop") }

abbrev accepting : ListenerAcl
accepting = record {
  allowed_cidrs = some (text "0.0.0.0/0");
  blocked_cidrs = some [];
  default_action = some (text "ACCEPT");
}

plan_records_original_example :
    get_optional default
      (plan_listener_acl plain_net drops accepting none none no_peer).record_before
    ≡ some (to_come_back default none none (some (text "ACCEPT")))
unfolding plan_listener_acl plan_fields plan_field acl_value_equal equal_fold text_beq nil_if_empty
plan_records_original_example =
    plan_records_original plain_net drops accepting none none no_peer default (text "drop") refl

plan_settles_example :
    (let plan = plan_listener_acl plain_net drops accepting none none no_peer in
      get_field default
        (plan_listener_acl plain_net drops
          (put_acl plan.desired accepting)
          plan.record_after
          none
          no_peer).desired
      ≡ none)
plan_settles_example = plan_settles plain_net drops accepting none none no_peer default

-- The neutral values of a listener of the controller's own.
abbrev created_neutral : ListenerAcl
created_neutral = record {
  allowed_cidrs = some (text "0.0.0.0/0");
  blocked_cidrs = some [];
  default_action = some (text "REJECT");
}

plan_restores_example :
    (let plan = plan_listener_acl plain_net drops accepting none (some created_neutral) no_peer in
      let held = put_acl plan.desired accepting in
      let release =
        plan_listener_acl plain_net no_acl held plan.record_after (some created_neutral) no_peer in
      (get_optional default release.record_after ≡ none)
      × (acl_value_equal plain_net default (get_field default (put_acl release.desired held)) (
            some (
              given_back none
                (some (text "REJECT"))
                (get_field default plan.desired)
                (text "ACCEPT")))
          ≡ true))
plan_restores_example =
    plan_restores plain_net drops accepting none (some created_neutral) default (text "ACCEPT") refl
