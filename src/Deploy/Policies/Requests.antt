-- ===== src/Deploy/Policies/Requests.antt =====
-- The requests for a policy: buildPolicyCreateRequest, buildPolicyUpdateRequest and compareL7Rules
-- (internal/usecase/lbc_uc/deploy_policy.go). The messages for the log are left out.
use vngcloud_load_balancer_c.Base.{
  Bool, true, false, not, ◌&&◌, ◌||◌, List, [], map, length, all, any, Option, none, some, Text,
  ◌==◌, nat_eq, text_eq, find?, if◌then◌else◌, get_or, is_some,
}
use vngcloud_load_balancer_c.Api.{CreatedPool, L7Rule, Policy}
use vngcloud_load_balancer_c.Cloud.{
  CreatePolicyRequest, L7RuleEntity, L7RuleRequest, PolicyEntity, UpdatePolicyRequest,
}
use vngcloud_load_balancer_c.Program.Calls.{Settings}

-- `findCreatedPoolByName`, on the name if there is one.
unfoldable pub created_pool_id : Option Text → List CreatedPool → Option Text
created_pool_id none pools = none
created_pool_id (some name) pools = elim (find? (λ (p : CreatedPool). p.name == name) pools) [
  | none ↦ none
  | some p ↦ some p.id
]

unfoldable pub rule_request : L7Rule → L7RuleRequest
rule_request r = record {
  compare_type = r.compare_type;
  rule_value = r.rule_value;
  rule_type = r.rule_type;
}

unfoldable pub current_rule_request : L7RuleEntity → L7RuleRequest
current_rule_request r = record {
  compare_type = r.compare_type;
  rule_value = r.rule_value;
  rule_type = r.rule_type;
}

when : {A : Type 0} → Bool → Option A → Option A
when b o = if b then o else none

unfoldable pub build_policy_create_request :
    Settings → Text → Text → Policy → List CreatedPool → CreatePolicyRequest
unfolding created_pool_id rule_request when
build_policy_create_request s lb_id listener_id policy pools =
    let to_pool = policy.action == s.redirect_to_pool in
    let to_url = policy.action == s.redirect_to_url in
    record {
      lb_id = lb_id;
      listener_id = listener_id;
      action = policy.action;
      name = policy.name;
      rules = map rule_request policy.l7_rules;
      redirect_pool_id = when to_pool (created_pool_id policy.redirect_pool_name pools);
      redirect_url = when to_url policy.redirect_url;
      redirect_http_code = when to_url policy.redirect_http_code;
      keep_query_string = when to_url policy.keep_query_string;
    }

unfoldable pub same_rule : L7RuleRequest → L7RuleEntity → Bool
same_rule r c =
    r.compare_type == c.compare_type && (r.rule_value == c.rule_value && r.rule_type == c.rule_type)

-- The rules to send, if they differ.
unfoldable pub compare_l7_rules : List L7Rule → List L7RuleEntity → Option (List L7RuleRequest)
unfolding rule_request same_rule all any
compare_l7_rules spec current =
    let requests = map rule_request spec in
    if not (length requests == length current)
    then some requests
    else if all (λ r. any (same_rule r) current) requests
    then none
    else some requests

unfoldable pub same_flag : Bool → Bool → Bool
same_flag true b = b
same_flag false b = not b

-- An option that matters is not as wanted, and what it is sent as.
module _ {A : Type 0} (same : A → A → Bool) (matters : Bool) (wanted current : A) where
  unfoldable pub differs : Bool
  differs = matters && not (same current wanted)

  unfoldable pub settled : A
  unfolding differs
  settled = if differs then wanted else current

module _ (s : Settings) (policy : Policy) (pools : List CreatedPool) (current : PolicyEntity) where
  to_pool : Bool
  to_pool = policy.action == s.redirect_to_pool

  to_url : Bool
  to_url = policy.action == s.redirect_to_url

  wanted_pool_id : Text
  unfolding created_pool_id
  wanted_pool_id = get_or (created_pool_id policy.redirect_pool_name pools) []

  -- `isNeedUpdate`.
  unfoldable pub policy_differs : Bool
  unfolding differs to_pool to_url wanted_pool_id same_flag compare_l7_rules
  policy_differs =
      differs text_eq.same (not (policy.action == [])) policy.action current.action
      || (differs text_eq.same to_pool wanted_pool_id current.redirect_pool_id
          || (differs text_eq.same to_url (get_or policy.redirect_url []) current.redirect_url
              || (differs nat_eq.same to_url (get_or policy.redirect_http_code 0)
                    current.redirect_http_code
                  || (differs same_flag to_url (get_or policy.keep_query_string false)
                        current.keep_query_string
                      || is_some (compare_l7_rules policy.l7_rules current.l7_rules)))))

  unfoldable pub updated_policy : Text → Text → UpdatePolicyRequest
  unfolding settled to_pool to_url wanted_pool_id same_flag compare_l7_rules current_rule_request
  updated_policy lb_id listener_id = record {
    lb_id = lb_id;
    listener_id = listener_id;
    policy_id = current.uuid;
    action = settled text_eq.same (not (policy.action == [])) policy.action current.action;
    redirect_pool_id = settled text_eq.same to_pool wanted_pool_id current.redirect_pool_id;
    redirect_url = settled text_eq.same to_url (get_or policy.redirect_url []) current.redirect_url;
    redirect_http_code =
        settled nat_eq.same to_url (get_or policy.redirect_http_code 0) current.redirect_http_code;
    keep_query_string =
        settled same_flag to_url (get_or policy.keep_query_string false) current.keep_query_string;
    rules =
        get_or (compare_l7_rules policy.l7_rules current.l7_rules)
          (map current_rule_request current.l7_rules);
  }

unfoldable pub build_policy_update_request :
    Settings → Text → Text → Policy → List CreatedPool → PolicyEntity → Option UpdatePolicyRequest
unfolding policy_differs updated_policy
build_policy_update_request s lb_id listener_id policy pools current =
    if policy_differs s policy pools current
    then some (updated_policy s policy pools current lb_id listener_id)
    else none
