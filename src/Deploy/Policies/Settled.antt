-- ===== src/Deploy/Policies/Settled.antt =====
-- What an update of a policy asks for, once the cloud has taken it.
use vngcloud_load_balancer_c.Base.{
  ◌≡◌, refl, ap, Bool, true, false, not, ◌&&◌, ◌||◌, Bool-cases, inl, inr, ◌⊎◌, arith, List, [],
  ◌∷◌, map, length, all, any, none, some, Text, ◌==◌, nat_eq, text_eq, In, subst, text_beq_refl,
  nat_beq_iff, suc, get_or, is_some, if◌then◌else◌,
}
use vngcloud_load_balancer_c.Api.{CreatedPool, L7Rule, Policy}
use vngcloud_load_balancer_c.Cloud.{L7RuleEntity, L7RuleRequest, PolicyEntity, UpdatePolicyRequest}
use vngcloud_load_balancer_c.Deploy.Policies.Requests.{
  build_policy_update_request, created_pool_id, compare_l7_rules, current_rule_request, differs,
  policy_differs, rule_request, same_flag, same_rule, settled, updated_policy,
}
use vngcloud_load_balancer_c.Program.Calls.{Settings}

-- A rule as the cloud lists it once it has taken it.
abbrev taken_rule : L7RuleRequest → L7RuleEntity
taken_rule r = record {
  compare_type = r.compare_type;
  rule_value = r.rule_value;
  rule_type = r.rule_type;
}

-- The policy as the cloud lists it once it has taken the update.
abbrev pub taken : UpdatePolicyRequest → PolicyEntity → PolicyEntity
taken r current = record current {
  action = r.action;
  redirect_pool_id = r.redirect_pool_id;
  redirect_url = r.redirect_url;
  redirect_http_code = r.redirect_http_code;
  keep_query_string = r.keep_query_string;
  l7_rules = map taken_rule r.rules;
}

differs-settled :
    {A : Type 0} (same : A → A → Bool) (matters : Bool) (wanted current : A)
    → same wanted wanted ≡ true
    → differs same matters wanted (settled same matters wanted current) ≡ false
unfolding differs settled
differs-settled same matters wanted current h =
    elim (Bool-cases (matters && not (same current wanted))) [
      | inl b ↦ rw (b, h) (ground arith)
      | inr b ↦ rw (b, b) refl
    ]

same_flag_refl : (b : Bool) → same_flag b b ≡ true
unfolding same_flag
same_flag_refl true = refl
same_flag_refl false = refl

all-true :
    {A : Type 0} (p : A → Bool) (xs : List A) → ((a : A) → In a xs → p a ≡ true) → all p xs ≡ true
unfolding all
all-true p [] h = refl
all-true p (x ∷ xs) h =
    let first = h x (inl refl) in
    let rest = all-true p xs (λ a i. h a (inr i)) in rw (first, rest) refl

same_rule-taken : (r : L7RuleRequest) → same_rule r (taken_rule r) ≡ true
unfolding same_rule
same_rule-taken r =
    rw (text_beq_refl r.compare_type, text_beq_refl r.rule_value, text_beq_refl r.rule_type) refl

any-taken :
    (r : L7RuleRequest) (rs : List L7RuleRequest)
    → In r rs
    → any (same_rule r) (map taken_rule rs) ≡ true
unfolding any
any-taken r [] i = absurd i
any-taken r (q ∷ rs) (inl e) =
    let first : same_rule r (taken_rule q) ≡ true =
      subst (λ z. same_rule r (taken_rule z) ≡ true) e (same_rule-taken r) in
    rw first refl
any-taken r (q ∷ rs) (inr i) = let rest = any-taken r rs i in rw rest (ground arith)

length-taken : (rs : List L7RuleRequest) → length (map taken_rule rs) ≡ length rs
length-taken [] = refl
length-taken (r ∷ rs) = ap suc (length-taken rs)

taken-current :
    (current : List L7RuleEntity) → map taken_rule (map current_rule_request current) ≡ current
unfolding current_rule_request
taken-current [] = refl
taken-current (c ∷ current) = ap (λ z. c ∷ z) (taken-current current)

-- The rules that were sent are not sent again.
rules_settle :
    (spec : List L7Rule) → compare_l7_rules spec (map taken_rule (map rule_request spec)) ≡ none
unfolding compare_l7_rules
rules_settle spec =
    let requests = map rule_request spec in
    let sizes = length-taken requests in
    let found =
      all-true (λ r. any (same_rule r) (map taken_rule requests)) requests
        (λ r i. any-taken r requests i) in
    let same_size = (nat_beq_iff (length requests) (length requests)).1 refl in
    rw (sizes, same_size, found) refl

compare_l7_rules-cases :
    (spec : List L7Rule) (current : List L7RuleEntity)
    → (compare_l7_rules spec current ≡ none)
      ⊎ (compare_l7_rules spec current ≡ some (map rule_request spec))
unfolding compare_l7_rules
compare_l7_rules-cases spec current = ground arith

compare_l7_rules-taken :
    (spec : List L7Rule) (current : List L7RuleEntity)
    → compare_l7_rules spec
        (map taken_rule (get_or (compare_l7_rules spec current) (map current_rule_request current)))
      ≡ none
unfolding compare_l7_rules
compare_l7_rules-taken spec current = elim (compare_l7_rules-cases spec current) [
  | inl e ↦ rw e (rw (taken-current current) e)
  | inr e ↦ rw e (rules_settle spec)
]

no-or : {a b : Bool} → a ≡ false → b ≡ false → a || b ≡ false
no-or {a = a} {b = b} p q = rw (p, q) refl

if-some : {A : Type 0} (b : Bool) (x r : A) → (if b then some x else none) ≡ some r → x ≡ r
if-some true x r e = cc
if-some false x r e = cc

if-none : {A : Type 0} (b : Bool) (x : A) → b ≡ false → (if b then some x else none) ≡ none
if-none b x e = rw e refl

module _ (s : Settings) (lb_id listener_id : Text) (policy : Policy) (pools : List CreatedPool)
    (current : PolicyEntity) where
  policy_differs-taken :
      policy_differs s policy pools
        (taken (updated_policy s policy pools current lb_id listener_id) current)
      ≡ false
  unfolding policy_differs updated_policy
  policy_differs-taken =
      let same_text = text_eq.same in
      let to_url = policy.action == s.redirect_to_url in
      let url = get_or policy.redirect_url [] in
      let code = get_or policy.redirect_http_code 0 in
      let keep = get_or policy.keep_query_string false in
      let pool = get_or (created_pool_id policy.redirect_pool_name pools) [] in
      no-or
        (differs-settled same_text (not (policy.action == [])) policy.action current.action
          (text_beq_refl policy.action))
        (no-or
          (differs-settled same_text (policy.action == s.redirect_to_pool) pool
            current.redirect_pool_id (text_beq_refl pool))
          (no-or (differs-settled same_text to_url url current.redirect_url (text_beq_refl url)) (
            no-or
              (differs-settled nat_eq.same to_url code current.redirect_http_code
                ((nat_beq_iff code code).1 refl))
              (no-or
                (differs-settled same_flag to_url keep current.keep_query_string
                  (same_flag_refl keep))
                (ap is_some (compare_l7_rules-taken policy.l7_rules current.l7_rules))))))

  -- Once the cloud has taken the update of a policy, and nothing else has changed, no further update
  -- of it is asked for.
  pub policy_update_settles :
      (r : UpdatePolicyRequest)
      → build_policy_update_request s lb_id listener_id policy pools current ≡ some r
      → build_policy_update_request s lb_id listener_id policy pools (taken r current) ≡ none
  unfolding build_policy_update_request
  policy_update_settles r e =
      let sent = updated_policy s policy pools current lb_id listener_id in
      let same : sent ≡ r = if-some (policy_differs s policy pools current) sent r e in
      subst
        (λ z. build_policy_update_request s lb_id listener_id policy pools (taken z current) ≡ none)
        same (if-none _ _ policy_differs-taken)
