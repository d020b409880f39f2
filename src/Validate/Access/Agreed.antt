-- ===== src/Validate/Access/Agreed.antt =====
-- Where the check passes, the declarations that are shared are equal.
use vngcloud_load_balancer_c.Base.{
  ℕ, ◌≡◌, sym, ap, ◌∙◌, refl, inl, inr, true, false, List, [], ◌∷◌, map, Option, none, some, Text,
  ◌==◌, nat_eq, arith, Bool-cases, Option-cases, nat_beq_iff, any, In, All, All-In, subst,
}
use vngcloud_load_balancer_c.Api.{Listener, ListenerAcl, LoadBalancerConfig}
use vngcloud_load_balancer_c.Acl.{
  AclField, Net, acl_fields, allowed, blocked, default, get_field, spec_acl,
}
use vngcloud_load_balancer_c.Acl.Values.{
  acl_value_equal, acl_value_equal_refl, acl_value_equal_symm, acl_value_equal_trans,
}
use vngcloud_load_balancer_c.Validate.{Declaration, full_name, says}
use vngcloud_load_balancer_c.Validate.Ports.{at}
use vngcloud_load_balancer_c.Validate.Access.{
  Checked, Declared, PerField, check_access, check_field, check_fields, collect_acl_declarations,
  compare_rest, no_fields, same_field, self_access, sorted_ports, validate_cross_listener_acl,
}
use vngcloud_load_balancer_c.Validate.Access.Gathered.{In-collected, OnIt}
use vngcloud_load_balancer_c.Validate.Access.Recorded.{
  any-sorted_ports, at-no_key, check_fields_step,
}

module _ (net : Net) (self_name : Text) where
  compare_rest-equal :
      (port : ℕ) (f : AclField) (a : Declaration) (ds : List Declaration) (st : Checked)
      → same_field f allowed ≡ false
      → (compare_rest net self_name port f a ds st).1 ≡ none
      → All (λ b. acl_value_equal net f (some a.value) (some b.value) ≡ true) ds
  unfolding compare_rest
  compare_rest-equal port f a [] st n h = tt
  compare_rest-equal port f a (b ∷ ds) st n h =
      elim (Bool-cases (acl_value_equal net f (some a.value) (some b.value))) [
        | inl e ↦ (e, compare_rest-equal port f a ds st n (ground (arith, e)))
        | inr e ↦ ground (arith, e, n)
      ]

  to_first :
      (f : AclField) (a : Declaration) (ds : List Declaration) (b : Declaration)
      → All (λ d. acl_value_equal net f (some a.value) (some d.value) ≡ true) ds
      → In b (a ∷ ds)
      → acl_value_equal net f (some a.value) (some b.value) ≡ true
  to_first f a ds b h (inl e) =
      subst (λ d. acl_value_equal net f (some a.value) (some d.value) ≡ true) (sym e)
        (acl_value_equal_refl net f (some a.value))
  to_first f a ds b h (inr i) =
      All-In (λ d. acl_value_equal net f (some a.value) (some d.value) ≡ true) ds h i

  module _ (self_acl : ℕ → Option ListenerAcl) where
    check_field-equal :
        (port : ℕ) (f : AclField) (ds : List Declaration) (st out : Checked) (a b : Declaration)
        → same_field f allowed ≡ false
        → check_field net self_name self_acl port f ds st ≡ (out, none)
        → In a ds
        → In b ds
        → acl_value_equal net f (some a.value) (some b.value) ≡ true
    unfolding check_field
    check_field-equal port f [] st out a b n h i j = absurd i
    check_field-equal port f (d ∷ ds) st out a b n h i j =
        elim (Option-cases ((compare_rest net self_name port f d ds st).1)) [
          | inr (x, e) ↦ ground arith
          | inl e ↦
              let same = compare_rest-equal port f d ds st n e in
              acl_value_equal_trans net f (some a.value) (some d.value) (some b.value)
                (acl_value_equal_symm net f (some d.value) (some a.value)
                  (to_first f d ds a same i))
                (to_first f d ds b same j)
        ]

    -- A port that is checked has passed the check of its fields.
    check_access-passed :
        (p : ℕ) (declared : Declared) (ports : List ℕ) (st out : Checked)
        → check_access net self_name self_acl declared ports st ≡ (out, none)
        → any (λ q. q == p) ports ≡ true
        → (before : Checked) × (after : Checked) × (check_fields net self_name self_acl p
              (at no_fields p declared)
              acl_fields
              before
            ≡ (after, none))
    unfolding check_access any
    check_access-passed p declared [] st out h i = cc
    check_access-passed p declared (port ∷ ports) st out h i =
        let round =
          check_fields net self_name self_acl port (at no_fields port declared) acl_fields st in
        elim (Option-cases (round.1)) [
          | inr (x, e) ↦ ground arith
          | inl e ↦ elim (Bool-cases (port == p)) [
            | inl s ↦
                let same : port ≡ p = (nat_beq_iff port p).0 s in
                (
                  st,
                  round.0,
                  subst
                      (λ q.
                        check_fields net self_name self_acl q (at no_fields q declared) acl_fields
                          st
                        ≡ (round.0, none))
                      same (ap (λ o. (round.0, o)) e),
                )
            | inr n ↦
                check_access-passed p declared ports round.0 out (ground (arith, e))
                  (ground (arith, n))
          ]
        ]

    pick :
        (p : ℕ) (f : AclField) (ds : PerField (List Declaration)) (st one two three : Checked)
        (a b : Declaration)
        → same_field f allowed ≡ false
        → check_field net self_name self_acl p blocked (ds blocked) one ≡ (two, none)
        → check_field net self_name self_acl p default (ds default) two ≡ (three, none)
        → In a (ds f)
        → In b (ds f)
        → acl_value_equal net f (some a.value) (some b.value) ≡ true
    pick p allowed ds st one two three a b n d e i j = cc
    pick p blocked ds st one two three a b n d e i j =
        check_field-equal p blocked (ds blocked) one two a b n d i j
    pick p default ds st one two three a b n d e i j =
        check_field-equal p default (ds default) two three a b n e i j

    check_fields-equal :
        (p : ℕ) (f : AclField) (ds : PerField (List Declaration)) (st out : Checked)
        (a b : Declaration)
        → same_field f allowed ≡ false
        → check_fields net self_name self_acl p ds acl_fields st ≡ (out, none)
        → In a (ds f)
        → In b (ds f)
        → acl_value_equal net f (some a.value) (some b.value) ≡ true
    check_fields-equal p f ds st out a b n h i j =
        let (one, c, k) =
          check_fields_step net self_name self_acl p f p ds allowed (blocked ∷ default ∷ []) st out
            h in
        let (two, d, l) =
          check_fields_step net self_name self_acl p f p ds blocked (default ∷ []) one out k in
        let (three, e, m) =
          check_fields_step net self_name self_acl p f p ds default [] two out l in
        pick p f ds st one two three a b n d e i j

-- The declarations that are collected.
collected_agree :
    (net : Net) (lbc : LoadBalancerConfig) (lb_id : Text) (all : List LoadBalancerConfig)
    (st out : Checked) (p : ℕ) (f : AclField) (a b : Declaration)
    → same_field f allowed ≡ false
    → validate_cross_listener_acl net lbc lb_id all st ≡ (out, none)
    → In a
        (at no_fields p (collect_acl_declarations (full_name lbc) lbc.spec.listeners lb_id all) f)
    → In b
        (at no_fields p (collect_acl_declarations (full_name lbc) lbc.spec.listeners lb_id all) f)
    → acl_value_equal net f (some a.value) (some b.value) ≡ true
unfolding validate_cross_listener_acl
collected_agree net lbc lb_id all st out p f a b n h i j =
    let declared = collect_acl_declarations (full_name lbc) lbc.spec.listeners lb_id all in
    let ports = map (λ (e : ℕ × PerField (List Declaration)). e.0) declared in
    let self = self_access lbc.spec.listeners in
    elim (Bool-cases (any (λ q. q == p) ports)) [
      | inr none_here ↦
          let nothing : In a [] =
            subst (λ (d : PerField (List Declaration)). In a (d f)) (at-no_key p declared none_here)
              i in
          absurd nothing
      | inl here ↦
          let (before, after, passed) =
            check_access-passed net (full_name lbc) self p declared (sorted_ports ports) st out h
              (any-sorted_ports p ports ∙ here) in
          check_fields-equal net (full_name lbc) self p f (at no_fields p declared) before after a b
            n passed i j
    ]

-- Where the check of a resource passes, two listeners on one port, of that resource or of others on
-- the load balancer, have the same blocked networks, as far as the comparison tells, if both set
-- them, and the same default action if both set it.
pub sharers_agree_on_access :
    (net : Net) (lbc : LoadBalancerConfig) (lb_id : Text) (all : List LoadBalancerConfig)
    (st out : Checked) (f : AclField) (a b : LoadBalancerConfig) (l k : Listener) (v w : Text)
    → same_field f allowed ≡ false
    → validate_cross_listener_acl net lbc lb_id all st ≡ (out, none)
    → OnIt lbc lb_id all a
    → In l a.spec.listeners
    → get_field f (spec_acl l) ≡ some v
    → OnIt lbc lb_id all b
    → In k b.spec.listeners
    → get_field f (spec_acl k) ≡ some w
    → l.protocol_port ≡ k.protocol_port
    → acl_value_equal net f (some v) (some w) ≡ true
sharers_agree_on_access net lbc lb_id all st out f a b l k v w n h oa il sl ob ik sk e =
    collected_agree net lbc lb_id all st out k.protocol_port f (says (full_name a) v)
      (says (full_name b) w) n h (In-collected k.protocol_port f lbc lb_id v all a l oa il e sl)
      (In-collected k.protocol_port f lbc lb_id w all b k ob ik refl sk)
