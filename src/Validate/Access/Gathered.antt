-- ===== src/Validate/Access/Gathered.antt =====
-- What a resource on the load balancer sets for a listener is among the declarations collected.
use vngcloud_load_balancer_c.Base.{
  ℕ, ◌≡◌, ◌≢◌, refl, sym, ap, subst, ◌∙◌, inl, inr, ◌⊎◌, true, List, [], ◌∷◌, ◌++◌, some, Text,
  ◌==◌, nat_eq, text_eq, Bool-cases, text_beq_iff, nat_beq_iff, In, In-append,
}
use vngcloud_load_balancer_c.Api.{Listener, LoadBalancerConfig}
use vngcloud_load_balancer_c.Acl.{AclField, get_field, spec_acl}
use vngcloud_load_balancer_c.Validate.{full_name, says, targets}
use vngcloud_load_balancer_c.Validate.Ports.{at}
use vngcloud_load_balancer_c.Validate.Access.{collect, collect_acl_declarations, no_fields}
use vngcloud_load_balancer_c.Validate.Access.Peers.{
  at-collect, at-collect_others, others, said, says_of,
}

-- The resource that is checked, or another one on the load balancer.
abbrev pub OnIt : LoadBalancerConfig → Text → List LoadBalancerConfig → LoadBalancerConfig → Type 0
OnIt self lb_id all lbc =
    (lbc ≡ self) ⊎ (In lbc all × (full_name lbc ≢ full_name self) × (targets lb_id lbc ≡ true))

module _ (p : ℕ) (f : AclField) where
  In-said :
      (name v : Text) (ls : List Listener) (l : Listener)
      → In l ls
      → l.protocol_port ≡ p
      → get_field f (spec_acl l) ≡ some v
      → In (says name v) (said p f name ls)
  unfolding said says_of
  In-said name v [] l i e s = absurd i
  In-said name v (k ∷ ls) l (inl same) e s =
      let port : (k.protocol_port == p) ≡ true =
        (nat_beq_iff k.protocol_port p).1 (ap (λ (x : Listener). x.protocol_port) (sym same) ∙ e) in
      let set : get_field f (spec_acl k) ≡ some v =
        ap (λ (x : Listener). get_field f (spec_acl x)) (sym same) ∙ s in
      rw (port, set) (inl refl)
  In-said name v (k ∷ ls) l (inr i) e s =
      let later = In-said name v ls l i e s in
      elim (Bool-cases (k.protocol_port == p)) [
        | inl y ↦ rw y (
            (In-append _ (says_of name (get_field f (spec_acl k))) (said p f name ls)).1
              (inr later))
        | inr n ↦ rw n later
      ]

  In-others :
      (self_name lb_id v : Text) (all : List LoadBalancerConfig) (lbc : LoadBalancerConfig)
      → In lbc all
      → full_name lbc ≢ self_name
      → targets lb_id lbc ≡ true
      → In (says (full_name lbc) v) (said p f (full_name lbc) lbc.spec.listeners)
      → In (says (full_name lbc) v) (others p f self_name lb_id all)
  unfolding others
  In-others self_name lb_id v [] lbc i n t d = absurd i
  In-others self_name lb_id v (x ∷ all) lbc (inl same) n t d =
      elim (Bool-cases (full_name lbc == self_name)) [
        | inl e ↦ absurd (n ((text_beq_iff (full_name lbc) self_name).0 e))
        | inr e ↦ rw (sym same, e, t) ((In-append _ _ (others p f self_name lb_id all)).1 (inl d))
      ]
  In-others self_name lb_id v (x ∷ all) lbc (inr i) n t d =
      let later = In-others self_name lb_id v all lbc i n t d in
      elim (Bool-cases (full_name x == self_name)) [
        | inl e ↦ rw e later
        | inr e ↦ elim (Bool-cases (targets lb_id x)) [
          | inl y ↦
              rw (e, y)
                ((In-append _ (said p f (full_name x) x.spec.listeners)
                    (others p f self_name lb_id all)).1
                  (inr later))
          | inr u ↦ rw (e, u) later
        ]
      ]

  pub In-collected :
      (self : LoadBalancerConfig) (lb_id v : Text) (all : List LoadBalancerConfig)
      (lbc : LoadBalancerConfig) (l : Listener)
      → OnIt self lb_id all lbc
      → In l lbc.spec.listeners
      → l.protocol_port ≡ p
      → get_field f (spec_acl l) ≡ some v
      → In (says (full_name lbc) v) (
          at no_fields p
            (collect_acl_declarations (full_name self) self.spec.listeners lb_id all)
            f)
  unfolding collect_acl_declarations at
  In-collected self lb_id v all lbc l on i e s =
      let name = full_name self in
      let own = said p f name self.spec.listeners in
      let rest = others p f name lb_id all in
      let own_at = at-collect p f name self.spec.listeners [] in
      let gathered =
        at-collect_others p f name lb_id all (collect name self.spec.listeners [])
        ∙ ap (λ ds. ds ++ rest) own_at in
      let told = In-said (full_name lbc) v lbc.spec.listeners l i e s in
      rw gathered (
        (In-append (says (full_name lbc) v) own rest).1 (elim on [
          | inl same ↦ inl (
              subst
                (λ (x : LoadBalancerConfig).
                  In (says (full_name lbc) v) (said p f (full_name x) x.spec.listeners))
                same told)
          | inr (j, n, t) ↦ inr (In-others name lb_id v all lbc j n t told)
        ]))
