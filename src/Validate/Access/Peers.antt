-- ===== src/Validate/Access/Peers.antt =====
-- The peers that the check records are those that `collectAclPeers` finds for the paths that do
-- not run the check.
use vngcloud_load_balancer_c.Base.{
  ℕ, ◌≡◌, ◌≢◌, refl, sym, ap, ◌∙◌, inl, inr, List, [], ◌∷◌, ◌++◌, map, append_assoc, append-nil,
  Option, none, some, Text, ◌==◌, nat_eq, text_eq, arith, if◌then◌else◌, Bool-cases, Option-cases,
  All, text_beq_iff, find?, All-append,
}
use vngcloud_load_balancer_c.Api.{Listener, ListenerAcl, LoadBalancerConfig}
use vngcloud_load_balancer_c.Acl.{
  AclField, acl_fields, allowed, blocked, default, get_field, spec_acl,
}
use vngcloud_load_balancer_c.Validate.{Declaration, full_name, says, targets}
use vngcloud_load_balancer_c.Validate.Ports.{at, at-modify}
use vngcloud_load_balancer_c.Validate.Access.{
  Declared, PerField, collect, collect_acl_declarations, collect_acl_peers, collect_others,
  declare_fields, first_of, first_peer, no_fields, no_peers,
}

-- What a listener declares for a field.
unfoldable pub says_of : Text → Option Text → List Declaration
says_of name none = []
says_of name (some v) = says name v ∷ []

declare_fields_lem :
    (name : Text) (acl : ListenerAcl) (m : PerField (List Declaration)) (f : AclField)
    → declare_fields name acl acl_fields m f ≡ m f ++ says_of name (get_field f acl)
unfolding declare_fields says_of
declare_fields_lem name acl m allowed = ground (arith, append-nil (m allowed))
declare_fields_lem name acl m blocked = ground (arith, append-nil (m blocked))
declare_fields_lem name acl m default = ground (arith, append-nil (m default))

module _ (p : ℕ) (f : AclField) where
  -- What listeners declare for the field on the port, in their order.
  unfoldable pub said : Text → List Listener → List Declaration
  unfolding spec_acl
  said name [] = []
  said name (l ∷ ls) =
      let rest = said name ls in
      if l.protocol_port == p then says_of name (get_field f (spec_acl l)) ++ rest else rest

  said-named : (name : Text) (ls : List Listener) → All (λ d. d.lbc_name ≡ name) (said name ls)
  unfolding said says_of
  said-named name [] = tt
  said-named name (l ∷ ls) = elim (Bool-cases (l.protocol_port == p)) [
    | inl e ↦ elim (Option-cases (get_field f (spec_acl l))) [
      | inl n ↦ rw (e, n) (said-named name ls)
      | inr (v, s) ↦ rw (e, s) (refl, said-named name ls)
    ]
    | inr n ↦ rw n (said-named name ls)
  ]

  pub at-collect :
      (name : Text) (ls : List Listener) (m : Declared)
      → at no_fields p (collect name ls m) f ≡ at no_fields p m f ++ said name ls
  unfolding collect said
  at-collect name [] m = sym (append-nil (at no_fields p m f))
  at-collect name (l ∷ ls) m = elim (Bool-cases (l.protocol_port == p)) [
    | inl e ↦ rw (at-collect name ls, at-modify, e, declare_fields_lem, append_assoc) refl
    | inr n ↦ rw (at-collect name ls, at-modify, n) refl
  ]

  -- What the other resources declare.
  unfoldable pub others : Text → Text → List LoadBalancerConfig → List Declaration
  unfolding said
  others self_name lb_id [] = []
  others self_name lb_id (lbc ∷ all) =
      let rest = others self_name lb_id all in
      if full_name lbc == self_name
      then rest
      else if targets lb_id lbc
      then said (full_name lbc) lbc.spec.listeners ++ rest
      else rest

  pub at-collect_others :
      (self_name lb_id : Text) (all : List LoadBalancerConfig) (m : Declared)
      → at no_fields p (collect_others self_name lb_id all m) f
        ≡ at no_fields p m f ++ others self_name lb_id all
  unfolding collect_others others
  at-collect_others self_name lb_id [] m = sym (append-nil (at no_fields p m f))
  at-collect_others self_name lb_id (lbc ∷ all) m = elim (Bool-cases (full_name lbc == self_name)) [
    | inl e ↦ rw (e, at-collect_others self_name lb_id all) refl
    | inr n ↦ elim (Bool-cases (targets lb_id lbc)) [
      | inl t ↦ rw (n, t, at-collect_others self_name lb_id all, at-collect, append_assoc) refl
      | inr u ↦ rw (n, u, at-collect_others self_name lb_id all) refl
    ]
  ]

  renamed :
      (self_name : Text) (ds : List Declaration) (name : Text)
      → name ≢ self_name
      → All (λ d. d.lbc_name ≡ name) ds
      → All (λ d. d.lbc_name ≢ self_name) ds
  renamed self_name [] name n h = tt
  renamed self_name (d ∷ ds) name n (e, h) = (λ s. n (sym e ∙ s), renamed self_name ds name n h)

  others-named :
      (self_name lb_id : Text) (all : List LoadBalancerConfig)
      → All (λ d. d.lbc_name ≢ self_name) (others self_name lb_id all)
  unfolding others
  others-named self_name lb_id [] = tt
  others-named self_name lb_id (lbc ∷ all) = elim (Bool-cases (full_name lbc == self_name)) [
    | inl e ↦ rw e (others-named self_name lb_id all)
    | inr n ↦ elim (Bool-cases (targets lb_id lbc)) [
      | inl t ↦
          rw (n, t)
            (All-append (λ d. d.lbc_name ≢ self_name) (said (full_name lbc) lbc.spec.listeners) _
              (renamed self_name _ (full_name lbc)
                (λ e. ground (arith, text_beq_iff (full_name lbc) self_name))
                (said-named (full_name lbc) lbc.spec.listeners))
              (others-named self_name lb_id all))
      | inr u ↦ rw (n, u) (others-named self_name lb_id all)
    ]
  ]

  first_peer_own :
      (self_name : Text) (ds es : List Declaration)
      → All (λ d. d.lbc_name ≡ self_name) ds
      → first_peer self_name (ds ++ es) ≡ first_peer self_name es
  unfolding first_peer find?
  first_peer_own self_name [] es h = refl
  first_peer_own self_name (d ∷ ds) es (e, h) =
      ground (arith, first_peer_own self_name ds es h, text_beq_iff d.lbc_name self_name)

  first_peer_other :
      (self_name : Text) (es : List Declaration)
      → All (λ d. d.lbc_name ≢ self_name) es
      → first_peer self_name es ≡ first_of es
  unfolding first_peer find?
  first_peer_other self_name [] h = refl
  first_peer_other self_name (d ∷ es) (n, h) = ground (arith, text_beq_iff d.lbc_name self_name)

  at-first_of :
      (m : Declared)
      → at no_peers p
          (map (λ (e : ℕ × PerField (List Declaration)). (e.0, λ g. first_of (e.1 g))) m)
          f
        ≡ first_of (at no_fields p m f)
  unfolding at
  at-first_of [] = refl
  at-first_of ((q, ds) ∷ m) = elim (Bool-cases (q == p)) [
    | inl e ↦ rw e refl
    | inr n ↦ rw n (at-first_of m)
  ]

  -- The first other declaration among all those collected, and the first of those collected
  -- without the resource itself.
  pub first_peer-declared :
      (lbc : LoadBalancerConfig) (lb_id : Text) (all : List LoadBalancerConfig)
      → first_peer
          (full_name lbc)
          (at no_fields p (collect_acl_declarations (full_name lbc) lbc.spec.listeners lb_id all) f)
        ≡ at no_peers p (collect_acl_peers lbc lb_id all) f
  unfolding collect_acl_declarations collect_acl_peers collect at
  first_peer-declared lbc lb_id all =
      let name = full_name lbc in
      let own = said name lbc.spec.listeners in
      ap (first_peer name) (
        at-collect_others name lb_id all _
        ∙ ap (λ ds. ds ++ others name lb_id all) (at-collect name lbc.spec.listeners []))
      ∙ (first_peer_own name own (others name lb_id all) (said-named name lbc.spec.listeners)
          ∙ (first_peer_other name (others name lb_id all) (others-named name lb_id all)
              ∙ (ap first_of (sym (at-collect_others name lb_id all []))
                  ∙ sym (at-first_of (collect_others name lb_id all [])))))
