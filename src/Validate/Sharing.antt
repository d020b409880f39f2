-- ===== src/Validate/Sharing.antt =====
-- The checks across the resources of one load balancer, against what they declare.
use vngcloud_load_balancer_c.Base.{
  ℕ, ◌≡◌, ◌≢◌, refl, sym, ap, subst, ◌∙◌, inl, inr, true, not, List, [], ◌∷◌, arith, none, some,
  Text, ◌==◌, nat_eq, text_eq, Bool-cases, In, All, All-In, Option-cases, text_beq_iff, find?,
}
use vngcloud_load_balancer_c.Api.{Listener, LoadBalancerConfig}
use vngcloud_load_balancer_c.Validate.{
  Declaration, Invalid, check_ports, collect_all, default_pool_of, differing, full_name,
  protocol_of, targets, validate_cross_listener_default_pools, validate_cross_listener_ports,
}
use vngcloud_load_balancer_c.Validate.Ports.{at, at_of_In}
use vngcloud_load_balancer_c.Validate.Declared.{
  Serves, In-declared, at-collect_all, collect_all-IsPortMap, declared, declared-In,
}

find?-none :
    (a : Declaration) (ds : List Declaration)
    → find? (λ b. not (b.value == a.value)) ds ≡ none
    → All (λ b. b.value ≡ a.value) ds
unfolding find?
find?-none a [] h = tt
find?-none a (b ∷ ds) h =
    (ground (arith, text_beq_iff b.value a.value), find?-none a ds (ground arith))

find?-some :
    (a b : Declaration) (ds : List Declaration)
    → find? (λ b. not (b.value == a.value)) ds ≡ some b
    → In b ds × (b.value ≢ a.value)
unfolding find?
find?-some a b [] = λ h. cc
find?-some a b (d ∷ ds) = elim (Bool-cases (d.value == a.value)) [
  | inl e ↦ rw e (λ h. let (i, n) = find?-some a b ds h in (inr i, n))
  | inr e ↦ rw e (λ h. (inl (ground arith), λ v. ground (arith, text_beq_iff d.value a.value)))
]

first_value :
    (d : Declaration) (ds : List Declaration) (a : Declaration)
    → All (λ b. b.value ≡ d.value) ds
    → In a (d ∷ ds)
    → a.value ≡ d.value
first_value d ds a h (inl e) = ap (λ (x : Declaration). x.value) e
first_value d ds a h (inr i) = All-In (λ b. b.value ≡ d.value) ds h i

-- Where nothing differs, all values are the same.
differing-none :
    (ds : List Declaration) (a b : Declaration)
    → differing ds ≡ none
    → In a ds
    → In b ds
    → a.value ≡ b.value
unfolding differing
differing-none [] a b h i j = absurd i
differing-none (d ∷ ds) a b h i j = elim (Option-cases (find? (λ c. not (c.value == d.value)) ds)) [
  | inl e ↦
      let same = find?-none d ds e in first_value d ds a same i ∙ sym (first_value d ds b same j)
  | inr (c, e) ↦ ground arith
]

differing-some :
    (ds : List Declaration) (a b : Declaration)
    → differing ds ≡ some (a, b)
    → In a ds × In b ds × (b.value ≢ a.value)
unfolding differing
differing-some [] a b h = cc
differing-some (d ∷ ds) a b h = elim (Option-cases (find? (λ c. not (c.value == d.value)) ds)) [
  | inl e ↦ ground arith
  | inr (c, e) ↦
      let (i, n) = find?-some d c ds e in
      let da : d ≡ a = cc in
      let cb : c ≡ b = cc in
      (
        inl (sym da),
        inr (subst (λ x. In x ds) cb i),
        λ v. n (
            ap (λ (x : Declaration). x.value) cb
            ∙ (v ∙ sym (ap (λ (x : Declaration). x.value) da))),
      )
]

module _ (refuse : ℕ → Text → Text → Text → Text → Invalid) where
  check_ports-none :
      (p : ℕ) (m : List (ℕ × List Declaration))
      → check_ports refuse m ≡ none
      → differing (at [] p m) ≡ none
  unfolding check_ports at
  check_ports-none p [] h = refl
  check_ports-none p ((q, ds) ∷ m) h = elim (Bool-cases (q == p)) [
    | inl e ↦ ground arith
    | inr n ↦ rw n (check_ports-none p m (ground arith))
  ]

  check_ports-some :
      (e : Invalid) (m : List (ℕ × List Declaration))
      → check_ports refuse m ≡ some e
      → (p : ℕ) × (ds : List Declaration) × (a : Declaration) × (b : Declaration) × In (p, ds) m
        × (differing ds ≡ some (a, b))
        × (e ≡ refuse p a.lbc_name a.value b.lbc_name b.value)
  unfolding check_ports
  check_ports-some e [] h = cc
  check_ports-some e ((q, ds) ∷ m) h = elim (Option-cases (differing ds)) [
    | inl n ↦
        let (p, es, a, b, i, q, r) = check_ports-some e m (ground arith) in
        (p, es, a, b, inr i, q, r)
    | inr ((a, b), d) ↦ (q, ds, a, b, inl refl, d, ground arith)
  ]

module _ (value_of : Listener → Text) (refuse : ℕ → Text → Text → Text → Text → Invalid)
    (lb_id : Text) (all : List LoadBalancerConfig) where
  same_value :
      (a b : LoadBalancerConfig) (l k : Listener)
      → check_ports refuse (collect_all value_of lb_id all []) ≡ none
      → In a all
      → targets lb_id a ≡ true
      → In l a.spec.listeners
      → In b all
      → targets lb_id b ≡ true
      → In k b.spec.listeners
      → l.protocol_port ≡ k.protocol_port
      → value_of l ≡ value_of k
  unfolding declared at
  same_value a b l k h ia ta il ib tb ik e =
      let ds = declared value_of k.protocol_port lb_id all in
      let gathered : differing ds ≡ none =
        ap differing (sym (at-collect_all value_of k.protocol_port lb_id all []))
        ∙ check_ports-none refuse k.protocol_port _ h in
      differing-none ds _ _ gathered (In-declared value_of k.protocol_port lb_id all a l ia ta il e)
        (In-declared value_of k.protocol_port lb_id all b k ib tb ik refl)

  conflict :
      (e : Invalid)
      → check_ports refuse (collect_all value_of lb_id all []) ≡ some e
      → (p : ℕ) × (a : LoadBalancerConfig) × (b : LoadBalancerConfig) × (l : Listener)
        × (k : Listener) × Serves p lb_id all a l
        × Serves p lb_id all b k
        × (value_of k ≢ value_of l)
        × (e ≡ refuse p (full_name a) (value_of l) (full_name b) (value_of k))
  unfolding declared at
  conflict e h =
      let (p, ds, c, d, i, q, r) = check_ports-some refuse e _ h in
      let entry : at [] p (collect_all value_of lb_id all []) ≡ ds =
        at_of_In [] p ds _ (collect_all-IsPortMap value_of lb_id all [] tt) i in
      let gathered : ds ≡ declared value_of p lb_id all =
        sym entry ∙ at-collect_all value_of p lb_id all [] in
      let (ic, id, n) = differing-some ds c d q in
      let (a, l, sa, ea) = declared-In value_of p lb_id all c (subst (λ x. In c x) gathered ic) in
      let (b, k, sb, eb) = declared-In value_of p lb_id all d (subst (λ x. In d x) gathered id) in
      (
        p,
        a,
        b,
        l,
        k,
        sa,
        sb,
        λ v. n (
            ap (λ (x : Declaration). x.value) eb
            ∙ (v ∙ sym (ap (λ (x : Declaration). x.value) ea))),
        r
            ∙ (ap (λ (x : Declaration). refuse p x.lbc_name x.value d.lbc_name d.value) ea
                ∙ ap (λ (x : Declaration). refuse p (full_name a) (value_of l) x.lbc_name x.value)
                    eb),
      )

-- Where both checks pass, two listeners on the same port of the load balancer have the same
-- protocol and the same default pool, whichever resources they belong to.
pub sharers_agree :
    (lb_id : Text) (all : List LoadBalancerConfig) (a b : LoadBalancerConfig) (l k : Listener)
    → validate_cross_listener_ports lb_id all ≡ none
    → validate_cross_listener_default_pools lb_id all ≡ none
    → In a all
    → targets lb_id a ≡ true
    → In l a.spec.listeners
    → In b all
    → targets lb_id b ≡ true
    → In k b.spec.listeners
    → l.protocol_port ≡ k.protocol_port
    → (l.protocol ≡ k.protocol) × (default_pool_of l ≡ default_pool_of k)
unfolding validate_cross_listener_ports validate_cross_listener_default_pools
sharers_agree lb_id all a b l k h i ia ta il ib tb ik e = (
  same_value protocol_of Invalid.mixed_protocols lb_id all a b l k h ia ta il ib tb ik e,
  same_value default_pool_of Invalid.mixed_pools lb_id all a b l k i ia ta il ib tb ik e,
)

-- A refusal over protocols names two listeners on that port, of resources on the load balancer,
-- whose protocols differ.
pub refused_protocols_differ :
    (lb_id : Text) (all : List LoadBalancerConfig) (e : Invalid)
    → validate_cross_listener_ports lb_id all ≡ some e
    → (p : ℕ) × (a : LoadBalancerConfig) × (b : LoadBalancerConfig) × (l : Listener)
      × (k : Listener) × Serves p lb_id all a l
      × Serves p lb_id all b k
      × (k.protocol ≢ l.protocol)
      × (e ≡ Invalid.mixed_protocols p (full_name a) l.protocol (full_name b) k.protocol)
unfolding validate_cross_listener_ports
refused_protocols_differ lb_id all e h = conflict protocol_of Invalid.mixed_protocols lb_id all e h
