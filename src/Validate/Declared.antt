-- ===== src/Validate/Declared.antt =====
-- What the resources on a load balancer declare for a port, and that collecting gathers it.
use vngcloud_load_balancer_c.Base.{
  ℕ, ◌≡◌, refl, sym, inl, inr, true, List, [], ◌∷◌, ◌++◌, Text, ◌==◌, nat_eq, text_eq,
  if◌then◌else◌, Bool-cases, In, In-append, nat_beq_iff, append_assoc, append-nil,
}
use vngcloud_load_balancer_c.Api.{Listener, LoadBalancerConfig}
use vngcloud_load_balancer_c.Validate.{
  Declaration, collect_all, collect_listeners, full_name, says, targets,
}
use vngcloud_load_balancer_c.Validate.Ports.{IsPortMap, at, at-modify, modify-IsPortMap}

-- The listener serves the port for a resource on the load balancer.
abbrev pub Serves : ℕ → Text → List LoadBalancerConfig → LoadBalancerConfig → Listener → Type 0
Serves p lb_id all lbc l =
    In lbc all × (targets lb_id lbc ≡ true) × In l lbc.spec.listeners × (l.protocol_port ≡ p)

module _ (value_of : Listener → Text) where
  -- What listeners say of a port, in their order.
  unfoldable pub said : ℕ → Text → List Listener → List Declaration
  said p name [] = []
  said p name (l ∷ ls) =
      let rest = said p name ls in
      if l.protocol_port == p then says name (value_of l) ∷ rest else rest

  unfoldable pub declared : ℕ → Text → List LoadBalancerConfig → List Declaration
  unfolding said
  declared p lb_id [] = []
  declared p lb_id (lbc ∷ all) =
      let rest = declared p lb_id all in
      if targets lb_id lbc then said p (full_name lbc) lbc.spec.listeners ++ rest else rest

  at-collect_listeners :
      (p : ℕ) (name : Text) (ls : List Listener) (m : List (ℕ × List Declaration))
      → at [] p (collect_listeners value_of name ls m) ≡ at [] p m ++ said p name ls
  unfolding collect_listeners said
  at-collect_listeners p name [] m = sym (append-nil (at [] p m))
  at-collect_listeners p name (l ∷ ls) m = elim (Bool-cases (l.protocol_port == p)) [
    | inl e ↦ rw (at-collect_listeners p name ls, at-modify, e, append_assoc) refl
    | inr n ↦ rw (at-collect_listeners p name ls, at-modify, n) refl
  ]

  pub at-collect_all :
      (p : ℕ) (lb_id : Text) (all : List LoadBalancerConfig) (m : List (ℕ × List Declaration))
      → at [] p (collect_all value_of lb_id all m) ≡ at [] p m ++ declared p lb_id all
  unfolding collect_all declared
  at-collect_all p lb_id [] m = sym (append-nil (at [] p m))
  at-collect_all p lb_id (lbc ∷ all) m = elim (Bool-cases (targets lb_id lbc)) [
    | inl e ↦
        rw (e, at-collect_all p lb_id all, at-collect_listeners p (full_name lbc), append_assoc)
          refl
    | inr n ↦ rw (n, at-collect_all p lb_id all) refl
  ]

  In-said :
      (p : ℕ) (name : Text) (ls : List Listener) (l : Listener)
      → In l ls
      → l.protocol_port ≡ p
      → In (says name (value_of l)) (said p name ls)
  unfolding said
  In-said p name [] l i e = absurd i
  In-said p name (k ∷ ls) l (inl s) e = rw (sym s, (nat_beq_iff l.protocol_port p).1 e) (inl refl)
  In-said p name (k ∷ ls) l (inr i) e = elim (Bool-cases (k.protocol_port == p)) [
    | inl y ↦ rw y (inr (In-said p name ls l i e))
    | inr n ↦ rw n (In-said p name ls l i e)
  ]

  pub In-declared :
      (p : ℕ) (lb_id : Text) (all : List LoadBalancerConfig) (lbc : LoadBalancerConfig)
      (l : Listener)
      → In lbc all
      → targets lb_id lbc ≡ true
      → In l lbc.spec.listeners
      → l.protocol_port ≡ p
      → In (says (full_name lbc) (value_of l)) (declared p lb_id all)
  unfolding declared
  In-declared p lb_id [] lbc l i t j e = absurd i
  In-declared p lb_id (x ∷ all) lbc l (inl s) t j e =
      rw (sym s, t)
        ((In-append _ _ (declared p lb_id all)).1
          (inl (In-said p (full_name lbc) lbc.spec.listeners l j e)))
  In-declared p lb_id (x ∷ all) lbc l (inr i) t j e =
      let later = In-declared p lb_id all lbc l i t j e in
      elim (Bool-cases (targets lb_id x)) [
        | inl y ↦ rw y ((In-append _ (said p (full_name x) x.spec.listeners) _).1 (inr later))
        | inr n ↦ rw n later
      ]

  said-In :
      (p : ℕ) (name : Text) (ls : List Listener) (d : Declaration)
      → In d (said p name ls)
      → (l : Listener) × In l ls × (l.protocol_port ≡ p) × (d ≡ says name (value_of l))
  unfolding said
  said-In p name [] d = λ i. absurd i
  said-In p name (k ∷ ls) d = elim (Bool-cases (k.protocol_port == p)) [
    | inl y ↦ rw y (λ i. elim i [
      | inl e ↦ (k, inl refl, (nat_beq_iff k.protocol_port p).0 y, e)
      | inr j ↦ let (l, h, q, r) = said-In p name ls d j in (l, inr h, q, r)
    ])
    | inr n ↦ rw n (λ i. let (l, h, q, r) = said-In p name ls d i in (l, inr h, q, r))
  ]

  pub declared-In :
      (p : ℕ) (lb_id : Text) (all : List LoadBalancerConfig) (d : Declaration)
      → In d (declared p lb_id all)
      → (lbc : LoadBalancerConfig) × (l : Listener) × Serves p lb_id all lbc l
        × (d ≡ says (full_name lbc) (value_of l))
  unfolding declared
  declared-In p lb_id [] d = λ i. absurd i
  declared-In p lb_id (x ∷ all) d =
      let later : In d (declared p lb_id all)
          → (lbc : LoadBalancerConfig) × (l : Listener) × Serves p lb_id (x ∷ all) lbc l
            × (d ≡ says (full_name lbc) (value_of l)) =
        λ i.
          let (lbc, l, (h, t, j, q), r) = declared-In p lb_id all d i in
          (lbc, l, (inr h, t, j, q), r) in
      elim (Bool-cases (targets lb_id x)) [
        | inl y ↦ rw y (λ i. elim ((In-append d (said p (full_name x) x.spec.listeners) _).0 i) [
          | inl j ↦
              let (l, h, q, r) = said-In p (full_name x) x.spec.listeners d j in
              (x, l, (inl refl, y, h, q), r)
          | inr j ↦ later j
        ])
        | inr n ↦ rw n later
      ]

  collect_listeners-IsPortMap :
      (name : Text) (ls : List Listener) (m : List (ℕ × List Declaration))
      → IsPortMap [] m
      → IsPortMap [] (collect_listeners value_of name ls m)
  unfolding collect_listeners
  collect_listeners-IsPortMap name [] m h = h
  collect_listeners-IsPortMap name (l ∷ ls) m h =
      collect_listeners-IsPortMap name ls _
        (modify-IsPortMap [] l.protocol_port (λ ds. ds ++ (says name (value_of l) ∷ [])) m h)

  pub collect_all-IsPortMap :
      (lb_id : Text) (all : List LoadBalancerConfig) (m : List (ℕ × List Declaration))
      → IsPortMap [] m
      → IsPortMap [] (collect_all value_of lb_id all m)
  unfolding collect_all
  collect_all-IsPortMap lb_id [] m h = h
  collect_all-IsPortMap lb_id (x ∷ all) m h = elim (Bool-cases (targets lb_id x)) [
    | inl y ↦ rw y (
        collect_all-IsPortMap lb_id all _
          (collect_listeners-IsPortMap (full_name x) x.spec.listeners m h))
    | inr n ↦ rw n (collect_all-IsPortMap lb_id all m h)
  ]
