-- ===== src/Validate/Self.antt =====
-- The check of one resource alone.
use vngcloud_load_balancer_c.Base.{
  ℕ, ◌≡◌, ◌≢◌, ◌↔◌, refl, sym, ◌∙◌, inl, inr, List, [], ◌∷◌, arith, Option, none, some, Text,
  nat_eq, nat_beq_iff, All, All-of_In, Option-cases,
}
use vngcloud_load_balancer_c.Api.{Listener, LoadBalancerConfig}
use vngcloud_load_balancer_c.Validate.{self_ports, validate_self_listener_ports}
use vngcloud_load_balancer_c.Validate.Ports.{at, modify, at-modify}

-- No two listeners share a port.
abbrev pub PortsDiffer : List Listener → Type 0
PortsDiffer [] = Unit
PortsDiffer (l ∷ ls) = All (λ k. k.protocol_port ≢ l.protocol_port) ls × PortsDiffer ls

fresh_iff :
    (p : ℕ) (v : Text) (seen : List (ℕ × Option Text)) (ls : List Listener)
    → All (λ k. at none k.protocol_port (modify none p (λ _. some v) seen) ≡ none) ls
      ↔ (All (λ k. at none k.protocol_port seen ≡ none) ls × All (λ k. k.protocol_port ≢ p) ls)
fresh_iff p v seen [] = (λ h. (tt, tt), λ h. tt)
fresh_iff p v seen (k ∷ ls) =
    let read = at-modify none p k.protocol_port (λ _. some v) seen in
    let (to, from) = fresh_iff p v seen ls in
    (
      λ (h, hs).
          let (old, new) = to hs in
          (
            (ground (arith, read, nat_beq_iff p k.protocol_port), old),
            (λ e. ground (arith, read, nat_beq_iff p k.protocol_port), new),
          ),
      λ ((o, os), (n, ns)). (ground (arith, read, nat_beq_iff p k.protocol_port), from (os, ns)),
    )

self_ports_new :
    (seen : List (ℕ × Option Text)) (l : Listener) (ls : List Listener)
    → at none l.protocol_port seen ≡ none
    → self_ports seen (l ∷ ls)
      ≡ self_ports (modify none l.protocol_port (λ _. some l.protocol) seen) ls
unfolding self_ports
self_ports_new seen l ls e = rw (self_ports, e) refl

self_ports_iff :
    (seen : List (ℕ × Option Text)) (ls : List Listener)
    → (self_ports seen ls ≡ none)
      ↔ (All (λ l. at none l.protocol_port seen ≡ none) ls × PortsDiffer ls)
unfolding self_ports
self_ports_iff seen [] = (λ h. (tt, tt), λ h. refl)
self_ports_iff seen (l ∷ ls) = elim (Option-cases (at none l.protocol_port seen)) [
  | inl e ↦
      let (to, from) = fresh_iff l.protocol_port l.protocol seen ls in
      let (there, back) =
        self_ports_iff (modify none l.protocol_port (λ _. some l.protocol) seen) ls in
      let step = self_ports_new seen l ls e in
      (
        λ h.
            let (fresh, differ) = there (sym step ∙ h) in
            let (os, ns) = to fresh in ((e, os), (ns, differ)),
        λ ((_, os), (ns, differ)). step ∙ back (from (os, ns), differ),
      )
  | inr (x, e) ↦ (λ h. ground arith, λ ((n, _), _). cc)
]

-- The check of a resource alone passes exactly if no two of its listeners share a port.
pub validate_self_iff :
    (lbc : LoadBalancerConfig)
    → (validate_self_listener_ports lbc ≡ none) ↔ PortsDiffer lbc.spec.listeners
unfolding validate_self_listener_ports at
validate_self_iff lbc =
    let (to, from) = self_ports_iff [] lbc.spec.listeners in
    (λ h. (to h).1, λ d. from (All-of_In (λ l. none ≡ none) lbc.spec.listeners (λ l i. refl), d))
