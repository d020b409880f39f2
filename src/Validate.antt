-- ===== src/Validate.antt =====
-- What is checked before a deploy (internal/usecase/lbc_uc/validate.go). A message is a value that
-- keeps what it names. Go iterates a map in any order; the model takes the order in which the
-- ports were met, which only decides which of several errors is returned.
pub mod Ports
pub mod Declared
pub mod Sharing
pub mod Self
pub mod Access
mod Examples
use vngcloud_load_balancer_c.Base.{
  ℕ, Bool, true, false, not, List, [], ◌∷◌, ◌++◌, Option, none, some, Text, text, ◌==◌, nat_eq,
  text_eq, find?, if◌then◌else◌, get_or, leb, map,
}
use vngcloud_load_balancer_c.Api.{Listener, ListenerAcl, LoadBalancerConfig}
use vngcloud_load_balancer_c.Acl.{AclField, Net, acl_fields, get_field, spec_acl}
use vngcloud_load_balancer_c.Ownership.{load_balancer_of}
use vngcloud_load_balancer_c.Validate.Ports.{at, modify}

-- Why a resource is refused, each with `NewNoNeedRequeue`.
pub data Invalid : Type 0 where
  duplicate_port : (port : ℕ) (existing protocol : Text) → Invalid
  mixed_protocols mixed_pools : (port : ℕ) (first_name first name other : Text) → Invalid
  mixed_acl : (port : ℕ) (f : AclField) (first_name first name other : Text) → Invalid

-- The loop of `validateSelfListenerPorts`, over the ports met so far.
self_ports : List (ℕ × Option Text) → List Listener → Option Invalid
unfolding at modify
self_ports seen [] = none
self_ports seen (l ∷ ls) = elim (at none l.protocol_port seen) [
  | some existing ↦ some (Invalid.duplicate_port l.protocol_port existing l.protocol)
  | none ↦ self_ports (modify none l.protocol_port (λ _. some l.protocol) seen) ls
]

pub validate_self_listener_ports : LoadBalancerConfig → Option Invalid
unfolding self_ports
validate_self_listener_ports lbc = self_ports [] lbc.spec.listeners

-- What a resource says of a port (`protocolInfo`, `poolInfo`, `aclDeclaration`).
pub record Declaration : Type 0 where
  pub lbc_name : Text
  pub value : Text

abbrev pub says : Text → Text → Declaration
says name v = record { lbc_name = name; value = v }

abbrev pub full_name : LoadBalancerConfig → Text
full_name lbc = lbc.namespace ++ (text "/" ++ lbc.name)

-- The resource references this load balancer.
abbrev pub targets : Text → LoadBalancerConfig → Bool
unfolding load_balancer_of
targets lb_id lbc = if load_balancer_of lbc == [] then false else load_balancer_of lbc == lb_id

-- `m[port] = append(m[port], …)` for each listener of one resource.
collect_listeners :
    (Listener → Text)
    → Text
    → List Listener
    → List (ℕ × List Declaration)
    → List (ℕ × List Declaration)
unfolding modify
collect_listeners value_of name [] m = m
collect_listeners value_of name (l ∷ ls) m =
    collect_listeners value_of name ls
      (modify [] l.protocol_port (λ ds. ds ++ (says name (value_of l) ∷ [])) m)

-- The same, for every resource that references the load balancer.
pub collect_all :
    (Listener → Text)
    → Text
    → List LoadBalancerConfig
    → List (ℕ × List Declaration)
    → List (ℕ × List Declaration)
unfolding targets collect_listeners
collect_all value_of lb_id [] m = m
collect_all value_of lb_id (lbc ∷ all) m = collect_all value_of lb_id all (
    if targets lb_id lbc
    then collect_listeners value_of (full_name lbc) lbc.spec.listeners m
    else m)

-- The first declaration of the rest that differs from the first one.
differing : List Declaration → Option (Declaration × Declaration)
differing [] = none
differing (a ∷ ds) = elim (find? (λ b. not (b.value == a.value)) ds) [
  | none ↦ none
  | some b ↦ some (a, b)
]

-- The loop over the ports, shared by the two checks.
check_ports :
    (ℕ → Text → Text → Text → Text → Invalid) → List (ℕ × List Declaration) → Option Invalid
unfolding differing
check_ports refuse [] = none
check_ports refuse ((port, ds) ∷ m) =
    let rest = check_ports refuse m in
    elim (differing ds) [
      | none ↦ rest
      | some (a, b) ↦ some (refuse port a.lbc_name a.value b.lbc_name b.value)
    ]

abbrev pub protocol_of : Listener → Text
protocol_of l = l.protocol

-- No default pool reads as the empty name.
abbrev pub default_pool_of : Listener → Text
default_pool_of l = get_or l.default_pool_name []

pub validate_cross_listener_ports : Text → List LoadBalancerConfig → Option Invalid
unfolding collect_all check_ports
validate_cross_listener_ports lb_id all =
    check_ports Invalid.mixed_protocols (collect_all protocol_of lb_id all [])

pub validate_cross_listener_default_pools : Text → List LoadBalancerConfig → Option Invalid
unfolding collect_all check_ports
validate_cross_listener_default_pools lb_id all =
    check_ports Invalid.mixed_pools (collect_all default_pool_of lb_id all [])
