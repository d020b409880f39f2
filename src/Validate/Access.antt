-- ===== src/Validate/Access.antt =====
-- Access lists that resources declare for a shared listener (internal/usecase/lbc_uc/validate.go:
-- validateCrossListenerAcl, collectAclDeclarations and collectAclPeers).
pub mod Peers
pub mod Recorded
pub mod Gathered
pub mod Agreed
use vngcloud_load_balancer_c.Base.{
  ℕ, Bool, true, false, not, ◌&&◌, List, [], ◌∷◌, ◌++◌, Option, none, some, Text, ◌==◌, nat_eq,
  text_eq, find?, if◌then◌else◌, leb, map, is_some,
}
use vngcloud_load_balancer_c.Api.{Listener, ListenerAcl, LoadBalancerConfig}
use vngcloud_load_balancer_c.Acl.{
  AclField, Net, acl_fields, get_field, spec_acl, allowed, blocked, default,
}
use vngcloud_load_balancer_c.Acl.Values.{acl_value_equal}
use vngcloud_load_balancer_c.Validate.{
  Declaration, Invalid, full_name, says, targets, validate_cross_listener_default_pools,
  validate_cross_listener_ports,
}
use vngcloud_load_balancer_c.Validate.Ports.{at, modify}

abbrev pub same_field : AclField → AclField → Bool
same_field allowed allowed = true
same_field blocked blocked = true
same_field default default = true
same_field _ _ = false

-- A map from a field, with the zero value for a missing one.
abbrev pub PerField : Type 0 → Type 0
PerField V = AclField → V

module _ {V : Type 0} where
  -- `m[f] = g(m[f])`.
  abbrev pub set_at : AclField → (V → V) → PerField V → PerField V
  set_at f g m h = if same_field f h then g (m h) else m h

-- The inner loop of `collect`: what one listener declares, field by field.
unfoldable pub declare_fields :
    Text → ListenerAcl → List AclField → PerField (List Declaration) → PerField (List Declaration)
declare_fields name acl [] m = m
declare_fields name acl (f ∷ fs) m =
    declare_fields name acl fs
      (elim (get_field f acl) [ none ↦ m | some v ↦ set_at f (λ ds. ds ++ (says name v ∷ [])) m ])

abbrev pub no_fields : PerField (List Declaration)
no_fields f = []

abbrev pub Declared : Type 0
Declared = List (ℕ × PerField (List Declaration))

-- `collect`.
unfoldable pub collect : Text → List Listener → Declared → Declared
unfolding modify declare_fields spec_acl
collect name [] m = m
collect name (l ∷ ls) m =
    collect name ls
      (modify no_fields l.protocol_port (declare_fields name (spec_acl l) acl_fields) m)

-- The loop over the other resources on the load balancer.
unfoldable pub collect_others : Text → Text → List LoadBalancerConfig → Declared → Declared
unfolding collect targets
collect_others self_name lb_id [] m = m
collect_others self_name lb_id (lbc ∷ all) m = collect_others self_name lb_id all (
    if full_name lbc == self_name
    then m
    else if targets lb_id lbc
    then collect (full_name lbc) lbc.spec.listeners m
    else m)

unfoldable pub collect_acl_declarations :
    Text → List Listener → Text → List LoadBalancerConfig → Declared
unfolding collect collect_others
collect_acl_declarations self_name self_listeners lb_id all =
    collect_others self_name lb_id all (collect self_name self_listeners [])

abbrev pub Peers : Type 0
Peers = List (ℕ × PerField (Option Declaration))

abbrev pub no_peers : PerField (Option Declaration)
no_peers f = none

-- The first declaration by another resource.
unfoldable pub first_peer : Text → List Declaration → Option Declaration
first_peer self_name ds = find? (λ d. not (d.lbc_name == self_name)) ds

abbrev pub first_of : List Declaration → Option Declaration
first_of [] = none
first_of (d ∷ ds) = some d

-- `collectAclPeers`.
unfoldable pub collect_acl_peers : LoadBalancerConfig → Text → List LoadBalancerConfig → Peers
unfolding collect_acl_declarations
collect_acl_peers lbc lb_id all =
    map (λ (e : ℕ × PerField (List Declaration)). (e.0, λ f. first_of (e.1 f)))
      (collect_acl_declarations (full_name lbc) [] lb_id all)

-- A line of `t.warnings`.
pub data Warning : Type 0 where
  differ : (port : ℕ) (f : AclField) (self_value other_name other : Text) → Warning
  filters : (port : ℕ) (f : AclField) (value name : Text) → Warning

-- What the check changes of the task.
pub record Checked : Type 0 where
  pub peers : Peers
  pub warnings : List Warning

-- `slices.Sort` on ports.
unfoldable pub port_insert : ℕ → List ℕ → List ℕ
port_insert p [] = p ∷ []
port_insert p (q ∷ ps) = let rest = port_insert p ps in if leb p q then p ∷ q ∷ ps else q ∷ rest

unfoldable pub sorted_ports : List ℕ → List ℕ
unfolding port_insert
sorted_ports [] = []
sorted_ports (p ∷ ps) = port_insert p (sorted_ports ps)

module _ (net : Net) (self_name : Text) where
  -- The loop over the further declarations of a field: the warnings, or the refusal.
  unfoldable pub compare_rest :
      ℕ → AclField → Declaration → List Declaration → Checked → Checked × Option Invalid
  unfolding acl_value_equal
  compare_rest port f a [] st = (st, none)
  compare_rest port f a (b ∷ ds) st =
      let same = compare_rest port f a ds st in
      let warned = compare_rest port f a ds (record st {
        warnings = st.warnings ++ (Warning.differ port f a.value b.lbc_name b.value ∷ []);
      }) in
      if acl_value_equal net f (some a.value) (some b.value)
      then same
      else if same_field f allowed
      then (if a.lbc_name == self_name then warned else same)
      else (st, some (Invalid.mixed_acl port f a.lbc_name a.value b.lbc_name b.value))

  module _ (self_acl : ℕ → Option ListenerAcl) where
    -- `own, ok := selfAcl[port]; ok && f.get(&own) == nil`.
    unfoldable pub leaves_unset : ℕ → AclField → Bool
    leaves_unset port f = elim (self_acl port) [
      | none ↦ false
      | some own ↦ not (is_some (get_field f own))
    ]

    -- The peer of the field is recorded, and a field that it alone sets is warned of.
    unfoldable pub record_peer : ℕ → AclField → List Declaration → Checked → Checked
    unfolding modify first_peer leaves_unset
    record_peer port f ds st = elim (first_peer self_name ds) [
      | none ↦ st
      | some peer ↦ record st {
        peers = modify no_peers port (set_at f (λ _. some peer)) st.peers;
        warnings =
            if leaves_unset port f
            then st.warnings ++ (Warning.filters port f peer.value peer.lbc_name ∷ [])
            else st.warnings;
      }
    ]

    -- One round of the inner loop.
    unfoldable pub check_field :
        ℕ → AclField → List Declaration → Checked → Checked × Option Invalid
    unfolding compare_rest record_peer
    check_field port f [] st = (st, none)
    check_field port f (a ∷ ds) st =
        let (compared, refused) = compare_rest port f a ds st in
        elim refused [
          | some e ↦ (compared, some e)
          | none ↦ (record_peer port f (a ∷ ds) compared, none)
        ]

    unfoldable pub check_fields :
        ℕ → PerField (List Declaration) → List AclField → Checked → Checked × Option Invalid
    unfolding check_field
    check_fields port ds [] st = (st, none)
    check_fields port ds (f ∷ fs) st =
        let (checked, refused) = check_field port f (ds f) st in
        elim refused [ some e ↦ (checked, some e) | none ↦ check_fields port ds fs checked ]

    unfoldable pub check_access : Declared → List ℕ → Checked → Checked × Option Invalid
    unfolding check_fields at
    check_access declared [] st = (st, none)
    check_access declared (port ∷ ports) st =
        let (checked, refused) = check_fields port (at no_fields port declared) acl_fields st in
        elim refused [ some e ↦ (checked, some e) | none ↦ check_access declared ports checked ]

-- `selfAcl`: of two listeners on a port the last one counts.
unfoldable pub self_access : List Listener → ℕ → Option ListenerAcl
unfolding spec_acl
self_access [] port = none
self_access (l ∷ ls) port = elim (self_access ls port) [
  | some acl ↦ some acl
  | none ↦ if l.protocol_port == port then some (spec_acl l) else none
]

-- `validateCrossListenerAcl`, from the task's peers and warnings.
unfoldable pub validate_cross_listener_acl :
    Net → LoadBalancerConfig → Text → List LoadBalancerConfig → Checked → Checked × Option Invalid
unfolding collect_acl_declarations check_access sorted_ports self_access
validate_cross_listener_acl net lbc lb_id all st =
    let declared = collect_acl_declarations (full_name lbc) lbc.spec.listeners lb_id all in
    check_access net (full_name lbc) (self_access lbc.spec.listeners) declared
      (sorted_ports (map (λ (e : ℕ × PerField (List Declaration)). e.0) declared)) st

-- `validateCrossLBCs`, after the resources have been listed.
unfoldable pub validate_cross_lbcs :
    Net → LoadBalancerConfig → Text → List LoadBalancerConfig → Checked → Checked × Option Invalid
unfolding validate_cross_listener_ports validate_cross_listener_default_pools
    validate_cross_listener_acl
validate_cross_lbcs net lbc lb_id all st = elim (validate_cross_listener_ports lb_id all) [
  | some e ↦ (st, some e)
  | none ↦ elim (validate_cross_listener_default_pools lb_id all) [
    | some e ↦ (st, some e)
    | none ↦ validate_cross_listener_acl net lbc lb_id all st
  ]
]
