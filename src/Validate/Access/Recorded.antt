-- ===== src/Validate/Access/Recorded.antt =====
-- What the check has recorded of each port and field, once it passes.
use vngcloud_load_balancer_c.Base.{
  ℕ, ◌≡◌, refl, sym, ap, ◌∙◌, inl, inr, Bool, true, false, ◌&&◌, ◌||◌, List, [], ◌∷◌, ◌++◌, map,
  Option, none, some, Text, ◌==◌, nat_eq, text_eq, arith, if◌then◌else◌, Bool-cases, Option-cases,
  nat_beq_iff, find?, any,
}
use vngcloud_load_balancer_c.Api.{ListenerAcl, LoadBalancerConfig}
use vngcloud_load_balancer_c.Acl.{AclField, Net, acl_fields, allowed, blocked, default}
use vngcloud_load_balancer_c.Validate.{Declaration, Invalid, full_name}
use vngcloud_load_balancer_c.Validate.Ports.{at, at-modify, modify}
use vngcloud_load_balancer_c.Validate.Access.{
  Checked, Declared, PerField, Peers, Warning, check_access, check_field, check_fields,
  collect_acl_declarations, collect_acl_peers, compare_rest, first_peer, no_fields, no_peers,
  record_peer, same_field, self_access, set_at, sorted_ports, port_insert,
  validate_cross_listener_acl,
}
use vngcloud_load_balancer_c.Validate.Access.Peers.{first_peer-declared}

-- A new peer replaces an old one.
abbrev pub or_old : Option Declaration → Option Declaration → Option Declaration
or_old none o = o
or_old (some d) o = some d

-- Three rounds, one for each field, set the field once.
merge_fields :
    (f : AclField) (here : Bool) (peer : PerField (Option Declaration))
    (a b c d : Option Declaration)
    → b ≡ (if here && same_field allowed f then or_old (peer allowed) a else a)
    → c ≡ (if here && same_field blocked f then or_old (peer blocked) b else b)
    → d ≡ (if here && same_field default f then or_old (peer default) c else c)
    → d ≡ (if here then or_old (peer f) a else a)
merge_fields allowed here peer a b c d h k l = ground arith
merge_fields blocked here peer a b c d h k l = ground arith
merge_fields default here peer a b c d h k l = ground arith

merge_rounds :
    (here later : Bool) (o new old mid out : Option Declaration)
    → (here ≡ true → new ≡ o)
    → mid ≡ (if here then or_old new old else old)
    → out ≡ (if later then or_old o mid else mid)
    → out ≡ (if here || later then or_old o old else old)
merge_rounds true later none new old mid out same h k = ground (arith, same refl)
merge_rounds true later (some d) new old mid out same h k = ground (arith, same refl)
merge_rounds false later o new old mid out same h k = ground arith

module _ (net : Net) (self_name : Text) where
  compare_rest-peers :
      (port : ℕ) (f : AclField) (a : Declaration) (ds : List Declaration) (st : Checked)
      → (compare_rest net self_name port f a ds st).0.peers ≡ st.peers
  unfolding compare_rest
  compare_rest-peers port f a [] st = refl
  compare_rest-peers port f a (b ∷ ds) st =
      let warned = record st {
        warnings = st.warnings ++ (Warning.differ port f a.value b.lbc_name b.value ∷ []);
      } in
      ground (arith, compare_rest-peers port f a ds st, compare_rest-peers port f a ds warned)

  module _ (self_acl : ℕ → Option ListenerAcl) (p : ℕ) (f : AclField) where
    modify_field :
        (port : ℕ) (g : AclField) (d : Declaration) (peers : Peers)
        → at no_peers p (modify no_peers port (set_at g (λ _. some d)) peers) f
          ≡ (if port == p && same_field g f then some d else at no_peers p peers f)
    modify_field port g d peers = elim (Bool-cases (port == p)) [
      | inl e ↦ rw (at-modify, e) refl
      | inr n ↦ rw (at-modify, n) refl
    ]

    record_peer-at :
        (port : ℕ) (g : AclField) (ds : List Declaration) (st : Checked)
        → at no_peers p (record_peer net self_name self_acl port g ds st).peers f ≡ (
            if port == p && same_field g f
            then or_old (first_peer self_name ds) (at no_peers p st.peers f)
            else at no_peers p st.peers f)
    unfolding record_peer
    record_peer-at port g ds st = elim (Option-cases (first_peer self_name ds)) [
      | inl e ↦ ground (arith, e)
      | inr (d, e) ↦ ground (arith, e, modify_field port g d st.peers)
    ]

    check_field-at :
        (port : ℕ) (g : AclField) (ds : List Declaration) (st out : Checked)
        → check_field net self_name self_acl port g ds st ≡ (out, none)
        → at no_peers p out.peers f ≡ (
            if port == p && same_field g f
            then or_old (first_peer self_name ds) (at no_peers p st.peers f)
            else at no_peers p st.peers f)
    unfolding check_field first_peer find?
    check_field-at port g [] st out h =
        let same : st ≡ out = ap (λ (x : Checked × Option Invalid). x.0) h in
        ground (arith, ap (λ (x : Checked). at no_peers p x.peers f) same)
    check_field-at port g (a ∷ ds) st out h =
        elim (Option-cases ((compare_rest net self_name port g a ds st).1)) [
          | inl e ↦
              let compared = (compare_rest net self_name port g a ds st).0 in
              let same : record_peer net self_name self_acl port g (a ∷ ds) compared ≡ out =
                ground (arith, e) in
              ap (λ (x : Checked). at no_peers p x.peers f) (sym same)
              ∙ (record_peer-at port g (a ∷ ds) compared
                  ∙ rw (compare_rest-peers port g a ds st) refl)
          | inr (x, e) ↦ ground arith
        ]

    pub check_fields_step :
        (port : ℕ) (ds : PerField (List Declaration)) (g : AclField) (gs : List AclField)
        (st out : Checked)
        → check_fields net self_name self_acl port ds (g ∷ gs) st ≡ (out, none)
        → (mid : Checked) × (check_field net self_name self_acl port g (ds g) st ≡ (mid, none))
          × (check_fields net self_name self_acl port ds gs mid ≡ (out, none))
    unfolding check_fields
    check_fields_step port ds g gs st out h =
        let round = check_field net self_name self_acl port g (ds g) st in
        elim (Option-cases (round.1)) [
          | inl e ↦ (round.0, ap (λ o. (round.0, o)) e, ground (arith, e))
          | inr (x, e) ↦ ground arith
        ]

    check_fields-at :
        (port : ℕ) (ds : PerField (List Declaration)) (st out : Checked)
        → check_fields net self_name self_acl port ds acl_fields st ≡ (out, none)
        → at no_peers p out.peers f ≡ (
            if port == p
            then or_old (first_peer self_name (ds f)) (at no_peers p st.peers f)
            else at no_peers p st.peers f)
    unfolding check_fields
    check_fields-at port ds st out h =
        let (one, c, k) = check_fields_step port ds allowed (blocked ∷ default ∷ []) st out h in
        let (two, d, l) = check_fields_step port ds blocked (default ∷ []) one out k in
        let (three, e, n) = check_fields_step port ds default [] two out l in
        let same : three ≡ out = ap (λ (x : Checked × Option Invalid). x.0) n in
        ap (λ (x : Checked). at no_peers p x.peers f) (sym same)
        ∙ merge_fields f (port == p) (λ g. first_peer self_name (ds g)) _ _ _ _
            (check_field-at port allowed (ds allowed) st one c)
            (check_field-at port blocked (ds blocked) one two d)
            (check_field-at port default (ds default) two three e)

    check_access-at :
        (declared : Declared) (ports : List ℕ) (st out : Checked)
        → check_access net self_name self_acl declared ports st ≡ (out, none)
        → at no_peers p out.peers f ≡ (
            if any (λ q. q == p) ports
            then or_old
                (first_peer self_name (at no_fields p declared f))
                (at no_peers p st.peers f)
            else at no_peers p st.peers f)
    unfolding check_access any
    check_access-at declared [] st out h =
        ap (λ (x : Checked × Option Invalid). at no_peers p x.0.peers f) (sym h)
    check_access-at declared (port ∷ ports) st out h =
        let round =
          check_fields net self_name self_acl port (at no_fields port declared) acl_fields st in
        elim (Option-cases (round.1)) [
          | inl e ↦
              let here =
                check_fields-at port (at no_fields port declared) st round.0
                  (ap (λ o. (round.0, o)) e) in
              let later = check_access-at declared ports round.0 out (ground (arith, e)) in
              merge_rounds (port == p) (any (λ q. q == p) ports) _ _ _ _ _
                (λ s.
                  ap (λ q. first_peer self_name (at no_fields q declared f))
                    ((nat_beq_iff port p).0 s))
                here later
          | inr (x, e) ↦ ground arith
        ]

any-port_insert :
    (p q : ℕ) (ps : List ℕ) → any (λ r. r == p) (port_insert q ps) ≡ any (λ r. r == p) (q ∷ ps)
unfolding port_insert any
any-port_insert p q [] = refl
any-port_insert p q (r ∷ ps) = ground (arith, any-port_insert p q ps)

pub any-sorted_ports :
    (p : ℕ) (ps : List ℕ) → any (λ r. r == p) (sorted_ports ps) ≡ any (λ r. r == p) ps
unfolding sorted_ports any
any-sorted_ports p [] = refl
any-sorted_ports p (q ∷ ps) =
    any-port_insert p q (sorted_ports ps) ∙ ap (λ b. q == p || b) (any-sorted_ports p ps)

pub at-no_key :
    (p : ℕ) (m : Declared)
    → any (λ r. r == p) (map (λ (e : ℕ × PerField (List Declaration)). e.0) m) ≡ false
    → at no_fields p m ≡ no_fields
unfolding at any
at-no_key p [] h = refl
at-no_key p ((q, ds) ∷ m) h = ground (arith, at-no_key p m)

first_peer_nil : (name : Text) → first_peer name [] ≡ none
unfolding first_peer find?
first_peer_nil name = refl

-- Where the check passes, from no peers, the task has for each port and field the peer that
-- `collectAclPeers` finds.
pub recorded_peers :
    (net : Net) (lbc : LoadBalancerConfig) (lb_id : Text) (all : List LoadBalancerConfig)
    (st out : Checked) (p : ℕ) (f : AclField)
    → st.peers ≡ []
    → validate_cross_listener_acl net lbc lb_id all st ≡ (out, none)
    → at no_peers p out.peers f ≡ at no_peers p (collect_acl_peers lbc lb_id all) f
unfolding validate_cross_listener_acl at
recorded_peers net lbc lb_id all st out p f fresh h =
    let declared = collect_acl_declarations (full_name lbc) lbc.spec.listeners lb_id all in
    let ports = map (λ (e : ℕ × PerField (List Declaration)). e.0) declared in
    let read =
      check_access-at net (full_name lbc) (self_access lbc.spec.listeners) p f declared
        (sorted_ports ports) st out h in
    let start : at no_peers p st.peers f ≡ none = ap (λ m. at no_peers p m f) fresh in
    let found : at no_peers p out.peers f ≡ first_peer (full_name lbc) (at no_fields p declared f) =
      elim (Bool-cases (any (λ q. q == p) ports)) [
        | inl e ↦ read ∙ ground (arith, any-sorted_ports p ports, start, e)
        | inr n ↦
            let nothing : first_peer (full_name lbc) (at no_fields p declared f) ≡ none =
              ap (λ (d : PerField (List Declaration)). first_peer (full_name lbc) (d f))
                (at-no_key p declared n)
              ∙ first_peer_nil (full_name lbc) in
            read ∙ ground (arith, any-sorted_ports p ports, start, n, nothing)
      ] in
    found ∙ first_peer-declared p f lbc lb_id all
