-- ===== src/Acl/Plan/Restore.antt =====
-- What the plan guarantees to the owner of a listener: a displaced value is recorded first, and
-- comes back once the field is no longer managed.
use vngcloud_load_balancer_c.Base.{
  ◌≡◌, refl, sym, ◌∙◌, Bool, true, false, arith, Option, none, some, Text, [],
}
use vngcloud_load_balancer_c.Api.{ListenerAcl}
use vngcloud_load_balancer_c.Acl.{
  AclField, allowed, blocked, default, no_acl, get_field, get_optional, Net, action_drop,
}
use vngcloud_load_balancer_c.Acl.Values.{acl_value_equal, acl_value_equal_refl}
use vngcloud_load_balancer_c.Acl.Plan.{displaced, plan_listener_acl}
use vngcloud_load_balancer_c.Acl.Plan.Steps.{field_slots, plan-slots}

-- What a listener reports after a PUT, which keeps a field that it does not name.
abbrev pub overlay : Option Text → Option Text → Option Text
overlay none have = have
overlay (some v) have = some v

abbrev pub put_acl : ListenerAcl → ListenerAcl → ListenerAcl
put_acl desired current = record {
  allowed_cidrs = overlay desired.allowed_cidrs current.allowed_cidrs;
  blocked_cidrs = overlay desired.blocked_cidrs current.blocked_cidrs;
  default_action = overlay desired.default_action current.default_action;
}

get-put_acl :
    (f : AclField) (desired current : ListenerAcl)
    → get_field f (put_acl desired current) ≡ overlay (get_field f desired) (get_field f current)
get-put_acl allowed desired current = refl
get-put_acl blocked desired current = refl
get-put_acl default desired current = refl

get-no_acl : (f : AclField) → get_field f no_acl ≡ none
get-no_acl allowed = refl
get-no_acl blocked = refl
get-no_acl default = refl

-- What is to come back: the recorded value; else the neutral one, for a listener that has it; else
-- the current one; else, where the listener reports none, DROP or the empty list.
abbrev pub to_come_back : AclField → Option Text → Option Text → Option Text → Text
to_come_back f (some recorded) neutral have = recorded
to_come_back f none (some n) have = n
to_come_back f none none (some h) = h
to_come_back allowed none none none = []
to_come_back blocked none none none = []
to_come_back default none none none = action_drop

-- Where a field ends that is given up, by what was recorded, the neutral value, what was sent, and
-- what the listener had.
abbrev pub given_back : Option Text → Option Text → Option Text → Text → Text
given_back (some recorded) neutral sent have = recorded
given_back none (some n) (some v) have = n
given_back none none (some v) have = have
given_back none neutral none have = have

module _ (net : Net) where
  records_field :
      (f : AclField) (want have orig neutral : Option Text) (peer : Bool) {v : Text}
      → (field_slots net f want have orig neutral peer).desired ≡ some v
      → (field_slots net f want have orig neutral peer).before
        ≡ some (to_come_back f orig neutral have)
  unfolding field_slots displaced
  records_field f (some want) have none (some n) peer e = ground arith
  records_field f (some want) (some h) none none peer e = ground arith
  records_field allowed (some want) none none none peer e = ground arith
  records_field blocked (some want) none none none peer e = ground arith
  records_field default (some want) none none none peer e = ground arith
  records_field f (some want) have (some o) neutral peer e = ground arith
  records_field f none have none neutral peer e = cc
  records_field f none have (some o) neutral peer e = ground arith

  settles_field :
      (f : AclField) (want have orig neutral : Option Text) (peer : Bool)
      → (let s = field_slots net f want have orig neutral peer in
          (field_slots net f want (overlay s.desired have) s.after neutral peer).desired ≡ none)
  unfolding field_slots
  settles_field f (some want) have orig neutral peer =
      ground (arith, acl_value_equal_refl net f (some want))
  settles_field f none have none neutral peer = refl
  settles_field f none have (some o) neutral peer = ground arith

  restores_field :
      (f : AclField) (want orig neutral : Option Text) (have : Text)
      → (let s = field_slots net f want (some have) orig neutral false in
          let held = overlay s.desired (some have) in
          let t = field_slots net f none held s.after neutral false in
          (t.after ≡ none)
          × (acl_value_equal net f
                (overlay t.desired held)
                (some (given_back orig neutral s.desired have))
              ≡ true))
  unfolding field_slots displaced
  restores_field f (some want) none none have =
      ground (arith, acl_value_equal_refl net f (some have))
  restores_field f (some want) none (some n) have =
      ground (arith, acl_value_equal_refl net f (some have), acl_value_equal_refl net f (some n))
  restores_field f (some want) (some o) neutral have =
      ground (arith, acl_value_equal_refl net f (some o))
  restores_field f none none neutral have = (refl, acl_value_equal_refl net f (some have))
  restores_field f none (some o) neutral have = ground (arith, acl_value_equal_refl net f (some o))

abbrev pub no_peer : AclField → Bool
no_peer _ = false

module _ (net : Net) (spec current : ListenerAcl) (rec neutral : Option ListenerAcl)
    (peer : AclField → Bool) (f : AclField) where
  -- Each field that the PUT sets has in the record that is stored before the PUT what is to come
  -- back: the recorded value; else the neutral value, where the listener has one; else the current
  -- value; else, where the listener reports none, DROP for the default action and the empty list
  -- for the networks.
  pub plan_records_original :
      (v : Text)
      → get_field f (plan_listener_acl net spec current rec neutral peer).desired ≡ some v
      → get_optional f (plan_listener_acl net spec current rec neutral peer).record_before
        ≡ some (to_come_back f (get_optional f rec) (get_optional f neutral) (get_field f current))
  plan_records_original v e =
      let (sends, before, _) = plan-slots net spec current rec neutral peer f in
      before
      ∙ records_field net f (get_field f spec) (get_field f current) (get_optional f rec)
          (get_optional f neutral) (peer f) (sym sends ∙ e)

  -- After the PUT and with the record stored after it, the same spec asks for no further change.
  pub plan_settles :
      (let plan = plan_listener_acl net spec current rec neutral peer in
        get_field f
          (plan_listener_acl net spec
            (put_acl plan.desired current)
            plan.record_after
            neutral
            peer).desired
        ≡ none)
  plan_settles =
      let plan = plan_listener_acl net spec current rec neutral peer in
      let (sends, _, after) = plan-slots net spec current rec neutral peer f in
      let (again, _, _) =
        plan-slots net spec (put_acl plan.desired current) plan.record_after neutral peer f in
      again
      ∙ rw (get-put_acl f plan.desired current, sends, after)
          (settles_field net f (get_field f spec) (get_field f current) (get_optional f rec)
            (get_optional f neutral) (peer f))

-- A field that is managed and then given up, with no peer declaring it, ends with no record left
-- and, as far as the comparison tells, at the recorded original if there was one; without one, at
-- the value that the listener had, or, where the plan had sent another value and the listener has a
-- neutral one, at the neutral value.
pub plan_restores :
    (net : Net) (spec current : ListenerAcl) (rec neutral : Option ListenerAcl) (f : AclField)
    (have : Text)
    → get_field f current ≡ some have
    → (let plan = plan_listener_acl net spec current rec neutral no_peer in
        let held = put_acl plan.desired current in
        let release = plan_listener_acl net no_acl held plan.record_after neutral no_peer in
        (get_optional f release.record_after ≡ none)
        × (acl_value_equal net f (get_field f (put_acl release.desired held)) (
              some (
                given_back
                  (get_optional f rec)
                  (get_optional f neutral)
                  (get_field f plan.desired)
                  have))
            ≡ true))
plan_restores net spec current rec neutral f have e =
    let plan = plan_listener_acl net spec current rec neutral no_peer in
    let held = put_acl plan.desired current in
    let release = plan_listener_acl net no_acl held plan.record_after neutral no_peer in
    let (sends, _, after) = plan-slots net spec current rec neutral no_peer f in
    let (back, _, clear) = plan-slots net no_acl held plan.record_after neutral no_peer f in
    let (gone, same) =
      restores_field net f (get_field f spec) (get_optional f rec) (get_optional f neutral) have in
    (
      clear ∙ rw (get-put_acl f plan.desired current, sends, after, e, get-no_acl f) gone,
      rw
          (
            get-put_acl f release.desired held,
            back,
            get-put_acl f plan.desired current,
            sends,
            after,
            e,
            get-no_acl f,
          )
          same,
    )
