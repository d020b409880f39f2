-- ===== src/Acl/Plan/Steps.antt =====
-- The plan, field by field: the rounds of the loop do not meet.
use vngcloud_load_balancer_c.Base.{
  ◌≡◌, refl, ap, ◌∙◌, Bool, ◌||◌, [], arith, Option, none, some, Text, if◌then◌else◌,
}
use vngcloud_load_balancer_c.Api.{ListenerAcl}
use vngcloud_load_balancer_c.Acl.{
  AclField, allowed, blocked, default, acl_fields, no_acl, get_field, get_optional, nil_if_empty,
  clone_acl, Net,
}
use vngcloud_load_balancer_c.Acl.Values.{acl_value_equal}
use vngcloud_load_balancer_c.Acl.Plan.{
  Planning, displaced, remember, send, plan_field, plan_fields, plan_listener_acl,
}

-- The fields of a step's state under one key.
pub record Slots : Type 0 where
  pub desired : Option Text
  pub before : Option Text
  pub after : Option Text

abbrev pub slots : AclField → Planning → Slots
slots f st = record {
  desired = get_field f st.desired;
  before = get_field f st.before;
  after = get_field f st.after;
}

abbrev or_displaced : Option Text → Text → Text
or_displaced none d = d
or_displaced (some o) d = o

module _ (net : Net) where
  -- What one field's round leaves, from its own values alone.
  unfoldable pub field_slots :
      AclField → Option Text → Option Text → Option Text → Option Text → Bool → Slots
  field_slots f (some want) have orig neutral peer =
      if acl_value_equal net f have (some want)
      then record { desired = none; before = orig; after = orig }
      else (let o = some (or_displaced orig (displaced f neutral have)) in
          record { desired = some want; before = o; after = o })
  field_slots f none have none neutral peer = record { desired = none; before = none; after = none }
  field_slots f none have (some orig) neutral peer =
      if peer || acl_value_equal net f have (some orig)
      then record { desired = none; before = some orig; after = none }
      else record { desired = some orig; before = some orig; after = none }

  -- A round sets the slots of its field, where the field had its record and no value to send.
  plan_field_own :
      (f : AclField) (want have orig neutral : Option Text) (peer : Bool) (st : Planning)
      → slots f st ≡ record { desired = none; before = orig; after = orig }
      → slots f (plan_field net f want have orig neutral peer st)
        ≡ field_slots f want have orig neutral peer
  unfolding plan_field field_slots send remember
  plan_field_own allowed (some want) have orig neutral peer st h = ground arith
  plan_field_own allowed none have none neutral peer st h = h
  plan_field_own allowed none have (some orig) neutral peer st h = ground arith
  plan_field_own blocked (some want) have orig neutral peer st h = ground arith
  plan_field_own blocked none have none neutral peer st h = h
  plan_field_own blocked none have (some orig) neutral peer st h = ground arith
  plan_field_own default (some want) have orig neutral peer st h = ground arith
  plan_field_own default none have none neutral peer st h = h
  plan_field_own default none have (some orig) neutral peer st h = ground arith

abbrev IsOther : AclField → AclField → Type 0
IsOther allowed allowed = ⊥
IsOther blocked blocked = ⊥
IsOther default default = ⊥
IsOther _ _ = Unit

module _ (net : Net) where
  -- It leaves the slots of the other fields alone.
  plan_field_other :
      (f g : AclField) (want have orig neutral : Option Text) (peer : Bool) (st : Planning)
      → IsOther f g
      → slots g (plan_field net f want have orig neutral peer st) ≡ slots g st
  unfolding plan_field send remember displaced
  plan_field_other f g none have none neutral peer st o = refl
  plan_field_other allowed allowed want have orig neutral peer st o = absurd o
  plan_field_other blocked blocked want have orig neutral peer st o = absurd o
  plan_field_other default default want have orig neutral peer st o = absurd o
  plan_field_other allowed g (some want) have orig neutral peer st o = ground arith
  plan_field_other f g want have orig neutral peer st o = ground arith

abbrev start_slots : Option ListenerAcl → AclField → Slots
start_slots rec f = record {
  desired = none;
  before = get_optional f rec;
  after = get_optional f rec;
}

start : Option ListenerAcl → Planning
start rec = record { desired = no_acl; before = clone_acl rec; after = clone_acl rec; changes = [] }

slots-start : (rec : Option ListenerAcl) (f : AclField) → slots f (start rec) ≡ start_slots rec f
unfolding start
slots-start none allowed = refl
slots-start none blocked = refl
slots-start none default = refl
slots-start (some a) allowed = refl
slots-start (some a) blocked = refl
slots-start (some a) default = refl

module _ (net : Net) (spec current : ListenerAcl) (rec neutral : Option ListenerAcl)
    (peer : AclField → Bool) where
  -- What the loop leaves under each field.
  abbrev plan_slots : AclField → Slots
  plan_slots f =
      field_slots net f (get_field f spec) (get_field f current) (get_optional f rec)
        (get_optional f neutral) (peer f)

  abbrev round : AclField → Planning → Planning
  round f st =
      plan_field net f (get_field f spec) (get_field f current) (get_optional f rec)
        (get_optional f neutral) (peer f) st

  round_own :
      (f : AclField) (st : Planning)
      → slots f st ≡ start_slots rec f
      → slots f (round f st) ≡ plan_slots f
  round_own f st h = plan_field_own net f _ _ _ _ _ st h

  round_other : (f g : AclField) (st : Planning) → IsOther f g → slots g (round f st) ≡ slots g st
  round_other f g st o = plan_field_other net f g _ _ _ _ _ st o

  slots-plan_fields :
      (f : AclField)
      → slots f (plan_fields net spec current rec neutral peer acl_fields (start rec))
        ≡ plan_slots f
  unfolding plan_fields
  slots-plan_fields allowed =
      round_other default allowed _ tt
      ∙ round_other blocked allowed _ tt
      ∙ round_own allowed _ (slots-start rec allowed)
  slots-plan_fields blocked =
      round_other default blocked _ tt
      ∙ round_own blocked _ (round_other allowed blocked _ tt ∙ slots-start rec blocked)
  slots-plan_fields default = round_own default _ (
      round_other blocked default _ tt ∙ round_other allowed default _ tt ∙ slots-start rec default)

get-nil_if_empty :
    (f : AclField) (a : ListenerAcl) → get_optional f (nil_if_empty a) ≡ get_field f a
unfolding nil_if_empty
get-nil_if_empty allowed a = ground arith
get-nil_if_empty blocked a = ground arith
get-nil_if_empty default a = ground arith

module _ (net : Net) (spec current : ListenerAcl) (rec neutral : Option ListenerAcl)
    (peer : AclField → Bool) where
  -- The plan's value and records for a field are those of its round.
  pub plan-slots :
      (f : AclField)
      → (let plan = plan_listener_acl net spec current rec neutral peer in
          let s =
            field_slots net f
              (get_field f spec)
              (get_field f current)
              (get_optional f rec)
              (get_optional f neutral)
              (peer f) in
          (get_field f plan.desired ≡ s.desired)
          × (get_optional f plan.record_before ≡ s.before)
          × (get_optional f plan.record_after ≡ s.after))
  unfolding plan_listener_acl start
  plan-slots f =
      let e = slots-plan_fields net spec current rec neutral peer f in
      (
        ap (λ (s : Slots). s.desired) e,
        get-nil_if_empty f _ ∙ ap (λ (s : Slots). s.before) e,
        get-nil_if_empty f _ ∙ ap (λ (s : Slots). s.after) e,
      )
