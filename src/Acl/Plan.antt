-- ===== src/Acl/Plan.antt =====
-- `planListenerAcl`: the value to send for each field, and what is recorded before and after.
pub mod Steps
pub mod Restore
mod Examples
use vngcloud_load_balancer_c.Base.{
  Bool, true, false, ◌||◌, List, [], ◌∷◌, ◌++◌, Option, none, some, Text, if◌then◌else◌, get_or,
}
use vngcloud_load_balancer_c.Api.{ListenerAcl}
use vngcloud_load_balancer_c.Acl.{
  AclField, allowed, blocked, default, acl_fields, no_acl, get_field, get_optional, set_field,
  action_drop, nil_if_empty, clone_acl, Net,
}
use vngcloud_load_balancer_c.Acl.Values.{acl_value_equal}

-- A line of the plan's log: the field, whether it is restored, and the values from and to.
pub record Change : Type 0 where
  pub field : AclField
  pub restored : Bool
  pub before : Text
  pub after : Text

-- The variables of the loop.
pub record Planning : Type 0 where
  pub desired : ListenerAcl
  pub before : ListenerAcl
  pub after : ListenerAcl
  pub changes : List Change

pub record AclPlan : Type 0 where
  pub desired : ListenerAcl
  pub record_before : Option ListenerAcl
  pub record_after : Option ListenerAcl
  pub changes : List Change

-- The original recorded for a field that is taken over without a record.
unfoldable pub displaced : AclField → Option Text → Option Text → Text
displaced f (some n) have = n
displaced f none (some h) = h
displaced default none none = action_drop
displaced _ none none = []

remember : AclField → Option Text → Text → Planning → Planning
remember f (some _) o st = st
remember f none o st = record st {
  before = set_field f st.before (some o);
  after = set_field f st.after (some o);
}

send : AclField → Bool → Option Text → Text → Planning → Planning
send f restored have v st = record st {
  desired = set_field f st.desired (some v);
  changes =
      st.changes
      ++ (record { field = f; restored = restored; before = get_or have []; after = v } ∷ []);
}

module _ (net : Net) where
  -- One round of the loop, at the values of the field: wanted, current, recorded, neutral, and
  -- whether a peer declares it.
  plan_field :
      AclField → Option Text → Option Text → Option Text → Option Text → Bool → Planning → Planning
  unfolding remember send displaced
  plan_field f (some want) have orig neutral peer st =
      if acl_value_equal net f have (some want)
      then st
      else send f false have want (remember f orig (displaced f neutral have) st)
  plan_field f none have none neutral peer st = st
  plan_field f none have (some orig) neutral peer st =
      let released = record st { after = set_field f st.after none } in
      if peer || acl_value_equal net f have (some orig)
      then released
      else send f true have orig released

  module _ (spec current : ListenerAcl) (rec neutral : Option ListenerAcl)
      (peer : AclField → Bool) where
    plan_fields : List AclField → Planning → Planning
    unfolding plan_field
    plan_fields [] st = st
    plan_fields (f ∷ fs) st = plan_fields fs (
        plan_field f (get_field f spec) (get_field f current) (get_optional f rec)
          (get_optional f neutral) (peer f) st)

    pub plan_listener_acl : AclPlan
    plan_listener_acl =
        let st = plan_fields acl_fields (record {
          desired = no_acl;
          before = clone_acl rec;
          after = clone_acl rec;
          changes = [];
        }) in
        record {
          desired = st.desired;
          record_before = nil_if_empty st.before;
          record_after = nil_if_empty st.after;
          changes = st.changes;
        }
