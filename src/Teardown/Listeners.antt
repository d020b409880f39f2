-- ===== src/Teardown/Listeners.antt =====
-- `deleteRedundantListenersFrom` (internal/usecase/lbc_uc/delete_listener.go): listeners of no use
-- go if they were created here, and those that were found are handed back as they were.
pub mod Recorded
use vngcloud_load_balancer_c.Base.{
  Bool, true, false, not, ◌&&◌, List, [], ◌∷◌, ◌++◌, map, Option, none, some, Text, text, ◌==◌,
  nat_eq, text_eq, any, find?, if◌then◌else◌, get_or, is_some,
}
use vngcloud_load_balancer_c.Acl.{AclField, allowed, blocked, default, current_acl, no_acl}
use vngcloud_load_balancer_c.Acl.Plan.{AclPlan, Change, plan_listener_acl}
use vngcloud_load_balancer_c.Api.{
  CreatedListener, CreatedPolicy, CreatedPool, ListenerAcl, LoadBalancerConfig,
}
use vngcloud_load_balancer_c.Api.Equality.{is_empty}
use vngcloud_load_balancer_c.Cloud.{ListenerEntity, ListenerUpdate, LoadBalancerEntity}
use vngcloud_load_balancer_c.Errs.{Error, Result, ok, failed}
use vngcloud_load_balancer_c.Members.{can_delete_whole_pool}
use vngcloud_load_balancer_c.Program.{Prog, ◌>>=◌, ◌>>◌, attempt, fail, finish, pure, wrapping}
use vngcloud_load_balancer_c.Program.Calls.{
  Settings, delete_listener, get_pool_members, list_configs, list_listeners, list_policies,
  update_listener, wait_active,
}
use vngcloud_load_balancer_c.Teardown.{convert_member, covers_policies}
use vngcloud_load_balancer_c.Teardown.Busy.{retry_write}
use vngcloud_load_balancer_c.Teardown.Failures.{collect_failure, report}
use vngcloud_load_balancer_c.Teardown.Policies.{delete_redundant_policies_from, policies_of}
use vngcloud_load_balancer_c.Validate.Access.{Peers, collect_acl_peers, no_peers}
use vngcloud_load_balancer_c.Validate.Ports.{at}

-- `adoptedAclPeers`: the peers, once they have been listed, or the error of listing them.
abbrev pub PeerMemo : Type 0
PeerMemo = Option (Result Peers)

-- The first record of the candidate that is adopted.
unfoldable pub adopted_record : List CreatedListener → Text → Option CreatedListener
adopted_record created listener_id =
    find? (λ (l : CreatedListener). l.id == listener_id && l.adopted) created

unfoldable pub listener_in_use : List CreatedListener → Text → Bool
listener_in_use wanted listener_id = any (λ (l : CreatedListener). l.id == listener_id) wanted

module _ (s : Settings) (lbc : LoadBalancerConfig) (lb_id : Text) where
  -- The default pool of a listener, if it has one, may go as a whole.
  recorded_pool_can_go : Text → Option CreatedPool → Prog Bool
  recorded_pool_can_go pool_id none = pure false
  recorded_pool_can_go pool_id (some created) =
      wrapping (text "get members of pool " ++ (pool_id ++ (text " on LB " ++ lb_id)))
        (get_pool_members lb_id pool_id)
      >>= λ members.
          pure (can_delete_whole_pool (map convert_member members) created.created_members []).0

  default_pool_can_go : List CreatedPool → Text → Prog Bool
  unfolding recorded_pool_can_go
  default_pool_can_go wanted_pools pool_id =
      if any (λ (p : CreatedPool). p.id == pool_id) wanted_pools
      then pure false
      else recorded_pool_can_go pool_id
          (find? (λ (p : CreatedPool). p.id == pool_id) lbc.status.created_pools)

  policies_can_go : List CreatedPool → ListenerEntity → Bool → Prog Bool
  unfolding default_pool_can_go
  policies_can_go wanted_pools listener covered =
      if covered
      then (if listener.default_pool_id == []
          then pure true
          else default_pool_can_go wanted_pools listener.default_pool_id)
      else pure false

  can_delete_whole_listener : List CreatedListener → List CreatedPool → ListenerEntity → Prog Bool
  unfolding policies_can_go covers_policies policies_of
  can_delete_whole_listener created wanted_pools listener =
      let checked = do
        policies ←
            wrapping
              (text "list policies of listener " ++ (listener.uuid ++ (text " on LB " ++ lb_id)))
              (list_policies lb_id listener.uuid)
        policies_can_go wanted_pools listener
            (covers_policies (policies_of listener.uuid created) policies)
      in if lbc.spec.type == s.layer4 then pure true else checked

  -- The listing behind `declaresOn`, made on the first use.
  list_peers : PeerMemo → Prog (Result Peers)
  unfolding collect_acl_peers
  list_peers (some memo) = pure memo
  list_peers none = attempt (
      wrapping (text "list LoadBalancerConfigs sharing load balancer " ++ lb_id) list_configs
      >>= λ all. pure (collect_acl_peers lbc lb_id all))

  declared_on : ListenerEntity → Peers → AclField → Bool
  unfolding at
  declared_on listener peers f = is_some (at no_peers listener.protocol_port peers f)

  restore_update : ListenerEntity → Text → ListenerAcl → ListenerUpdate
  restore_update listener original desired = record {
    default_pool_id = original;
    allowed_cidrs = get_or desired.allowed_cidrs listener.allowed_cidrs;
    blocked_cidrs = desired.blocked_cidrs;
    default_action = desired.default_action;
    timeout_client = listener.timeout_client;
    timeout_member = listener.timeout_member;
    timeout_connection = listener.timeout_connection;
    insert_headers = listener.insert_headers;
    default_certificate_authority =
        if listener.protocol == s.https then listener.default_certificate_authority else none;
    certificate_authorities =
        if listener.protocol == s.https then some listener.certificate_authorities else none;
    client_certificate =
        if listener.protocol == s.https then listener.client_certificate_authentication else none;
  }

  unfoldable pub nothing_displaced : ListenerEntity → Text → List Change → Bool
  nothing_displaced listener original [] = listener.default_pool_id == original
  nothing_displaced listener original (_ ∷ _) = false

  -- Whether it wrote.
  put_back : ListenerEntity → Text → AclPlan → Prog Bool
  unfolding restore_update nothing_displaced
  put_back listener original restore =
      let write =
        retry_write s lb_id (
          update_listener lb_id listener.uuid (restore_update listener original restore.desired)) in
      if nothing_displaced listener original restore.changes then pure false else write >> pure true

  restore_adopted_listener : ListenerEntity → CreatedListener → (AclField → Bool) → Prog Bool
  unfolding put_back current_acl
  restore_adopted_listener listener adopted peer_declares =
      put_back listener (get_or adopted.original_default_pool_id []) (
        plan_listener_acl s.net no_acl (current_acl listener) adopted.original_acl none
          peer_declares)

  -- The restore with what it waits for.
  hand_back_at : ListenerEntity → CreatedListener → (AclField → Bool) → Prog (Unit {0})
  unfolding restore_adopted_listener
  hand_back_at listener adopted peer_declares = do
    restored ←
        wrapping (text "listener " ++ (listener.uuid ++ text ": restore default pool and ACL"))
          (restore_adopted_listener listener adopted peer_declares)
    if restored
        then wrapping
            (text "listener " ++ (listener.uuid ++ text ": wait after restoring default pool"))
            (wait_active lb_id)
          >> pure tt
        else pure tt

  hand_back_with : ListenerEntity → CreatedListener → Result Peers → Prog (Result (Unit {0}))
  unfolding hand_back_at declared_on
  hand_back_with listener adopted (ok peers) =
      attempt (hand_back_at listener adopted (declared_on listener peers))
  hand_back_with listener adopted (failed e) =
      pure
        (Result.failed (Error.wrap (text "listener " ++ (listener.uuid ++ text ": restore ACL")) e))

  -- An adopted listener of no use: the outcome, and the memo for the next.
  hand_back : ListenerEntity → CreatedListener → PeerMemo → Prog (Result (Unit {0}) × PeerMemo)
  unfolding hand_back_at hand_back_with list_peers is_empty
  hand_back listener adopted memo =
      let none_to_ask = do r ← attempt (hand_back_at listener adopted (λ _. false)); pure (r, memo)
      in let ask_peers = do
        peers ← list_peers memo
        r ← hand_back_with listener adopted peers
        pure (r, some peers)
        in if is_empty adopted.original_acl then none_to_ask else ask_peers

  remove_listener : Text → Prog (Unit {0})
  remove_listener listener_id = do
    wrapping (text "listener " ++ (listener_id ++ text ": delete"))
        (retry_write s lb_id (delete_listener lb_id listener_id))
    wrapping (text "listener " ++ (listener_id ++ text ": wait after delete")) (wait_active lb_id)
    pure tt

  module _ (created wanted : List CreatedListener) (wanted_pools : List CreatedPool) where
    -- After the policies are cleaned up.
    after_policies :
        ListenerEntity
        → PeerMemo
        → Option CreatedListener
        → Result (Unit {0})
        → Prog (Result (Unit {0}) × PeerMemo)
    unfolding hand_back listener_in_use
    after_policies listener memo adopted (failed e) = pure (Result.failed e, memo)
    after_policies listener memo none (ok _) = pure (Result.ok tt, memo)
    after_policies listener memo (some adopted) (ok _) =
        if listener_in_use wanted listener.uuid
        then pure (Result.ok tt, memo)
        else hand_back listener adopted memo

    keep_listener : ListenerEntity → PeerMemo → Prog (Result (Unit {0}) × PeerMemo)
    unfolding after_policies adopted_record policies_of
    keep_listener listener memo = do
      r ← attempt (
          wrapping (text "listener " ++ (listener.uuid ++ text ": policies")) (
            delete_redundant_policies_from s lbc lb_id listener.uuid created
              (policies_of listener.uuid wanted)))
      after_policies listener memo (adopted_record created listener.uuid) r

    -- A candidate that is on the load balancer, once it is known whether it may go.
    clean_decided : ListenerEntity → PeerMemo → Result Bool → Prog (Result (Unit {0}) × PeerMemo)
    unfolding keep_listener remove_listener listener_in_use adopted_record
    clean_decided listener memo (failed e) = pure (Result.failed e, memo)
    clean_decided listener memo (ok whole) =
        let gone = do r ← attempt (remove_listener listener.uuid); pure (r, memo)
        in if not (listener_in_use wanted listener.uuid)
            && (whole && not (is_some (adopted_record created listener.uuid)))
          then gone
          else keep_listener listener memo

    clean_listener : ListenerEntity → PeerMemo → Prog (Result (Unit {0}) × PeerMemo)
    unfolding clean_decided can_delete_whole_listener
    clean_listener listener memo = do
      whole ← attempt (
          wrapping (text "listener " ++ listener.uuid)
            (can_delete_whole_listener created wanted_pools listener))
      clean_decided listener memo whole

    -- A candidate, if it is on the load balancer, and the rest of the loop: what failed.
    clean_found :
        PeerMemo → (PeerMemo → Prog (List Error)) → Option ListenerEntity → Prog (List Error)
    unfolding clean_listener
    clean_found memo rest none = rest memo
    clean_found memo rest (some listener) = do
      r ← clean_listener listener memo
      failures ← rest r.1
      pure (collect_failure r.0 failures)

    -- The loop over the candidates.
    clean_listeners : List ListenerEntity → List CreatedListener → PeerMemo → Prog (List Error)
    unfolding clean_found
    clean_listeners current [] memo = pure []
    clean_listeners current (c ∷ candidates) memo =
        clean_found memo (clean_listeners current candidates)
          (find? (λ (l : ListenerEntity). l.uuid == c.id) current)

  unfoldable pub delete_redundant_listeners_from :
      List CreatedListener → List CreatedListener → List CreatedPool → Prog (Unit {0})
  unfolding clean_listeners
  delete_redundant_listeners_from created wanted wanted_pools = do
    current ← list_listeners lb_id
    failures ← clean_listeners created wanted wanted_pools current created none
    report failures
