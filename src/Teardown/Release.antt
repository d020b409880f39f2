-- ===== src/Teardown/Release.antt =====
-- `deleteRedundantTagsFrom` and `loadBalancerHasOtherLBC` as programs
-- (internal/usecase/lbc_uc/delete_tag.go).
pub mod Calls
use vngcloud_load_balancer_c.Base.{
  Bool, true, false, ◌&&◌, List, [], ◌∷◌, Option, none, some, Text, text, if◌then◌else◌, is_some,
}
use vngcloud_load_balancer_c.Base.Maps.{Map, get}
use vngcloud_load_balancer_c.Api.{LoadBalancerConfig}
use vngcloud_load_balancer_c.Domain.{cluster_tag_key}
use vngcloud_load_balancer_c.Errs.{Error, Result, ok, failed}
use vngcloud_load_balancer_c.Ownership.{has_other_lbc}
use vngcloud_load_balancer_c.Program.{Prog, ◌>>=◌, ◌>>◌, attempt, fail, finish, pure, wrapping}
use vngcloud_load_balancer_c.Program.Calls.{list_configs}
use vngcloud_load_balancer_c.Program.Tags.{ensure_tags}
use vngcloud_load_balancer_c.Tags.Wanted.{release_created, release_ensured}

-- The lookup of siblings, once it has been made: what it answered.
abbrev pub Lookup : Type 0
Lookup = Option (Result Bool)

module _ (lbc : LoadBalancerConfig) (lb_id : Text) where
  unfoldable pub load_balancer_has_other_lbc : Prog Bool
  load_balancer_has_other_lbc =
      wrapping (text "failed to list LoadBalancerConfigs to see who else uses the load balancer")
        list_configs
      >>= λ all. pure (has_other_lbc lbc lb_id all)

  -- The first use of `stillShared`: while it cannot tell, yes.
  unfoldable pub first_answer : Result Bool → Bool × Lookup
  first_answer (ok shared) = (shared, some (Result.ok shared))
  first_answer (failed e) = (true, some (Result.failed e))

  -- A later use answers the variable `shared`, which a failed lookup leaves false.
  unfoldable pub later_answer : Result Bool → Bool
  later_answer (ok shared) = shared
  later_answer (failed _) = false

  still_shared : Lookup → Prog (Bool × Lookup)
  unfolding first_answer later_answer load_balancer_has_other_lbc
  still_shared none = attempt load_balancer_has_other_lbc >>= λ r. pure (first_answer r)
  still_shared (some memo) = pure (later_answer memo, some memo)

  -- The closure: siblings are looked up where there is a cluster tag.
  unfoldable pub released_tags :
      Map Text → Map Text → Bool × Lookup → (Map Text × Map Text) × Lookup
  released_tags recorded current (shared, memo) =
      ((release_ensured lbc shared current, release_created lbc shared recorded current), memo)

  compute_released : Map Text → Map Text → Lookup → Prog ((Map Text × Map Text) × Lookup)
  unfolding still_shared released_tags
  compute_released recorded current memo =
      let asked = still_shared memo >>= λ r. pure (released_tags recorded current r) in
      if is_some (get cluster_tag_key current)
      then asked
      else pure (released_tags recorded current (false, memo))

  -- The error of the lookup comes before that of the write.
  unfoldable pub release_outcome : Result (Unit {0}) × Lookup → Result (Unit {0})
  release_outcome (r, some (failed e)) = Result.failed e
  release_outcome (r, some (ok _)) = r
  release_outcome (r, none) = r

  unfoldable pub delete_redundant_tags_from : Map Text → Prog (Unit {0})
  unfolding compute_released release_outcome
  delete_redundant_tags_from recorded =
      ensure_tags lb_id (compute_released recorded) none >>= λ r. finish (release_outcome r)
