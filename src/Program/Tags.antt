-- ===== src/Program/Tags.antt =====
-- `ensureTags` and `diffTags` as programs (internal/usecase/lbc_uc/deploy_tag.go), for a closure
-- that makes calls of its own and keeps what it learnt in a memo.
pub mod Calls
use vngcloud_load_balancer_c.Base.{List, Option, none, some, Text}
use vngcloud_load_balancer_c.Base.Maps.{Map}
use vngcloud_load_balancer_c.Errs.{Error, Result, ok, failed}
use vngcloud_load_balancer_c.Program.{Prog, ◌>>=◌, ◌>>◌, attempt, pure}
use vngcloud_load_balancer_c.Program.Calls.{create_tags, invalidate_tags_cache, list_tags}
use vngcloud_load_balancer_c.Status.{status_add_created_tags}
use vngcloud_load_balancer_c.Tags.{Tag, build_tag, tags_to_map}

-- What to write and what is authored, where an update is needed.
unfoldable pub needed : Map Text → Map Text × Map Text → Option (Map Text × Map Text)
needed current (ensured, created) = elim (build_tag current created ensured) [
  | none ↦ none
  | some written ↦ some (written, ensured)
]

module _ {S : Type 0} (lb_id : Text)
    (compute_tags : Map Text → S → Prog ((Map Text × Map Text) × S)) where
  diff_on :
      S → Result (Option (List (Option Tag))) → Prog (Result (Option (Map Text × Map Text)) × S)
  unfolding needed
  diff_on memo (failed e) = pure (Result.failed e, memo)
  diff_on memo (ok tags) = compute_tags (tags_to_map tags) memo >>= λ r.
      pure (Result.ok (needed (tags_to_map tags) r.0), r.1)

  diff_tags : S → Prog (Result (Option (Map Text × Map Text)) × S)
  unfolding diff_on
  diff_tags memo = attempt (list_tags lb_id) >>= diff_on memo

  write_diff : Map Text × Map Text → Prog (Unit {0})
  write_diff (written, authored) = create_tags lb_id written >> status_add_created_tags authored

  -- The second decision, and the write.
  write_on : Result (Option (Map Text × Map Text)) × S → Prog (Result (Unit {0}) × S)
  unfolding write_diff
  write_on (failed e, memo) = pure (Result.failed e, memo)
  write_on (ok none, memo) = pure (Result.ok tt, memo)
  write_on (ok (some diff), memo) = attempt (write_diff diff) >>= λ r. pure (r, memo)

  decide_again : Result (Option (Map Text × Map Text)) × S → Prog (Result (Unit {0}) × S)
  unfolding diff_tags write_on
  decide_again (failed e, memo) = pure (Result.failed e, memo)
  decide_again (ok none, memo) = pure (Result.ok tt, memo)
  decide_again (ok (some _), memo) = do
    invalidate_tags_cache lb_id
    again ← diff_tags memo
    write_on again

  -- The outcome and the memo.
  unfoldable pub ensure_tags : S → Prog (Result (Unit {0}) × S)
  unfolding diff_tags decide_again
  ensure_tags memo = diff_tags memo >>= decide_again
