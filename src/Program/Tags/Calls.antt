-- ===== src/Program/Tags/Calls.antt =====
-- Ensuring tags writes tags, and makes the calls of its closure.
use vngcloud_load_balancer_c.Base.{◌≡◌, Bool, true, List, Option, none, some, Text}
use vngcloud_load_balancer_c.Base.Maps.{Map}
use vngcloud_load_balancer_c.Patches.{Patch}
use vngcloud_load_balancer_c.Errs.{Result, ok, failed}
use vngcloud_load_balancer_c.Program.{Call, Prog}
use vngcloud_load_balancer_c.Program.Only.{Only, Only-attempt, Only-bind, calls, ended}
use vngcloud_load_balancer_c.Program.Tags.{
  decide_again, diff_on, diff_tags, ensure_tags, write_diff, write_on,
}
use vngcloud_load_balancer_c.Status.{status_add_created_tags-Only}
use vngcloud_load_balancer_c.Tags.{Tag}

module _ {S : Type 0} {t : Call → Bool} (lb_id : Text)
    (compute_tags : Map Text → S → Prog ((Map Text × Map Text) × S))
    (lists : t (Call.list_tags lb_id) ≡ true)
    (invalidates : t (Call.invalidate_tags_cache lb_id) ≡ true)
    (writes : (tags : Map Text) → t (Call.create_tags lb_id tags) ≡ true)
    (patches : (p : Patch) → t (Call.patch_status p) ≡ true)
    (o : (current : Map Text) (memo : S) → Only t (compute_tags current memo)) where
  diff_on-Only :
      (memo : S) (r : Result (Option (List (Option Tag))))
      → Only t (diff_on lb_id compute_tags memo r)
  unfolding diff_on
  diff_on-Only memo (failed _) = ended _
  diff_on-Only memo (ok tags) = Only-bind (o _ memo) (λ _. ended _)

  diff_tags-Only : (memo : S) → Only t (diff_tags lb_id compute_tags memo)
  unfolding diff_tags
  diff_tags-Only memo =
      Only-bind (Only-attempt (calls lists (λ r. ended r))) (λ r. diff_on-Only memo r)

  write_diff-Only : (d : Map Text × Map Text) → Only t (write_diff lb_id compute_tags d)
  unfolding write_diff
  write_diff-Only (written, authored) =
      Only-bind (calls (writes written) (λ r. ended r))
        (λ _. status_add_created_tags-Only authored patches)

  write_on-Only :
      (d : Result (Option (Map Text × Map Text)) × S) → Only t (write_on lb_id compute_tags d)
  unfolding write_on
  write_on-Only (failed _, memo) = ended _
  write_on-Only (ok none, memo) = ended _
  write_on-Only (ok (some d), memo) = Only-bind (Only-attempt (write_diff-Only d)) (λ _. ended _)

  decide_again-Only :
      (d : Result (Option (Map Text × Map Text)) × S) → Only t (decide_again lb_id compute_tags d)
  unfolding decide_again
  decide_again-Only (failed _, memo) = ended _
  decide_again-Only (ok none, memo) = ended _
  decide_again-Only (ok (some d), memo) =
      calls invalidates (λ _. Only-bind (diff_tags-Only memo) (λ again. write_on-Only again))

  pub ensure_tags-Only : (memo : S) → Only t (ensure_tags lb_id compute_tags memo)
  unfolding ensure_tags
  ensure_tags-Only memo = Only-bind (diff_tags-Only memo) (λ d. decide_again-Only d)
