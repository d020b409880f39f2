-- ===== src/Teardown/Failures.antt =====
-- What the cleanup loops share: a failure of one candidate does not stop the others, and the pass
-- fails at its end (internal/usecase/lbc_uc/delete_pool.go and delete_listener.go).
use vngcloud_load_balancer_c.Base.{Bool, List, [], ◌∷◌, text}
use vngcloud_load_balancer_c.Errs.{Error, Result, ok, failed}
use vngcloud_load_balancer_c.Program.{Call, Prog, fail, pure}
use vngcloud_load_balancer_c.Program.Only.{Only, ended}

abbrev pub partial_delete : Error
partial_delete = Error.plain (text "some pools could not be cleaned up")

-- `errors.Join` of one error or more.
unfoldable pub join_errors : Error → List Error → Error
join_errors e [] = e
join_errors e (f ∷ fs) = Error.joined (text "\n") e (join_errors f fs)

-- The end of a pass.
unfoldable pub report : List Error → Prog (Unit {0})
unfolding join_errors
report [] = pure tt
report (e ∷ es) = fail (Error.joined (text ": ") partial_delete (join_errors e es))

abbrev pub collect_failure : {A : Type 0} → Result A → List Error → List Error
collect_failure (ok a) es = es
collect_failure (failed e) es = e ∷ es

pub report-Only : {t : Call → Bool} (es : List Error) → Only t (report es)
unfolding report
report-Only [] = ended _
report-Only (e ∷ es) = ended _
