-- ===== src/Teardown/Busy/Writes.antt =====
-- A retried write makes no other calls than the write and the waits between.
use vngcloud_load_balancer_c.Base.{◌≡◌, ℕ, zero, suc, ◌-◌, Bool, true, Text}
use vngcloud_load_balancer_c.Errs.{Result, ok, failed, is_load_balancer_not_ready}
use vngcloud_load_balancer_c.Program.{Call, Prog}
use vngcloud_load_balancer_c.Program.Calls.{Settings}
use vngcloud_load_balancer_c.Program.Only.{Only, Only-attempt, Only-bind, Only-if, calls, ended}
use vngcloud_load_balancer_c.Retry.{max_load_balancer_busy_retries}
use vngcloud_load_balancer_c.Teardown.Busy.{after_write, retry_write, write_attempts}

module _ {A : Type 0} {t : Call → Bool} (s : Settings) (lb_id : Text) (write : Prog A)
    (waits : t (Call.wait_active lb_id) ≡ true) (o : Only t write) where
  after_write-Only :
      (again : Prog A) (r : Result A) → Only t again → Only t (after_write s lb_id write again r)
  unfolding after_write
  after_write-Only again (ok _) a = ended _
  after_write-Only again (failed e) a =
      Only-if (is_load_balancer_not_ready s.show_duration e)
        (λ _. Only-bind (calls waits (λ r. ended r)) (λ _. a)) (λ _. ended _)

  write_attempts-Only : (left : ℕ) → Only t (write_attempts s lb_id write left)
  unfolding write_attempts
  write_attempts-Only zero = o
  write_attempts-Only (suc left) =
      Only-bind (Only-attempt o) (λ r. after_write-Only _ r (write_attempts-Only left))

  pub retry_write-Only : Only t (retry_write s lb_id write)
  unfolding retry_write
  retry_write-Only = write_attempts-Only (max_load_balancer_busy_retries - 1)
