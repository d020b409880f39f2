-- ===== src/Teardown/Busy.antt =====
-- `retryOnLoadBalancerNotReady` as a program (internal/usecase/lbc_uc/retry_not_ready.go).
pub mod Writes
pub mod Outcomes
use vngcloud_load_balancer_c.Base.{ℕ, zero, suc, ◌-◌, Bool, true, false, if◌then◌else◌, Text}
use vngcloud_load_balancer_c.Errs.{Error, Result, ok, failed, is_load_balancer_not_ready}
use vngcloud_load_balancer_c.Program.{Prog, finish, ◌>>=◌, ◌>>◌, attempt, pure, fail}
use vngcloud_load_balancer_c.Program.Calls.{Settings, wait_active}
use vngcloud_load_balancer_c.Retry.{max_load_balancer_busy_retries}

module _ {A : Type 0} (s : Settings) (lb_id : Text) (write : Prog A) where
  -- A busy load balancer is waited for before the next attempt.
  after_write : Prog A → Result A → Prog A
  unfolding is_load_balancer_not_ready
  after_write again (ok a) = pure a
  after_write again (failed e) =
      if is_load_balancer_not_ready s.show_duration e then wait_active lb_id >> again else fail e

  -- So many attempts are left after this one; the last one's error stands.
  write_attempts : ℕ → Prog A
  unfolding after_write
  write_attempts zero = write
  write_attempts (suc left) = let again = write_attempts left in attempt write >>= after_write again

  unfoldable pub retry_write : Prog A
  unfolding write_attempts
  retry_write = write_attempts (max_load_balancer_busy_retries - 1)
