-- ===== src/Teardown/Busy/Outcomes.antt =====
-- A retried write ends as one of its attempts does.
use vngcloud_load_balancer_c.Base.{◌≡◌, refl, ℕ, zero, suc, ◌-◌, Bool-cases, inl, inr, ◌∷◌, Text}
use vngcloud_load_balancer_c.Errs.{Result, ok, failed, is_load_balancer_not_ready}
use vngcloud_load_balancer_c.Program.{Call, Prog}
use vngcloud_load_balancer_c.Program.Calls.{Settings}
use vngcloud_load_balancer_c.Program.Histories.{
  Event, History, Meets, Meets-attempt, Meets-bind, Meets-reply, makes, returns, stops,
}
use vngcloud_load_balancer_c.Retry.{max_load_balancer_busy_retries}
use vngcloud_load_balancer_c.Teardown.Busy.{after_write, retry_write, write_attempts}

module _ {A : Type 0} {Allowed : History → Call → Type 0} {Q : History → A → Type 0} (s : Settings)
    (lb_id : Text) (write : Prog A) (waits : (h : History) → Allowed h (Call.wait_active lb_id))
    (p : (h : History) → Meets Allowed Q h write) where
  after_write-Meets :
      (again : Prog A) (h : History) (r : Result A)
      → ((h : History) → Meets Allowed Q h again)
      → ((a : A) → r ≡ Result.ok a → Q h a)
      → Meets Allowed Q h (after_write s lb_id write again r)
  unfolding after_write
  after_write-Meets again h (ok a) k q = returns (q a refl)
  after_write-Meets again h (failed e) k q =
      elim (Bool-cases (is_load_balancer_not_ready s.show_duration e)) [
        | inl b ↦ rw b (
            makes (waits h)
              (Meets-reply (λ r. Event.event (Call.wait_active lb_id) r ∷ h) (λ _. k _)))
        | inr b ↦ rw b stops
      ]

  write_attempts-Meets :
      (left : ℕ) (h : History) → Meets Allowed Q h (write_attempts s lb_id write left)
  unfolding write_attempts
  write_attempts-Meets zero h = p h
  write_attempts-Meets (suc left) h =
      Meets-bind (Meets-attempt (p h))
        (λ h r q. after_write-Meets _ h r (write_attempts-Meets left) q)

  pub retry_write-Meets : (h : History) → Meets Allowed Q h (retry_write s lb_id write)
  unfolding retry_write
  retry_write-Meets = write_attempts-Meets (max_load_balancer_busy_retries - 1)
