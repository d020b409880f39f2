-- ===== src/Program/Only.antt =====
-- The calls that a program can make, whatever the replies.
use vngcloud_load_balancer_c.Base.{◌≡◌, refl, Bool, true, false, if◌then◌else◌, Text}
use vngcloud_load_balancer_c.Errs.{Error, Result, ok, failed}
use vngcloud_load_balancer_c.Program.{Call, Reply, Prog, finish, perform, ◌>>=◌, attempt, wrapping}

-- Every call passes the test.
pub data Only (t : Call → Bool) {A : Type 0} : Prog A → Type 0 where
  ended : (r : Result A) → Only t (finish r)
  calls :
      {c : Call} {k : Reply c → Prog A}
      → t c ≡ true
      → ((r : Reply c) → Only t (k r))
      → Only t (perform c k)

module _ {t : Call → Bool} where
  pub Only-bind :
      {A B : Type 0} {m : Prog A} {f : A → Prog B}
      → Only t m
      → ((a : A) → Only t (f a))
      → Only t (m >>= f)
  Only-bind (ended (ok a)) k = k a
  Only-bind (ended (failed e)) k = ended (failed e)
  Only-bind (calls h hs) k = calls h (λ r. Only-bind (hs r) k)

  pub Only-attempt : {A : Type 0} {m : Prog A} → Only t m → Only t (attempt m)
  Only-attempt (ended r) = ended (ok r)
  Only-attempt (calls h hs) = calls h (λ r. Only-attempt (hs r))

  pub Only-wrapping :
      {A : Type 0} (message : Text) {m : Prog A} → Only t m → Only t (wrapping message m)
  Only-wrapping message (ended (ok a)) = ended (ok a)
  Only-wrapping message (ended (failed e)) = ended (failed (Error.wrap message e))
  Only-wrapping message (calls h hs) = calls h (λ r. Only-wrapping message (hs r))

  pub Only-ask :
      {A : Type 0} {c : Call} {read : Reply c → Result A}
      → t c ≡ true
      → Only t (perform c (λ r. finish (read r)))
  Only-ask {read = read} h = calls h (λ r. ended (read r))

  pub Only-if :
      {A : Type 0} (b : Bool) {m n : Prog A}
      → (b ≡ true → Only t m)
      → (b ≡ false → Only t n)
      → Only t (if b then m else n)
  Only-if true h k = h refl
  Only-if false h k = k refl
