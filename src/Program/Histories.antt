-- ===== src/Program/Histories.antt =====
-- Programs by what has been called and replied before a call: a history is the events so far, the
-- last one first.
use vngcloud_load_balancer_c.Base.{◌≡◌, subst, Bool, true, List, ◌∷◌, Text}
use vngcloud_load_balancer_c.Errs.{Error, Result, ok, failed}
use vngcloud_load_balancer_c.Program.{Call, Reply, Prog, finish, perform, ◌>>=◌, attempt, wrapping}
use vngcloud_load_balancer_c.Program.Only.{Only, ended, calls}

pub data Event : Type 0 where
  event : (c : Call) (r : Reply c) → Event

abbrev pub History : Type 0
History = List Event

-- The second history goes on from the first, by calls that pass the test.
pub data Extends (t : Call → Bool) (start : History) : History → Type 0 where
  same : Extends t start start
  more :
      {c : Call} {r : Reply c} {h : History}
      → t c ≡ true
      → Extends t start h
      → Extends t start (Event.event c r ∷ h)

pub Extends-Extends :
    {t : Call → Bool} {a b c : History} → Extends t a b → Extends t b c → Extends t a c
Extends-Extends p same = p
Extends-Extends p (more e q) = more e (Extends-Extends p q)

pub Extends-weaken :
    {t u : Call → Bool} {a b : History}
    → ((c : Call) → t c ≡ true → u c ≡ true)
    → Extends t a b
    → Extends u a b
Extends-weaken w same = same
Extends-weaken w (more {c = c} e q) = more (w c e) (Extends-weaken w q)

-- The event took place, and only calls that pass the test came after it.
abbrev pub Since : (Call → Bool) → Event → History → Type 0
Since t e h = (before : History) × Extends t (e ∷ before) h

pub Since-Extends :
    {t : Call → Bool} {e : Event} {a b : History} → Since t e a → Extends t a b → Since t e b
Since-Extends (before, p) q = (before, Extends-Extends p q)

-- What the program returns, if it does not fail, has the property.
pub data Gives {A : Type 0} (V : A → Type 0) : Prog A → Type 0 where
  gives : {a : A} → V a → Gives V (finish (ok a))
  fails : {e : Error} → Gives V (finish (failed e))
  replies :
      {c : Call} {k : Reply c → Prog A} → ((r : Reply c) → Gives V (k r)) → Gives V (perform c k)

pub Gives-bind :
    {A B : Type 0} {V : A → Type 0} {W : B → Type 0} {m : Prog A} {f : A → Prog B}
    → Gives V m
    → ((a : A) → V a → Gives W (f a))
    → Gives W (m >>= f)
Gives-bind (gives v) k = k _ v
Gives-bind fails k = fails
Gives-bind (replies hs) k = replies (λ r. Gives-bind (hs r) k)

pub Gives-weaken :
    {A : Type 0} {V W : A → Type 0} {m : Prog A} → Gives V m → ((a : A) → V a → W a) → Gives W m
Gives-weaken (gives v) k = gives (k _ v)
Gives-weaken fails k = fails
Gives-weaken (replies hs) k = replies (λ r. Gives-weaken (hs r) k)

pub Gives-anything : {A : Type 0} (m : Prog A) → Gives (λ _. Unit {0}) m
Gives-anything (finish (ok _)) = gives tt
Gives-anything (finish (failed _)) = fails
Gives-anything (perform c k) = replies (λ r. Gives-anything (k r))

-- What comes first matters only by what is done with it.
pub Gives-after :
    {A B : Type 0} {W : B → Type 0} {f : A → Prog B} (m : Prog A)
    → ((a : A) → Gives W (f a))
    → Gives W (m >>= f)
Gives-after m k = Gives-bind (Gives-anything m) (λ a _. k a)

-- The property of a value, on a result.
abbrev pub Fits : {A : Type 0} → (A → Type 0) → Result A → Type 0
Fits Q (ok a) = Q a
Fits Q (failed e) = Unit

pub Gives-wrapping :
    {A : Type 0} {V : A → Type 0} {m : Prog A} (message : Text)
    → Gives V m
    → Gives V (wrapping message m)
Gives-wrapping message (gives v) = gives v
Gives-wrapping message fails = fails
Gives-wrapping message (replies hs) = replies (λ r. Gives-wrapping message (hs r))

-- The program returns a value with the property, whatever is replied, and never fails.
pub data Ends {A : Type 0} (V : A → Type 0) : Prog A → Type 0 where
  ends : {a : A} → V a → Ends V (finish (ok a))
  asks : {c : Call} {k : Reply c → Prog A} → ((r : Reply c) → Ends V (k r)) → Ends V (perform c k)

pub Ends-bind :
    {A B : Type 0} {V : A → Type 0} {W : B → Type 0} {m : Prog A} {f : A → Prog B}
    → Ends V m
    → ((a : A) → V a → Ends W (f a))
    → Ends W (m >>= f)
Ends-bind (ends v) k = k _ v
Ends-bind (asks hs) k = asks (λ r. Ends-bind (hs r) k)

pub Ends-attempt :
    {A : Type 0} {V : A → Type 0} {m : Prog A} → Gives V m → Ends (Fits V) (attempt m)
Ends-attempt (gives v) = ends v
Ends-attempt fails = ends tt
Ends-attempt (replies hs) = asks (λ r. Ends-attempt (hs r))

-- Every call is allowed by the history before it, and what is returned fits the history at the end.
pub data Meets (Allowed : History → Call → Type 0) {A : Type 0} (Q : History → A → Type 0)
    : History → Prog A → Type 0 where
  returns : {h : History} {a : A} → Q h a → Meets Allowed Q h (finish (ok a))
  stops : {h : History} {e : Error} → Meets Allowed Q h (finish (failed e))
  makes :
      {h : History} {c : Call} {k : Reply c → Prog A}
      → Allowed h c
      → ((r : Reply c) → Meets Allowed Q (Event.event c r ∷ h) (k r))
      → Meets Allowed Q h (perform c k)

module _ {Allowed : History → Call → Type 0} where
  pub Meets-bind :
      {A B : Type 0} {Q : History → A → Type 0} {R : History → B → Type 0} {h : History}
      {m : Prog A} {f : A → Prog B}
      → Meets Allowed Q h m
      → ((h : History) (a : A) → Q h a → Meets Allowed R h (f a))
      → Meets Allowed R h (m >>= f)
  Meets-bind (returns q) k = k _ _ q
  Meets-bind stops k = stops
  Meets-bind (makes p hs) k = makes p (λ r. Meets-bind (hs r) k)

  pub Meets-weaken :
      {A : Type 0} {Q R : History → A → Type 0} {h : History} {m : Prog A}
      → Meets Allowed Q h m
      → ((h : History) (a : A) → Q h a → R h a)
      → Meets Allowed R h m
  Meets-weaken (returns q) k = returns (k _ _ q)
  Meets-weaken stops k = stops
  Meets-weaken (makes p hs) k = makes p (λ r. Meets-weaken (hs r) k)

  pub Meets-attempt :
      {A : Type 0} {Q : History → A → Type 0} {h : History} {m : Prog A}
      → Meets Allowed Q h m
      → Meets Allowed (λ h r. (a : A) → r ≡ Result.ok a → Q h a) h (attempt m)
  Meets-attempt {Q = Q} (returns {h = h} {a = a} q) = returns (λ b e. subst (λ r. Fits (Q h) r) e q)
  Meets-attempt stops = returns (λ a e. cc)
  Meets-attempt (makes p hs) = makes p (λ r. Meets-attempt (hs r))

  pub Meets-wrapping :
      {A : Type 0} {Q : History → A → Type 0} {h : History} (message : Text) {m : Prog A}
      → Meets Allowed Q h m
      → Meets Allowed Q h (wrapping message m)
  Meets-wrapping message (returns q) = returns q
  Meets-wrapping message stops = stops
  Meets-wrapping message (makes p hs) = makes p (λ r. Meets-wrapping message (hs r))

  -- One call, whose reply is the result.
  pub Meets-finish :
      {A : Type 0} {Q : History → A → Type 0} (past : Result A → History)
      → ((a : A) → Q (past (Result.ok a)) a)
      → (r : Result A) → Meets Allowed Q (past r) (finish r)
  Meets-finish past k (ok a) = returns (k a)
  Meets-finish past k (failed e) = stops

  -- What follows a reply, in the history with that reply.
  pub Meets-reply :
      {A B : Type 0} {R : History → B → Type 0} {f : A → Prog B} (past : Result A → History)
      → ((a : A) → Meets Allowed R (past (Result.ok a)) (f a))
      → (r : Result A) → Meets Allowed R (past r) (finish r >>= f)
  Meets-reply past k (ok a) = k a
  Meets-reply past k (failed e) = stops

  -- A program whose calls are all allowed wherever they stand.
  pub Only-Meets :
      {t : Call → Bool} {A : Type 0} {V : A → Type 0} {start h : History} {m : Prog A}
      → ((h : History) (c : Call) → t c ≡ true → Allowed h c)
      → Only t m
      → Gives V m
      → Extends t start h
      → Meets Allowed (λ h a. V a × Extends t start h) h m
  Only-Meets w (ended _) (gives v) x = returns (v, x)
  Only-Meets w (ended _) fails x = stops
  Only-Meets w (calls e hs) (replies gs) x =
      makes (w _ _ e) (λ r. Only-Meets w (hs r) (gs r) (more e x))
