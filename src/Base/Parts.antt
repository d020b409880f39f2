-- ===== src/Base/Parts.antt =====
-- Laws of `split` and `join`.
use vngcloud_load_balancer_c.Base.Tests.{◌==◌, nat_eq, Bool-cases}
use vngcloud_load_balancer_c.Base.Bytes.{Text, push_head, split, join}
use vngcloud_load_balancer_c.Base.Lists.{All}
use Prim.Native.Nat.{ℕ}
use mathlib.Core.Path.{◌≡◌, refl, ap, ◌∙◌}
use mathlib.Core.Logic.{◌≢◌, inl, inr}
use mathlib.Core.List.{List, [], ◌∷◌, ◌++◌}
use native.Mathlib.Omega.{arith}

-- The separator does not occur in the text.
abbrev pub Lacks : ℕ → Text → Type 0
Lacks sep s = All (λ c. c ≢ sep) s

push_head-Lacks :
    (sep c : ℕ) (ps : List Text) → c ≢ sep → All (Lacks sep) ps → All (Lacks sep) (push_head c ps)
unfolding push_head
push_head-Lacks sep c [] h k = ((h, tt), tt)
push_head-Lacks sep c (p ∷ ps) h (k, ks) = ((h, k), ks)

-- No part of a split holds the separator.
pub split-Lacks : (s : Text) (sep : ℕ) → All (Lacks sep) (split s sep)
unfolding split
split-Lacks [] sep = (tt, tt)
split-Lacks (c ∷ s) sep = elim (Bool-cases (c == sep)) [
  | inl e ↦ rw e (tt, split-Lacks s sep)
  | inr n ↦ rw n (push_head-Lacks sep c (split s sep) (λ e. ground arith) (split-Lacks s sep))
]

split-ne-nil : (s : Text) (sep : ℕ) → split s sep ≢ []
unfolding split push_head
split-ne-nil [] sep e = cc
split-ne-nil (c ∷ s) sep e = ground arith

-- A text that lacks the separator stays in one piece in front of what follows.
split-append_sep :
    (p s : Text) (sep : ℕ) → Lacks sep p → split (p ++ (sep ∷ s)) sep ≡ p ∷ split s sep
unfolding split push_head
split-append_sep [] s sep h = ground arith
split-append_sep (c ∷ p) s sep (n, h) = ground (arith, split-append_sep p s sep h)

split_whole : (p : Text) (sep : ℕ) → Lacks sep p → split p sep ≡ p ∷ []
unfolding split push_head
split_whole [] sep h = refl
split_whole (c ∷ p) sep (n, h) = ground (arith, split_whole p sep h)

-- The empty text has one part, which is empty.
pub split_nil : (sep : ℕ) → split (join [] sep) sep ≡ [] ∷ []
unfolding split join
split_nil sep = refl

-- Splitting a join gives the parts back, if there is one and none holds the separator.
pub split-join :
    (ps : List Text) (sep : ℕ) → ps ≢ [] → All (Lacks sep) ps → split (join ps sep) sep ≡ ps
unfolding join
split-join [] sep n h = absurd (n refl)
split-join (p ∷ []) sep n (h, _) = split_whole p sep h
split-join (p ∷ q ∷ ps) sep n (h, k) =
    split-append_sep p (join (q ∷ ps) sep) sep h
    ∙ ap (λ r. p ∷ r) (split-join (q ∷ ps) sep (λ e. cc) k)
