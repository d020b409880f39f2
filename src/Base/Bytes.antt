-- ===== src/Base/Bytes.antt =====
-- Go strings: sequences of bytes. A literal of the source is `text "…"`.
use Prim.Native.Char.{code}
use Prim.Native.String.{String}
use Prim.Native.Nat.{ℕ, ◌+◌, compare, Ordering}
use mathlib.Core.Path.{◌≡◌, refl}
use mathlib.Core.Logic.{◌↔◌}
use mathlib.Core.Bool.{Bool, true, false, not, ◌&&◌}
use mathlib.Core.Option.{Option, none, some}
use mathlib.Core.List.{List, [], ◌∷◌, ◌++◌, map}
use native.Mathlib.Omega.{arith}
use vngcloud_load_balancer_c.Base.Tests.{Comparable, ◌==◌, nat_eq, leb, if◌then◌else◌}

abbrev pub Text : Type 0
Text = List ℕ

-- The code points of a literal, which are its bytes where it is ASCII.
abbrev pub text : String → Text
text String.[] = []
text (String.◌∷◌ c s) = code c ∷ text s

unfoldable pub text_beq : Text → Text → Bool
text_beq [] [] = true
text_beq (a ∷ s) (b ∷ t) = a == b && text_beq s t
text_beq _ _ = false

pub text_beq_iff : (s t : Text) → (text_beq s t ≡ true) ↔ (s ≡ t)
unfolding text_beq
text_beq_iff [] [] = ground arith
text_beq_iff [] (b ∷ t) = ground arith
text_beq_iff (a ∷ s) [] = ground arith
text_beq_iff (a ∷ s) (b ∷ t) = ground (arith, text_beq_iff s t)

instance abbrev pub text_eq : Comparable Text
text_eq = record { same = text_beq; same_iff = text_beq_iff }

pub text_beq_refl : (s : Text) → text_beq s s ≡ true
text_beq_refl s = (text_beq_iff s s).1 refl

-- `ptr.Equal` on two optional strings.
unfoldable pub ptr_equal : Option Text → Option Text → Bool
ptr_equal none none = true
ptr_equal (some a) (some b) = a == b
ptr_equal _ _ = false

pub ptr_equal_iff : (a b : Option Text) → (ptr_equal a b ≡ true) ↔ (a ≡ b)
unfolding ptr_equal
ptr_equal_iff none none = ground arith
ptr_equal_iff none (some b) = ground arith
ptr_equal_iff (some a) none = ground arith
ptr_equal_iff (some a) (some b) = ground (arith, text_beq_iff a b)

instance abbrev pub option_text_eq : Comparable (Option Text)
option_text_eq = record { same = ptr_equal; same_iff = ptr_equal_iff }

-- `id != nil && *id == s`.
unfoldable pub names : Option Text → Text → Bool
names none s = false
names (some id) s = id == s

-- `id != nil && *id != ""`.
unfoldable pub is_set : Option Text → Bool
is_set none = false
is_set (some id) = not (id == [])

pub names_iff : (o : Option Text) (s : Text) → (names o s ≡ true) ↔ (o ≡ some s)
unfolding names
names_iff none s = ground arith
names_iff (some id) s = ground (arith, text_beq_iff id s)

-- `strings.HasPrefix(s, p)`, the prefix first.
unfoldable pub has_prefix : Text → Text → Bool
has_prefix [] s = true
has_prefix (a ∷ p) [] = false
has_prefix (a ∷ p) (b ∷ s) = a == b && has_prefix p s

-- `s <= t` in the bytewise order by which `slices.Sort` sorts strings.
unfoldable pub text_leb : Text → Text → Bool
text_leb [] t = true
text_leb (a ∷ s) [] = false
text_leb (a ∷ s) (b ∷ t) = elim (compare a b) [
  | Ordering.lt ↦ true
  | Ordering.eq ↦ text_leb s t
  | Ordering.gt ↦ false
]

-- `strings.Split` at a separator of one byte: the parts, at least one.
unfoldable pub push_head : ℕ → List Text → List Text
push_head c [] = (c ∷ []) ∷ []
push_head c (p ∷ ps) = (c ∷ p) ∷ ps

unfoldable pub split : Text → ℕ → List Text
split [] sep = [] ∷ []
split (c ∷ s) sep = let rest = split s sep in if c == sep then [] ∷ rest else push_head c rest

-- `strings.Join` with a separator of one byte.
unfoldable pub join : List Text → ℕ → Text
join [] sep = []
join (p ∷ []) sep = p
join (p ∷ q ∷ ps) sep = p ++ (sep ∷ join (q ∷ ps) sep)

-- `slices.Sort` on strings.
unfoldable pub sort_insert : Text → List Text → List Text
sort_insert s [] = s ∷ []
sort_insert s (t ∷ ts) = if text_leb s t then s ∷ t ∷ ts else t ∷ sort_insert s ts

unfoldable pub sort : List Text → List Text
unfolding sort_insert
sort [] = []
sort (s ∷ ss) = sort_insert s (sort ss)

-- `strings.EqualFold`, where only the ASCII letters are folded.
abbrev pub to_lower : ℕ → ℕ
to_lower c = if leb b'A' c && leb c b'Z' then c + 32 else c

unfoldable pub equal_fold : Text → Text → Bool
equal_fold s t = map to_lower s == map to_lower t

pub equal_fold_refl : (s : Text) → equal_fold s s ≡ true
unfolding equal_fold
equal_fold_refl s = text_beq_refl (map to_lower s)

pub equal_fold_iff : (s t : Text) → (equal_fold s t ≡ true) ↔ (map to_lower s ≡ map to_lower t)
unfolding equal_fold
equal_fold_iff s t = text_beq_iff (map to_lower s) (map to_lower t)

-- `slices.Equal` on strings.
unfoldable pub texts_beq : List Text → List Text → Bool
texts_beq [] [] = true
texts_beq (a ∷ s) (b ∷ t) = a == b && texts_beq s t
texts_beq _ _ = false

pub texts_beq_iff : (s t : List Text) → (texts_beq s t ≡ true) ↔ (s ≡ t)
unfolding texts_beq
texts_beq_iff [] [] = ground arith
texts_beq_iff [] (b ∷ t) = ground arith
texts_beq_iff (a ∷ s) [] = ground arith
texts_beq_iff (a ∷ s) (b ∷ t) = ground (arith, texts_beq_iff s t, text_beq_iff a b)
