-- ===== src/Base/Maps.antt =====
-- Go's maps from strings, as association lists. A map is read by `get`; the order of entries,
-- which Go leaves open, shows only in the order of an iteration.
use mathlib.Core.Path.{◌≡◌, refl, ap}
use mathlib.Core.Logic.{inl, inr}
use mathlib.Core.Bool.{false}
use mathlib.Core.Option.{Option, none, some}
use mathlib.Core.List.{List, [], ◌∷◌}
use native.Mathlib.Omega.{arith}
use vngcloud_load_balancer_c.Base.Tests.{◌==◌, if◌then◌else◌, Bool-cases}
use vngcloud_load_balancer_c.Base.Lists.{In}
use vngcloud_load_balancer_c.Base.Bytes.{Text, text_eq, text_beq, text_beq_iff, text_beq_refl}

abbrev pub Map : Type 0 → Type 0
Map V = List (Text × V)

module _ {V : Type 0} where
  -- `m[k]`, with `none` for a missing key.
  unfoldable pub get : Text → Map V → Option V
  get k [] = none
  get k ((j, v) ∷ m) = if j == k then some v else get k m

  -- `m[k] = v`.
  unfoldable pub put : Text → V → Map V → Map V
  put k v [] = (k, v) ∷ []
  put k v ((j, w) ∷ m) = if j == k then (k, v) ∷ m else (j, w) ∷ put k v m

  -- `delete(m, k)`.
  unfoldable pub delete : Text → Map V → Map V
  delete k [] = []
  delete k ((j, w) ∷ m) = let rest = delete k m in if j == k then rest else (j, w) ∷ rest

  pub get_nil : (k : Text) → get k [] ≡ none
  unfolding get
  get_nil k = refl

  pub get-put :
      (k j : Text) (v : V) (m : Map V) → get j (put k v m) ≡ (if k == j then some v else get j m)
  unfolding get put
  get-put k j v [] = refl
  get-put k j v ((i, w) ∷ m) =
      ground (arith, text_beq_iff k j, text_beq_iff i k, text_beq_iff i j, get-put k j v m)

  pub get-delete :
      (k j : Text) (m : Map V) → get j (delete k m) ≡ (if k == j then none else get j m)
  unfolding get delete
  get-delete k j [] = ground arith
  get-delete k j ((i, w) ∷ m) =
      ground (arith, text_beq_iff k j, text_beq_iff i k, text_beq_iff i j, get-delete k j m)

  pub get-put_self : (k : Text) (v : V) (m : Map V) → get k (put k v m) ≡ some v
  get-put_self k v m = ground (arith, get-put k k v m, text_beq_refl k)

  pub get-put_ne :
      (k j : Text) (v : V) (m : Map V) → text_beq k j ≡ false → get j (put k v m) ≡ get j m
  get-put_ne k j v m n = ground (arith, get-put k j v m)

  pub get-delete_self : (k : Text) (m : Map V) → get k (delete k m) ≡ none
  get-delete_self k m = ground (arith, get-delete k k m, text_beq_refl k)

  pub get-delete_ne : (k j : Text) (m : Map V) → text_beq k j ≡ false → get j (delete k m) ≡ get j m
  get-delete_ne k j m n = ground (arith, get-delete k j m)

module _ {V : Type 0} where
  -- No key stands twice, as in a Go map.
  abbrev pub IsMap : Map V → Type 0
  IsMap [] = Unit
  IsMap ((k, _) ∷ m) = (get k m ≡ none) × IsMap m

  pub put-IsMap : (k : Text) (v : V) (m : Map V) → IsMap m → IsMap (put k v m)
  unfolding get put
  put-IsMap k v [] h = (refl, tt)
  put-IsMap k v ((j, w) ∷ m) (n, h) = elim (Bool-cases (j == k)) [
    | inl e ↦ rw e (ground (arith, text_beq_iff j k), h)
    | inr d ↦
        rw d
          (ground (arith, get-put k j v m, text_beq_iff k j, text_beq_iff j k), put-IsMap k v m h)
  ]

  pub delete-IsMap : (k : Text) (m : Map V) → IsMap m → IsMap (delete k m)
  unfolding delete
  delete-IsMap k [] h = tt
  delete-IsMap k ((j, w) ∷ m) (n, h) = elim (Bool-cases (j == k)) [
    | inl e ↦ rw e (delete-IsMap k m h)
    | inr d ↦
        rw d
          (ground (arith, get-delete k j m, text_beq_iff k j, text_beq_iff j k), delete-IsMap k m h)
  ]

  -- The entries of a map are what `get` finds.
  pub get_of_In : (k : Text) (v : V) (m : Map V) → IsMap m → In (k, v) m → get k m ≡ some v
  unfolding get
  get_of_In k v [] h i = absurd i
  get_of_In k v ((j, w) ∷ m) (n, h) (inl e) =
      ground (arith, ap (λ (p : Text × V). p.0) e, ap (λ (p : Text × V). p.1) e, text_beq_iff j k)
  get_of_In k v ((j, w) ∷ m) (n, h) (inr i) = ground (arith, get_of_In k v m h i, text_beq_iff j k)

  pub In-of_get : (k : Text) (v : V) (m : Map V) → get k m ≡ some v → In (k, v) m
  unfolding get
  In-of_get k v [] e = cc
  In-of_get k v ((j, w) ∷ m) e = elim (Bool-cases (j == k)) [
    | inl s ↦ inl (ground (arith, text_beq_iff j k))
    | inr d ↦ inr (In-of_get k v m (ground arith))
  ]
