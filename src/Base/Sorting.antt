-- ===== src/Base/Sorting.antt =====
-- `sort` keeps the items and brings them in order; in order, a list is its own sorted form.
use vngcloud_load_balancer_c.Base.Tests.{Bool-cases}
use vngcloud_load_balancer_c.Base.Bytes.{Text, text_leb, sort_insert, sort}
use vngcloud_load_balancer_c.Base.Lists.{In}
use mathlib.Core.Path.{◌≡◌, refl}
use mathlib.Core.Logic.{◌≢◌, ◌↔◌, ◌⊎◌, inl, inr}
use mathlib.Core.Bool.{true, false}
use mathlib.Core.List.{List, [], ◌∷◌}
use native.Mathlib.Omega.{arith}

pub In-sort_insert : (a s : Text) (l : List Text) → In a (sort_insert s l) ↔ ((a ≡ s) ⊎ In a l)
unfolding sort_insert
In-sort_insert a s [] = (λ h. h, λ h. h)
In-sort_insert a s (t ∷ l) = elim (Bool-cases (text_leb s t)) [
  | inl e ↦ rw e (λ h. h, λ h. h)
  | inr n ↦ rw n (
    λ h. elim h [
      | inl e ↦ inr (inl e)
      | inr i ↦ elim ((In-sort_insert a s l).0 i) [ inl e ↦ inl e | inr k ↦ inr (inr k) ]
    ],
    λ h. elim h [
      | inl e ↦ inr ((In-sort_insert a s l).1 (inl e))
      | inr k ↦ elim k [ inl e ↦ inl e | inr i ↦ inr ((In-sort_insert a s l).1 (inr i)) ]
    ],
  )
]

-- Sorting keeps the items.
pub In-sort : (a : Text) (l : List Text) → In a (sort l) ↔ In a l
unfolding sort
In-sort a [] = (λ h. h, λ h. h)
In-sort a (s ∷ l) =
    let (to, from) = In-sort_insert a s (sort l) in
    (
      λ h. elim (to h) [ inl e ↦ inl e | inr i ↦ inr ((In-sort a l).0 i) ],
      λ h. from (elim h [ inl e ↦ inl e | inr i ↦ inr ((In-sort a l).1 i) ]),
    )

pub sort_insert-ne-nil : (s : Text) (l : List Text) → sort_insert s l ≢ []
unfolding sort_insert
sort_insert-ne-nil s [] e = cc
sort_insert-ne-nil s (t ∷ l) e = ground arith

-- The bytewise order is total and antisymmetric.
pub text_leb_total : (s t : Text) → text_leb s t ≡ false → text_leb t s ≡ true
unfolding text_leb
text_leb_total [] t h = cc
text_leb_total (a ∷ s) [] h = refl
text_leb_total (a ∷ s) (b ∷ t) h = ground (arith, text_leb_total s t)

pub text_leb_antisymm : (s t : Text) → text_leb s t ≡ true → text_leb t s ≡ true → s ≡ t
unfolding text_leb
text_leb_antisymm [] [] h k = refl
text_leb_antisymm [] (b ∷ t) h k = cc
text_leb_antisymm (a ∷ s) [] h k = cc
text_leb_antisymm (a ∷ s) (b ∷ t) h k = ground (arith, text_leb_antisymm s t)

pub text_leb_trans :
    (s t u : Text) → text_leb s t ≡ true → text_leb t u ≡ true → text_leb s u ≡ true
unfolding text_leb
text_leb_trans [] t u h k = refl
text_leb_trans (a ∷ s) [] u h k = cc
text_leb_trans (a ∷ s) (b ∷ t) [] h k = cc
text_leb_trans (a ∷ s) (b ∷ t) (c ∷ u) h k = ground (arith, text_leb_trans s t u)
