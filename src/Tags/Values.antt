-- ===== src/Tags/Values.antt =====
-- `joinTagValue` and `removeTagValue` as operations on the set of ids in a tag value.
use vngcloud_load_balancer_c.Base.{
  ◌≡◌, ◌≢◌, ◌↔◌, ◌∙◌, ◌⊎◌, inl, inr, Bool-cases, true, List, [], ◌∷◌, arith, ℕ, Text, ◌==◌, text_eq,
  text_beq_iff, any, In, All, All-In, All-of_In, split, join, sort,
}
use vngcloud_load_balancer_c.Base.Parts.{Lacks, split-Lacks, split-join, split_nil}
use vngcloud_load_balancer_c.Base.Sorting.{In-sort}
use vngcloud_load_balancer_c.Tags.{
  add_value, add_values, join_tag_value, drop_value, remove_tag_value,
}

-- An id is listed in a tag value: it is a part of it, and not empty.
abbrev pub Lists : Text → ℕ → Text → Type 0
Lists current sep v = (v ≢ []) × In v (split current sep)

pub any-In : (v : Text) (l : List Text) → any (λ w. w == v) l ≡ true → In v l
unfolding any
any-In v [] h = cc
any-In v (w ∷ l) h = elim (Bool-cases (w == v)) [
  | inl e ↦ inl (ground (arith, text_beq_iff w v))
  | inr n ↦ inr (any-In v l (ground arith))
]

-- An added value stands in the list, unless it is empty.
In-add_value : (v x : Text) (l : List Text) → v ≢ [] → In v (add_value x l) ↔ ((v ≡ x) ⊎ In v l)
unfolding add_value
In-add_value v x l n = elim (Bool-cases (x == [])) [
  | inl e ↦ rw e (inr, elim [ inl q ↦ absurd (n (ground (arith, text_beq_iff x []))) | inr i ↦ i ])
  | inr d ↦ rw d (elim (Bool-cases (any (λ w. w == x) l)) [
    | inl s ↦ rw s (inr, elim [ inl q ↦ rw q (any-In x l s) | inr i ↦ i ])
    | inr a ↦ rw a (λ h. h, λ h. h)
  ])
]

In-add_values : (v : Text) (vs l : List Text) → v ≢ [] → In v (add_values vs l) ↔ (In v vs ⊎ In v l)
unfolding add_values
In-add_values v [] l n = (inr, elim [ inl e ↦ absurd e | inr i ↦ i ])
In-add_values v (x ∷ vs) l n =
    let (to, from) = In-add_values v vs (add_value x l) n in
    let (here, there) = In-add_value v x l n in
    (
      λ h. elim (to h) [
        | inl i ↦ inl (inr i)
        | inr i ↦ elim (here i) [ inl e ↦ inl (inl e) | inr k ↦ inr k ]
      ],
      λ h. from (elim h [
        | inl i ↦ elim i [ inl e ↦ inr (there (inl e)) | inr k ↦ inl k ]
        | inr k ↦ inr (there (inr k))
      ]),
    )

In-drop_value : (v x : Text) (l : List Text) → v ≢ [] → In v (drop_value x l) ↔ (In v l × (v ≢ x))
unfolding drop_value
In-drop_value v x [] n = (λ e. absurd e, λ h. absurd h.0)
In-drop_value v x (w ∷ l) n =
    let (to, from) = In-drop_value v x l n in
    elim (Bool-cases (w == [])) [
      | inl e ↦ rw e (
        λ i. (inr (to i).0, (to i).1),
        λ h. elim h.0 [
          | inl q ↦ absurd (n (ground (arith, text_beq_iff w [])))
          | inr i ↦ from (i, h.1)
        ],
      )
      | inr d ↦ rw d (elim (Bool-cases (w == x)) [
        | inl e ↦ rw e (
          λ i. (inr (to i).0, (to i).1),
          λ h. elim h.0 [
            | inl q ↦ absurd (h.1 (q ∙ (text_beq_iff w x).0 e))
            | inr i ↦ from (i, h.1)
          ],
        )
        | inr o ↦ rw o (
          λ i. elim i [
            | inl q ↦ (inl q, λ r. ground (arith, text_beq_iff w x))
            | inr k ↦ (inr (to k).0, (to k).1)
          ],
          λ h. elim h.0 [ inl q ↦ inl q | inr i ↦ inr (from (i, h.1)) ],
        )
      ])
    ]

-- A part of a join of parts that lack the separator is one of them; none is empty.
In-split-join :
    (v : Text) (l : List Text) (sep : ℕ)
    → v ≢ []
    → All (Lacks sep) l
    → In v (split (join l sep) sep) ↔ In v l
In-split-join v [] sep n h =
    rw (split_nil sep) (elim [ inl e ↦ absurd (n e) | inr i ↦ i ], λ e. absurd e)
In-split-join v (p ∷ l) sep n h = rw (split-join (p ∷ l) sep (λ e. cc) h) (λ i. i, λ i. i)

Lacks-add_value :
    (sep : ℕ) (x : Text) (l : List Text)
    → Lacks sep x
    → All (Lacks sep) l
    → All (Lacks sep) (add_value x l)
unfolding add_value
Lacks-add_value sep x l h k = ground arith

Lacks-add_values :
    (sep : ℕ) (vs l : List Text)
    → All (Lacks sep) vs
    → All (Lacks sep) l
    → All (Lacks sep) (add_values vs l)
unfolding add_values
Lacks-add_values sep [] l h k = k
Lacks-add_values sep (v ∷ vs) l (h, hs) k =
    Lacks-add_values sep vs (add_value v l) hs (Lacks-add_value sep v l h k)

Lacks-drop_value :
    (sep : ℕ) (x : Text) (l : List Text) → All (Lacks sep) l → All (Lacks sep) (drop_value x l)
unfolding drop_value
Lacks-drop_value sep x [] h = tt
Lacks-drop_value sep x (v ∷ l) (h, k) = ground (arith, Lacks-drop_value sep x l k)

Lacks-sort : (sep : ℕ) (l : List Text) → All (Lacks sep) l → All (Lacks sep) (sort l)
Lacks-sort sep l h =
    All-of_In (Lacks sep) (sort l) (λ a i. All-In (Lacks sep) l h ((In-sort a l).0 i))

-- `joinTagValue` lists exactly the ids listed before and the added one.
pub join_tag_value-Lists :
    (current value : Text) (sep : ℕ) (v : Text)
    → Lacks sep value
    → v ≢ []
    → In v (split (join_tag_value current value sep) sep) ↔ ((v ≡ value) ⊎ In v (split current sep))
unfolding join_tag_value
join_tag_value-Lists current value sep v h n =
    let old = add_values (split current sep) [] in
    let all = add_value value old in
    let lack =
      Lacks-add_value sep value old h
        (Lacks-add_values sep (split current sep) [] (split-Lacks current sep) tt) in
    let (a, a') = In-split-join v (sort all) sep n (Lacks-sort sep all lack) in
    let (b, b') = In-sort v all in
    let (c, c') = In-add_value v value old n in
    let (d, d') = In-add_values v (split current sep) [] n in
    (
      λ i. elim (c (b (a i))) [
        | inl e ↦ inl e
        | inr k ↦ elim (d k) [ inl q ↦ inr q | inr e ↦ absurd e ]
      ],
      λ s. a' (b' (c' (elim s [ inl e ↦ inl e | inr k ↦ inr (d' (inl k)) ]))),
    )

-- `removeTagValue` lists exactly the ids listed before, less the removed one.
pub remove_tag_value-Lists :
    (current value : Text) (sep : ℕ) (v : Text)
    → v ≢ []
    → In v (split (remove_tag_value current value sep) sep)
      ↔ (In v (split current sep) × (v ≢ value))
unfolding remove_tag_value
remove_tag_value-Lists current value sep v n =
    let left = drop_value value (split current sep) in
    let lack = Lacks-drop_value sep value (split current sep) (split-Lacks current sep) in
    let (a, a') = In-split-join v (sort left) sep n (Lacks-sort sep left lack) in
    let (b, b') = In-sort v left in
    let (c, c') = In-drop_value v value (split current sep) n in
    (λ i. c (b (a i)), λ h. a' (b' (c' h)))
