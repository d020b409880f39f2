-- ===== src/Deploy/Policies/Order/Sent.antt =====
-- Which orders of policies a deploy sends.
use vngcloud_load_balancer_c.Base.{
  ℕ, suc, ◌≡◌, ◌<◌, ◌≤◌, refl, sym, ap, Bool-cases, inl, inr, ◌⊎◌, true, false, ◌&&◌, arith, List,
  [], ◌∷◌, ◌++◌, map, Option, none, some, Text, All, any, is_some,
}
use vngcloud_load_balancer_c.Api.{Policy}
use vngcloud_load_balancer_c.Cloud.{PolicyEntity}
use vngcloud_load_balancer_c.Deploy.Policies.Order.{
  Place, deploy_reorder_policies, insert_place, out_of_order, place_before, place_of,
  position_before, reorder_listed, reorder_places, send_order, sort_places,
}
use vngcloud_load_balancer_c.Errs.{Result}
use vngcloud_load_balancer_c.Program.{Call, Prog}
use vngcloud_load_balancer_c.Program.Histories.{Event, History, Meets, Meets-reply, makes, returns}
use mathlib.Core.List.{Perm}
use mathlib.Core.List.Perm

-- A position that is not there comes first.
abbrev rank : Option ℕ → ℕ
rank none = 0
rank (some n) = suc n

-- By the expected position, and by the current one where that is the same.
abbrev InOrder : Place → Place → Type 0
InOrder p q =
    (rank p.expect_position < rank q.expect_position)
    ⊎ ((rank p.expect_position ≡ rank q.expect_position)
        × (rank p.current_position ≤ rank q.current_position))

abbrev pub IsOrdered : List Place → Type 0
IsOrdered [] = Unit
IsOrdered (p ∷ places) = All (InOrder p) places × IsOrdered places

-- Two neighbours of which the later one, by its expected position, now comes first.
abbrev pub Inverted : List Place → Type 0
Inverted places =
    (before : List Place) × (p : Place) × (q : Place) × (after : List Place) × (places
      ≡ before ++ (p ∷ q ∷ after))
    × (rank p.expect_position < rank q.expect_position)
    × (rank q.current_position < rank p.current_position)

position_before-true : (a b : Option ℕ) → position_before a b ≡ true → rank a < rank b
unfolding position_before
position_before-true a none e = cc
position_before-true none (some n) e = omega arith
position_before-true (some m) (some n) e = ground (arith, e)

position_before-false : (a b : Option ℕ) → position_before a b ≡ false → rank b ≤ rank a
unfolding position_before
position_before-false a none e = omega arith
position_before-false none (some n) e = cc
position_before-false (some m) (some n) e = ground (arith, e)

place_before-true : (a b : Place) → place_before a b ≡ true → InOrder a b
unfolding place_before
place_before-true a b h = elim (Bool-cases (position_before a.expect_position b.expect_position)) [
  | inl e ↦ inl (position_before-true a.expect_position b.expect_position e)
  | inr n ↦ elim (Bool-cases (position_before b.expect_position a.expect_position)) [
    | inl e ↦ ground (arith, e, n, h)
    | inr m ↦
        let x = position_before-false a.expect_position b.expect_position n in
        let y = position_before-false b.expect_position a.expect_position m in
        let c : position_before a.current_position b.current_position ≡ true =
          ground (arith, n, m, h) in
        let z = position_before-true a.current_position b.current_position c in
        inr (omega arith, omega arith)
  ]
]

place_before-false : (a b : Place) → place_before a b ≡ false → InOrder b a
unfolding place_before
place_before-false a b h = elim (Bool-cases (position_before a.expect_position b.expect_position)) [
  | inl e ↦ ground (arith, e, h)
  | inr n ↦ elim (Bool-cases (position_before b.expect_position a.expect_position)) [
    | inl e ↦ inl (position_before-true b.expect_position a.expect_position e)
    | inr m ↦
        let x = position_before-false a.expect_position b.expect_position n in
        let y = position_before-false b.expect_position a.expect_position m in
        let c : position_before a.current_position b.current_position ≡ false =
          ground (arith, n, m, h) in
        let z = position_before-false a.current_position b.current_position c in
        inr (omega arith, z)
  ]
]

InOrder-trans : (a b c : Place) → InOrder a b → InOrder b c → InOrder a c
InOrder-trans a b c (inl x) (inl y) = inl (omega arith)
InOrder-trans a b c (inl x) (inr (y, _)) = inl (omega arith)
InOrder-trans a b c (inr (x, _)) (inl y) = inl (omega arith)
InOrder-trans a b c (inr (x, u)) (inr (y, v)) = inr (omega arith, omega arith)

All-later :
    (p q : Place) (places : List Place)
    → InOrder p q
    → All (InOrder q) places
    → All (InOrder p) places
All-later p q [] h t = tt
All-later p q (r ∷ places) h (x, xs) = (InOrder-trans p q r h x, All-later p q places h xs)

All-insert :
    (r p : Place) (places : List Place)
    → InOrder r p
    → All (InOrder r) places
    → All (InOrder r) (insert_place p places)
unfolding insert_place
All-insert r p [] h t = (h, tt)
All-insert r p (q ∷ places) h (x, xs) = elim (Bool-cases (place_before q p)) [
  | inl e ↦ rw e (x, All-insert r p places h xs)
  | inr e ↦ rw e (h, (x, xs))
]

insert_place-IsOrdered :
    (p : Place) (places : List Place) → IsOrdered places → IsOrdered (insert_place p places)
unfolding insert_place
insert_place-IsOrdered p [] h = (tt, tt)
insert_place-IsOrdered p (q ∷ places) (x, xs) = elim (Bool-cases (place_before q p)) [
  | inl e ↦
      rw e (All-insert q p places (place_before-true q p e) x, insert_place-IsOrdered p places xs)
  | inr e ↦
      let first = place_before-false q p e in rw e ((first, All-later p q places first x), (x, xs))
]

insert_place-Perm : (p : Place) (places : List Place) → Perm (insert_place p places) (p ∷ places)
unfolding insert_place
insert_place-Perm p [] = Perm.rfl
insert_place-Perm p (q ∷ places) = elim (Bool-cases (place_before q p)) [
  | inl e ↦ rw e (Perm.trans (Perm.cons q (insert_place-Perm p places)) (Perm.swap p q places))
  | inr e ↦ rw e Perm.rfl
]

sort_places-IsOrdered : (places : List Place) → IsOrdered (sort_places places)
unfolding sort_places
sort_places-IsOrdered [] = tt
sort_places-IsOrdered (p ∷ places) =
    insert_place-IsOrdered p (sort_places places) (sort_places-IsOrdered places)

sort_places-Perm : (places : List Place) → Perm (sort_places places) places
unfolding sort_places
sort_places-Perm [] = Perm.rfl
sort_places-Perm (p ∷ places) =
    Perm.trans (insert_place-Perm p (sort_places places)) (Perm.cons p (sort_places-Perm places))

out_of_order-Inverted : (places : List Place) → out_of_order places ≡ true → Inverted places
unfolding out_of_order
out_of_order-Inverted [] h = cc
out_of_order-Inverted (p ∷ []) h = cc
out_of_order-Inverted (p ∷ q ∷ places) h =
    elim (Bool-cases (
      position_before p.expect_position q.expect_position
      && position_before q.current_position p.current_position)) [
        | inl e ↦ (
          [],
          p,
          q,
          places,
          refl,
          position_before-true p.expect_position q.expect_position (ground (arith, e)),
          position_before-true q.current_position p.current_position (ground (arith, e)),
        )
        | inr e ↦
            let (before, a, b, after, same, x, y) =
              out_of_order-Inverted (q ∷ places) (ground (arith, e, h)) in
            (p ∷ before, a, b, after, ap (λ z. p ∷ z) same, x, y)
      ]

module _ (lb_id listener_id : Text) (policies : List Policy) where
  -- The order is of the policies of the spec, as they were just listed.
  pub data OrderOfListed : Text → Text → List Text → History → Type 0 where
    order_of_listed :
        {current : List PolicyEntity} {h : History} (places : List Place)
        → Perm places (map (place_of current) policies)
        → IsOrdered places
        → Inverted places
        → OrderOfListed lb_id listener_id
            (map (λ (p : Place). p.policy_id) places)
            (Event.event (Call.list_policies lb_id listener_id) (Result.ok current) ∷ h)

  abbrev pub SendsOrder : History → Call → Type 0
  SendsOrder h c =
      (lb listener : Text) (ids : List Text)
      → c ≡ Call.reorder_policies lb listener ids
      → OrderOfListed lb listener ids h

  abbrev Safe : {A : Type 0} → History → Prog A → Type 0
  Safe h m = Meets SendsOrder (λ _ _. Unit {0}) h m

  sent_lb : Call → Text
  sent_lb (Call.reorder_policies lb _ _) = lb
  sent_lb _ = []

  sent_listener : Call → Text
  sent_listener (Call.reorder_policies _ listener _) = listener
  sent_listener _ = []

  sent_ids : Call → List Text
  sent_ids (Call.reorder_policies _ _ ids) = ids
  sent_ids _ = []

  send_order-Meets :
      (ids : List Text) (h : History)
      → OrderOfListed lb_id listener_id ids h
      → Safe h (send_order lb_id listener_id ids)
  unfolding send_order sent_lb sent_listener sent_ids
  send_order-Meets ids h o =
      makes
        (λ lb listener others e.
          let a : lb ≡ lb_id = sym (ap sent_lb e) in
          let b : listener ≡ listener_id = sym (ap sent_listener e) in
          let c : others ≡ ids = sym (ap sent_ids e) in rw (a, b, c) o)
        (Meets-reply (λ r. Event.event (Call.reorder_policies lb_id listener_id ids) r ∷ h)
          (λ _.
            makes (λ _ _ _ e. cc)
              (Meets-reply
                (λ r.
                  Event.event (Call.wait_active lb_id) r
                  ∷ Event.event (Call.reorder_policies lb_id listener_id ids) (Result.ok _)
                  ∷ h)
                (λ _. returns tt))))

  reorder_listed-Meets : (h : History) → Safe h (reorder_listed lb_id listener_id policies)
  unfolding reorder_listed reorder_places
  reorder_listed-Meets h =
      makes (λ _ _ _ e. cc)
        (Meets-reply (λ r. Event.event (Call.list_policies lb_id listener_id) r ∷ h)
          (λ current.
            let places = sort_places (map (place_of current) policies) in
            elim (Bool-cases (out_of_order places)) [
              | inr n ↦ rw n (returns tt)
              | inl e ↦ rw e (
                  send_order-Meets (map (λ (p : Place). p.policy_id) places) _ (
                    order_of_listed places (sort_places-Perm (map (place_of current) policies))
                      (sort_places-IsOrdered (map (place_of current) policies))
                      (out_of_order-Inverted places e)))
            ]))

  -- Whatever is replied, an order of policies is sent only for the listener, right after its
  -- policies were listed, and has the policies of the spec, each once, by their expected and then
  -- by their current positions, those without a position first; and then there are two neighbours
  -- in it, with different expected positions, that now stand the other way round.
  pub order_sent_as_wanted :
      (h : History)
      → Meets SendsOrder (λ _ _. Unit {0}) h (deploy_reorder_policies lb_id listener_id policies)
  unfolding deploy_reorder_policies
  order_sent_as_wanted h = elim (Bool-cases (any (λ (p : Policy). is_some p.position) policies)) [
    | inl e ↦ rw e (reorder_listed-Meets h)
    | inr n ↦ rw n (returns tt)
  ]
