-- ===== src/Menu/Order.antt =====
-- The order of a menu.
use howdah.Base.{
  ◌^◌, ◌≡◌, ◌<◌, List, [], ◌∷◌, true, refl, arith, Bool-cases, inl, inr, All, All-map, AllPairs,
  ◌==◌, if◌then◌else◌, ◌∙◌, sym,
}
use howdah.Base.Int.{ℤ, pos, pos_part, neg_part, int_ltb, int_leb, int_beq_iff, int_eq}
use howdah.Base.Words.{sub_int64}
use howdah.Menu.{MenuItem, insert_stable, sort_stable_func, by_weight, sort_menu_items}

-- A weight within half of the int64 range, where the difference of two does not wrap.
abbrev pub IsModest : MenuItem → Type 0
IsModest item = (pos_part item.weight < 2 ^ 62) × (neg_part item.weight < 2 ^ 62)

by_weight_iff :
    (a b : MenuItem)
    → IsModest a
    → IsModest b
    → int_ltb (pos 0) (by_weight a b) ≡ int_ltb b.weight a.weight
unfolding sub_int64
by_weight_iff a b (p, q) (r, s) = ground arith

abbrev pub NotAfter : MenuItem → MenuItem → Type 0
NotAfter a b = int_leb a.weight b.weight ≡ true

-- The items of one weight, in their order.
abbrev pub of_weight : ℤ → List MenuItem → List MenuItem
of_weight w [] = []
of_weight w (x ∷ xs) = if x.weight == w then x ∷ of_weight w xs else of_weight w xs

insert-All :
    (P : MenuItem → Type 0) (x : MenuItem) (ys : List MenuItem)
    → P x
    → All P ys
    → All P (insert_stable by_weight x ys)
unfolding insert_stable
insert-All P x [] p h = (p, tt)
insert-All P x (y ∷ ys) p (q, h) = elim (Bool-cases (int_ltb (pos 0) (by_weight x y))) [
  | inl larger ↦ rw larger (q, insert-All P x ys p h)
  | inr fits ↦ rw fits (p, (q, h))
]

NotAfter-trans : (a b c : MenuItem) → NotAfter a b → NotAfter b c → NotAfter a c
NotAfter-trans a b c h k = ground arith

insert-NotAfter :
    (x : MenuItem) (ys : List MenuItem)
    → IsModest x
    → All IsModest ys
    → AllPairs NotAfter ys
    → AllPairs NotAfter (insert_stable by_weight x ys)
unfolding insert_stable
insert-NotAfter x [] m ms h = (tt, tt)
insert-NotAfter x (y ∷ ys) m (n, ms) (q, h) = elim (Bool-cases (int_ltb (pos 0) (by_weight x y))) [
  | inl larger ↦
      let above : NotAfter y x = ground (arith, by_weight_iff x y m n, larger) in
      rw larger (insert-All (NotAfter y) x ys above q, insert-NotAfter x ys m ms h)
  | inr fits ↦
      let below : NotAfter x y = ground (arith, by_weight_iff x y m n, fits) in
      rw fits ((below, All-map (λ z k. NotAfter-trans x y z below k) ys q), (q, h))
]

insert-of_weight :
    (w : ℤ) (x : MenuItem) (ys : List MenuItem)
    → IsModest x
    → All IsModest ys
    → of_weight w (insert_stable by_weight x ys) ≡ of_weight w (x ∷ ys)
unfolding insert_stable
insert-of_weight w x [] m ms = refl
insert-of_weight w x (y ∷ ys) m (n, ms) = elim (Bool-cases (int_ltb (pos 0) (by_weight x y))) [
  | inl larger ↦
      let above : int_ltb y.weight x.weight ≡ true = sym (by_weight_iff x y m n) ∙ larger in
      rw larger (
        ground
          (arith, insert-of_weight w x ys m ms, int_beq_iff x.weight w, int_beq_iff y.weight w))
  | inr fits ↦ rw fits refl
]

sort-All :
    (P : MenuItem → Type 0) (xs : List MenuItem) → All P xs → All P (sort_stable_func by_weight xs)
unfolding sort_stable_func
sort-All P [] h = tt
sort-All P (x ∷ xs) (p, h) = insert-All P x (sort_stable_func by_weight xs) p (sort-All P xs h)

-- Where the weights of a menu's items are within half of the int64 range, sorting puts no item behind
-- one of a greater weight, and it keeps the items of every weight, each as often as it was there and in the order they had.
pub sort_menu_items-NotAfter :
    (menu : List MenuItem)
    → All IsModest menu
    → AllPairs NotAfter (sort_menu_items menu)
      × ((w : ℤ) → of_weight w (sort_menu_items menu) ≡ of_weight w menu)
unfolding sort_menu_items
sort_menu_items-NotAfter [] h = (tt, λ w. refl)
sort_menu_items-NotAfter (x ∷ xs) (m, ms) =
    let (sorted, kept) = sort_menu_items-NotAfter xs ms in
    let modest = sort-All IsModest xs ms in
    (
      insert-NotAfter x (sort_stable_func by_weight xs) m modest sorted,
      λ w. insert-of_weight w x (sort_stable_func by_weight xs) m modest ∙ ground (arith, kept w),
    )
