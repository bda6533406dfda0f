-- ===== src/Rendering/Pages.antt =====
-- The menu of a page.
use howdah.Base.{
  ◌≡◌, ◌↔◌, List, [], ◌∷◌, ◌++◌, true, refl, ap, map, Bool-cases, inl, inr, All, AllPairs, In, ◌==◌,
  ==_iff, nat_eq, ◌∙◌, sym,
}
use howdah.Base.Bytes.{Bytes, bytes_eq}
use howdah.Base.Int.{ℤ, int_eq}
use howdah.Menu.{MenuItem, alter, alter_all, sort_menu_items}
use howdah.Menu.Order.{IsModest, NotAfter, of_weight, sort_menu_items-NotAfter}
use howdah.Rendering.{
  AlterContext, PageRequest, PageRenderer, PageContent, contains, checks, mark_active, page_menu,
}

contains_iff : (bs : List Bytes) (a : Bytes) → (contains bs a ≡ true) ↔ In a bs
unfolding contains
contains_iff [] a = (λ h. cc, λ i. elim i [ ])
contains_iff (b ∷ bs) a =
    let (to, from) = contains_iff bs a in
    elim (Bool-cases (b == a)) [
      | inl same ↦ rw same (λ _. inl (sym ((==_iff b a).0 same)), λ _. refl)
      | inr other ↦ rw other (
        λ h. inr (to h),
        λ i. elim i [ inl e ↦ cc ((==_iff b a).1 (sym e), other) | inr later ↦ from later ],
      )
    ]

-- An item is active exactly when its address is one of these.
abbrev pub IsMarked : List Bytes → MenuItem → Type 0
IsMarked check item = (item.active ≡ true) ↔ In item.href check

map-IsMarked :
    (check : List Bytes) (items : List MenuItem)
    → All (IsMarked check) (map (mark_active check) items)
map-IsMarked check [] = tt
map-IsMarked check (item ∷ items) = (contains_iff check item.href, map-IsMarked check items)

All-map_marked :
    (check : List Bytes) (item : MenuItem) (items : List MenuItem)
    → All (NotAfter item) items
    → All (NotAfter (mark_active check item)) (map (mark_active check) items)
All-map_marked check item [] h = tt
All-map_marked check item (other ∷ items) (p, h) = (p, All-map_marked check item items h)

map-NotAfter :
    (check : List Bytes) (items : List MenuItem)
    → AllPairs NotAfter items
    → AllPairs NotAfter (map (mark_active check) items)
map-NotAfter check [] h = tt
map-NotAfter check (item ∷ items) (p, h) =
    (All-map_marked check item items p, map-NotAfter check items h)

map-of_weight :
    (check : List Bytes) (w : ℤ) (items : List MenuItem)
    → of_weight w (map (mark_active check) items) ≡ map (mark_active check) (of_weight w items)
map-of_weight check w [] = refl
map-of_weight check w (item ∷ items) = elim (Bool-cases (item.weight == w)) [
  | inl same ↦ rw same (ap (λ rest. mark_active check item ∷ rest) (map-of_weight check w items))
  | inr other ↦ rw other (map-of_weight check w items)
]

-- In the menu of every page an item is active exactly when it leads to the page or to the head of its
-- breadcrumb trail, whatever the components alter. Where none alters it and the weights are within half
-- of the int64 range, no item stands behind one of a greater weight, and the items of one weight are
-- those of the components followed by those of the page, in their order.
pub page_menu-IsMarked :
    (pr : PageRenderer) (r : PageRequest) (p : PageContent)
    → All (IsMarked (checks r p)) (page_menu pr r p)
      × (pr.menu_hooks.alter_funcs ≡ []
          → All IsModest (pr.menu ++ p.menu)
          → AllPairs NotAfter (page_menu pr r p)
            × ((w : ℤ)
                → of_weight w (page_menu pr r p)
                  ≡ map (mark_active (checks r p)) (of_weight w (pr.menu ++ p.menu))))
unfolding page_menu
page_menu-IsMarked pr r p = (
  map-IsMarked (checks r p) _,
  λ unaltered modest.
      let (sorted, kept) = sort_menu_items-NotAfter (pr.menu ++ p.menu) modest in
      let items = sort_menu_items (pr.menu ++ p.menu) in
      let same : alter AlterContext MenuItem pr.menu_hooks (record { request = r; page = p }) items
          ≡ items =
        ap (λ funcs. alter_all AlterContext MenuItem funcs (record { request = r; page = p }) items)
          unaltered
        ∙ unfold alter_all in refl in
      rw same (
        map-NotAfter (checks r p) items sorted,
        λ w. map-of_weight (checks r p) w items ∙ ap (map (mark_active (checks r p))) (kept w),
      ),
)
