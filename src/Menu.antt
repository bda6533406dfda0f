-- ===== src/Menu.antt =====
-- menu.go, and the MenuItem of page.go. A hook is a function of no argument, an alteration one of the
-- context of the page and the list so far.
pub mod Order
use howdah.Base.{ℕ, List, [], ◌∷◌, ◌++◌, Bool, true, false, ◌==◌, if◌then◌else◌}
use howdah.Base.Bytes.{Bytes}
use howdah.Base.Int.{ℤ, pos, int_ltb}
use howdah.Base.Words.{sub_int64}
use howdah.Errors.{TextLabel}

pub record MenuItem : Type 0 where
  pub title : TextLabel
  pub active : Bool
  pub href : Bytes
  pub weight : ℤ

module _ (D T : Type 0) where
  abbrev pub HookFunc : Type 0
  HookFunc = Unit {0} → List T

  abbrev pub HookAlterFunc : Type 0
  HookAlterFunc = D → List T → List T

  pub record Hooks : Type 0 where
    pub funcs : List HookFunc
    pub alter_funcs : List HookAlterFunc

  abbrev pub no_hooks : Hooks
  no_hooks = record { funcs = []; alter_funcs = [] }

  abbrev pub register_hook : HookFunc → Hooks → Hooks
  register_hook fn h = record h { funcs = h.funcs ++ fn ∷ [] }

  abbrev pub register_alter : HookAlterFunc → Hooks → Hooks
  register_alter fn h = record h { alter_funcs = h.alter_funcs ++ fn ∷ [] }

  unfoldable pub collect_all : List HookFunc → List T
  collect_all [] = []
  collect_all (fn ∷ funcs) = fn tt ++ collect_all funcs

  abbrev pub collect : Hooks → List T
  collect h = collect_all h.funcs

  unfoldable pub alter_all : List HookAlterFunc → D → List T → List T
  alter_all [] d list = list
  alter_all (fn ∷ funcs) d list = alter_all funcs d (fn d list)

  abbrev pub alter : Hooks → D → List T → List T
  alter h d list = alter_all h.alter_funcs d list

-- slices.SortStableFunc, as an insertion sort: an element goes before those that compare equal.
module _ {ℓ} {A : Type ℓ} (cmp : A → A → ℤ) where
  unfoldable pub insert_stable : A → List A → List A
  insert_stable x [] = x ∷ []
  insert_stable x (y ∷ ys) =
      let rest = insert_stable x ys in if int_ltb (pos 0) (cmp x y) then y ∷ rest else x ∷ y ∷ ys

  unfoldable pub sort_stable_func : List A → List A
  unfolding insert_stable
  sort_stable_func [] = []
  sort_stable_func (x ∷ xs) = insert_stable x (sort_stable_func xs)

abbrev pub by_weight : MenuItem → MenuItem → ℤ
by_weight a b = sub_int64 a.weight b.weight

unfoldable pub sort_menu_items : List MenuItem → List MenuItem
unfolding sort_stable_func sub_int64
sort_menu_items menu = sort_stable_func by_weight menu
