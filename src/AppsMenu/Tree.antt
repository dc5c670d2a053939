-- ===== src/AppsMenu/Tree.antt =====
-- `_isInMenuTree` and the app of a chosen result.
use playground_azure_user_sy.Prelude.{
  ℕ, Bool, true, false, ◌||◌, ◌≡◌, refl, ◌∙◌, Option, none, some, List, [], ◌∷◌, ◌++◌, ◌==◌, ℕ_eq,
  if◌then◌else◌, arith, Bool-cases, inl, inr,
}
use playground_azure_user_sy.AppsMenu.{
  Menu, menu, Menus, no_menus, more_menus, menu_id, is_in_menu_tree, owns, find_app, menu_clicked,
  change_menu_section, search_result_chosen,
}
use playground_azure_user_sy.AppsMenu.Names.{preorder, all_preorder}

-- The first menu of a list with the id, and whether there is one.
abbrev first_with_id : ℕ → List Menu → Option Menu
first_with_id id [] = none
first_with_id id (m ∷ ms) = if menu_id m == id then some m else first_with_id id ms

abbrev has_id : ℕ → List Menu → Bool
has_id id [] = false
has_id id (m ∷ ms) = menu_id m == id || has_id id ms

abbrev or_else : Option Menu → Option Menu → Option Menu
or_else none d = d
or_else (some m) d = some m

first_with_id-append :
    (id : ℕ) (ms ns : List Menu)
    → first_with_id id (ms ++ ns) ≡ or_else (first_with_id id ms) (first_with_id id ns)
first_with_id-append id [] ns = refl
first_with_id-append id (m ∷ ms) ns = ground (arith, first_with_id-append id ms ns)

has_id-append : (id : ℕ) (ms ns : List Menu) → has_id id (ms ++ ns) ≡ (has_id id ms || has_id id ns)
has_id-append id [] ns = refl
has_id-append id (m ∷ ms) ns = ground (arith, has_id-append id ms ns)

-- For every tree of menus and every id: `_isInMenuTree` finds the first menu of the tree with the
-- id, each menu taken before those below it, and answers `false` exactly if there is none.
pub is_in_menu_tree-first :
    (ms : Menus) (id : ℕ) → is_in_menu_tree ms id ≡ first_with_id id (all_preorder ms)
unfolding is_in_menu_tree
is_in_menu_tree-first no_menus id = refl
is_in_menu_tree-first (more_menus (menu i action name parent children) ms) id = ground (
  arith,
  is_in_menu_tree-first children id,
  is_in_menu_tree-first ms id,
  first_with_id-append id (all_preorder children) (all_preorder ms),
)

has_id-first :
    (id : ℕ) (ms : List Menu)
    → has_id id ms ≡ (elim (first_with_id id ms) [ none ↦ false | some m ↦ true ])
has_id-first id [] = refl
has_id-first id (m ∷ ms) = ground (arith, has_id-first id ms)

owns-has_id : (app : Menu) (id : ℕ) → owns app id ≡ has_id id (preorder app)
owns-has_id (menu i action name parent children) id =
    ground (arith, is_in_menu_tree-first children id, has_id-first id (all_preorder children))

-- The first app with the menu somewhere in its tree.
abbrev app_of : ℕ → Menus → Option Menu
app_of id no_menus = none
app_of id (more_menus m ms) = if has_id id (preorder m) then some m else app_of id ms

find_app-app_of : (apps : Menus) (id : ℕ) → find_app apps id ≡ app_of id apps
unfolding find_app
find_app-app_of no_menus id = refl
find_app-app_of (more_menus m ms) id = ground (arith, owns-has_id m id, find_app-app_of ms id)

app_of-has_id :
    (apps : Menus) (id : ℕ)
    → has_id id (all_preorder apps) ≡ true
    → (app : Menu) × (app_of id apps ≡ some app) × (has_id id (preorder app) ≡ true)
app_of-has_id no_menus id h = cc
app_of-has_id (more_menus m ms) id h = elim (Bool-cases (has_id id (preorder m))) [
  | inl here ↦ (m, ground arith, here)
  | inr there ↦
      let (app, found, owned) =
        app_of-has_id ms id (ground (arith, has_id-append id (preorder m) (all_preorder ms))) in
      (app, ground arith, owned)
]

-- For every tree of menus and every menu in it: choosing the menu as a result clicks it, and then
-- shows the section of an app that has the menu in its tree, the first such app.
search_result_chosen-owner :
    (apps : Menus) (id : ℕ)
    → has_id id (all_preorder apps) ≡ true
    → (app : Menu) × (app_of id apps ≡ some app)
      × (has_id id (preorder app) ≡ true)
      × (search_result_chosen apps id ≡ menu_clicked id ∷ change_menu_section (menu_id app) ∷ [])
unfolding search_result_chosen
search_result_chosen-owner apps id h =
    let (app, found, owned) = app_of-has_id apps id h in
    (app, found, owned, rw (find_app-app_of apps id ∙ found) refl)
