-- ===== src/AppsMenu/Names.antt =====
-- `findNames`: what the searchable menus hold.
use playground_azure_user_sy.Prelude.{
  String, ◌&&◌, ◌≡◌, refl, sym, ap, ◌∙◌, Option, none, some, List, [], ◌∷◌, ◌++◌, ◌==◌, String_eq,
  if◌then◌else◌, arith,
}
use playground_azure_user_sy.Prelude.Maps.{get, get-put}
use playground_azure_user_sy.AppsMenu.{
  Menu, menu, Menus, no_menus, more_menus, has_action, menu_key, SearchableMenus, remember_menu,
  find_names, find_all_names, searchable_menus,
}

-- The menus of a tree, each before those below it.
abbrev mutual
  pub preorder : Menu → List Menu
  preorder (menu id action name parent children) =
      menu id action name parent children ∷ all_preorder children

  pub all_preorder : Menus → List Menu
  all_preorder no_menus = []
  all_preorder (more_menus m ms) = preorder m ++ all_preorder ms

-- The last menu of a list that has an action and the key.
abbrev pub last_keyed : String → List Menu → Option Menu
last_keyed key [] = none
last_keyed key (m ∷ ms) = elim (last_keyed key ms) [
  | some found ↦ some found
  | none ↦ if has_action m && menu_key m == key then some m else none
]

abbrev or_else : Option Menu → Option Menu → Option Menu
or_else none d = d
or_else (some m) d = some m

or_else_assoc : (a b c : Option Menu) → or_else a (or_else b c) ≡ or_else (or_else a b) c
or_else_assoc none b c = refl
or_else_assoc (some m) b c = refl

or_else-none : (a : Option Menu) → or_else a none ≡ a
or_else-none none = refl
or_else-none (some m) = refl

last_keyed-append :
    (key : String) (ms ns : List Menu)
    → last_keyed key (ms ++ ns) ≡ or_else (last_keyed key ns) (last_keyed key ms)
last_keyed-append key [] ns = sym (or_else-none (last_keyed key ns))
last_keyed-append key (m ∷ ms) ns = ground (arith, last_keyed-append key ms ns)

-- `remember_menu` is one step of the search from the end.
get-remember_menu :
    (key : String) (memo : SearchableMenus) (m : Menu)
    → get key (remember_menu memo m) ≡ or_else (last_keyed key (m ∷ [])) (get key memo)
get-remember_menu key memo m = ground (arith, get-put (menu_key m) key m memo)

mutual
  unfolding find_names find_all_names

  get-find_names :
      (key : String) (memo : SearchableMenus) (m : Menu)
      → get key (find_names memo m) ≡ or_else (last_keyed key (preorder m)) (get key memo)
  get-find_names key memo (menu id action name parent children) =
      let m = menu id action name parent children in
      get-find_all_names key (remember_menu memo m) children
      ∙ (ap (or_else (last_keyed key (all_preorder children))) (get-remember_menu key memo m)
          ∙ (or_else_assoc (last_keyed key (all_preorder children)) (last_keyed key (m ∷ []))
                (get key memo)
              ∙ ap (λ a. or_else a (get key memo))
                  (sym (last_keyed-append key (m ∷ []) (all_preorder children)))))

  get-find_all_names :
      (key : String) (memo : SearchableMenus) (ms : Menus)
      → get key (find_all_names memo ms) ≡ or_else (last_keyed key (all_preorder ms)) (get key memo)
  get-find_all_names key memo no_menus = refl
  get-find_all_names key memo (more_menus m ms) =
      get-find_all_names key (find_names memo m) ms
      ∙ (ap (or_else (last_keyed key (all_preorder ms))) (get-find_names key memo m)
          ∙ (or_else_assoc (last_keyed key (all_preorder ms)) (last_keyed key (preorder m))
                (get key memo)
              ∙ ap (λ a. or_else a (get key memo))
                  (sym (last_keyed-append key (preorder m) (all_preorder ms)))))

-- For every tree of menus and every path: the searchable menus hold under the path the last menu
-- of the tree, each menu taken before those below it, that has an action and that path, and nothing
-- if there is no such menu.
pub get-searchable_menus :
    (apps : Menus) (key : String)
    → get key (searchable_menus apps) ≡ last_keyed key (all_preorder apps)
unfolding searchable_menus get
get-searchable_menus apps key =
    get-find_all_names key [] apps ∙ or_else-none (last_keyed key (all_preorder apps))
