-- ===== src/AppsMenu/Examples.antt =====
-- Two apps, one with an entry below it, and a search that keeps the keys equal to the text.
use playground_azure_user_sy.Prelude.{
  String, true, false, ◌≡◌, refl, none, some, List, [], ◌∷◌, if◌then◌else◌, ◌==◌, String_eq,
}
use playground_azure_user_sy.Prelude.Maps.{get}
use playground_azure_user_sy.AppsMenu.{
  Menu, menu, Menus, no_menus, more_menus, is_in_menu_tree, searchable_menus, MenuSearch, key_down,
  MenuSearchEvent, text_changed, timeout, hidden, keydown, menu_search_run,
}
use playground_azure_user_sy.AppsMenu.Names.{all_preorder, last_keyed, get-searchable_menus}
use playground_azure_user_sy.AppsMenu.Tree.{is_in_menu_tree-first}
use playground_azure_user_sy.AppsMenu.Results.{IsShown, menu_search_run-IsShown}
use playground_azure_user_sy.AppsMenu.Settled.{text_changed-settles}

abbrev users : Menu
users = menu 3 (some "act,7") "Users" (some "Settings") no_menus

abbrev apps : Menus
apps =
    more_menus (menu 1 (some "act,1") "Discuss" none no_menus)
      (more_menus (menu 2 none "Settings" none (more_menus users no_menus)) no_menus)

abbrev exactly : String → List String → List String
exactly text [] = []
exactly text (k ∷ ks) = let rest = exactly text ks in if k == text then k ∷ rest else rest

abbrev closed_search : MenuSearch
closed_search = record {
  keys = "Discuss" ∷ "Settings/Users" ∷ [];
  input = "";
  results = [];
  has_results = false;
  active = none;
  scheduled = 0;
}

abbrev two_shown : MenuSearch
two_shown = record closed_search {
  results = "Discuss" ∷ "Settings/Users" ∷ [];
  has_results = true;
  active = some 1;
}

closed_search-IsShown : IsShown exactly closed_search
closed_search-IsShown = record { one_active = refl; marked = refl; current = λ q. refl }

get-searchable_menus_example :
    get "Settings/Users" (searchable_menus apps) ≡ last_keyed "Settings/Users" (all_preorder apps)
get-searchable_menus_example = get-searchable_menus apps "Settings/Users"

is_in_menu_tree-first_example : is_in_menu_tree apps 3 ≡ some users
is_in_menu_tree-first_example = is_in_menu_tree-first apps 3

abbrev some_events : List MenuSearchEvent
some_events =
    text_changed "Discuss" ∷ timeout ∷ keydown key_down false ∷ hidden ∷ text_changed "x" ∷ []

menu_search_run-IsShown_example :
    IsShown exactly (menu_search_run exactly closed_search some_events)
menu_search_run-IsShown_example =
    menu_search_run-IsShown exactly closed_search some_events closed_search-IsShown

text_changed-settles_example :
    let t = menu_search_run exactly closed_search (text_changed "Discuss" ∷ timeout ∷ []) in
    (t.scheduled ≡ 0) × (t.results ≡ "Discuss" ∷ [])
text_changed-settles_example =
    text_changed-settles exactly closed_search "Discuss" closed_search-IsShown
