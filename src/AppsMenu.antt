-- ===== src/AppsMenu.antt =====
-- addons_OCA/web/web_responsive/static/src/js/web_responsive.js, `AppsMenu`: the search among the
-- entries of the tree of menus, and the choice of a result.
pub mod Names
pub mod Tree
pub mod Results
pub mod Settled
mod Examples
use Prim.Native.String.{◌++◌ as concat}
use playground_azure_user_sy.Prelude.{
  ℕ, zero, suc, ◌+◌, ◌-◌, String, Bool, true, false, not, ◌||◌, Option, none, some, List, [], ◌∷◌,
  ◌++◌, map, length, ltb, get_elem?, if◌then◌else◌, ◌==◌, ℕ_eq, String_eq,
}
use playground_azure_user_sy.Prelude.Int.{ℤ, pos, negsuc, ◌+ℤ◌, ◌-ℤ◌, ltb_ℤ}
use playground_azure_user_sy.Prelude.Maps.{get, put}

-- A menu: its `id`, `action` (which may be `false`), `name`, the label of its parent if it has one
-- (`parent_id[1]`), and its `children`.
mutual
  pub data Menu : Type 0 where
    menu : ℕ → Option String → String → Option String → Menus → Menu

  pub data Menus : Type 0 where
    no_menus : Menus
    more_menus : Menu → Menus → Menus

abbrev pub menu_id : Menu → ℕ
menu_id (menu id action name parent children) = id

abbrev menu_children : Menu → Menus
menu_children (menu id action name parent children) = children

abbrev pub has_action : Menu → Bool
has_action (menu id none name parent children) = false
has_action (menu id (some a) name parent children) = not (a == "")

-- `key + menu.name` in `findNames`.
abbrev pub menu_key : Menu → String
menu_key (menu id action name none children) = name
menu_key (menu id action name (some parent) children) = concat (concat parent "/") name

abbrev pub SearchableMenus : Type 0
SearchableMenus = List (String × Menu)

abbrev pub remember_menu : SearchableMenus → Menu → SearchableMenus
remember_menu memo m = if has_action m then put (menu_key m) m memo else memo

-- `findNames`, and its reduction over a list of menus.
unfoldable mutual
  pub find_names : SearchableMenus → Menu → SearchableMenus
  find_names memo (menu id action name parent children) =
      find_all_names (remember_menu memo (menu id action name parent children)) children

  pub find_all_names : SearchableMenus → Menus → SearchableMenus
  find_all_names memo no_menus = memo
  find_all_names memo (more_menus m ms) = find_all_names (find_names memo m) ms

-- `_searchableMenus`, from the children of the menu data.
unfoldable pub searchable_menus : Menus → SearchableMenus
unfolding find_names find_all_names
searchable_menus apps = find_all_names [] apps

-- `_isInMenuTree` of a list of menus: the menu that is found, `none` for `false`.
unfoldable pub is_in_menu_tree : Menus → ℕ → Option Menu
is_in_menu_tree no_menus id = none
is_in_menu_tree (more_menus (menu i action name parent children) ms) id =
    let later = is_in_menu_tree ms id in
    let below = is_in_menu_tree children id in
    if i == id
    then some (menu i action name parent children)
    else elim below [ some root ↦ some root | none ↦ later ]

-- The app that `_searchResultChosen` looks for.
abbrev pub owns : Menu → ℕ → Bool
owns app id =
    menu_id app == id
    || (elim (is_in_menu_tree (menu_children app) id) [ none ↦ false | some m ↦ true ])

unfoldable pub find_app : Menus → ℕ → Option Menu
find_app no_menus id = none
find_app (more_menus m ms) id = if owns m id then some m else find_app ms id

-- What `_searchResultChosen` sends: the click on the menu, and the section of the navigation bar.
pub data MenuMessage : Type 0 where
  menu_clicked : ℕ → MenuMessage
  change_menu_section : ℕ → MenuMessage

unfoldable pub search_result_chosen : Menus → ℕ → List MenuMessage
unfolding find_app
search_result_chosen apps id =
    menu_clicked id
    ∷ (elim (find_app apps id) [ none ↦ [] | some app ↦ change_menu_section (menu_id app) ∷ [] ])

-- The search: the text in the input, the results that are shown (by their keys), which of them is
-- active, and how many scheduled searches have not run yet.
pub record MenuSearch : Type 0 where
  pub keys : List String
  pub input : String
  pub results : List String
  pub has_results : Bool
  pub active : Option ℕ
  pub scheduled : ℕ

-- `_searchReset`
unfoldable pub search_reset : MenuSearch → MenuSearch
search_reset s = record s { has_results = false; results = []; active = none; input = "" }

-- `_searchMenusSchedule`, after the user has changed the input.
unfoldable pub search_menus_schedule : MenuSearch → String → MenuSearch
search_menus_schedule s text = record s { input = text; scheduled = suc s.scheduled }

-- The template makes the first result active.
abbrev pub first_active : List String → Option ℕ
first_active [] = none
first_active (r ∷ rs) = some 0

-- `_searchMenus`; `fuzzy_filter` is the library's `fuzzy.filter`.
unfoldable pub search_menus : (String → List String → List String) → MenuSearch → MenuSearch
search_menus fuzzy_filter s =
    if s.input == ""
    then record s { has_results = false; results = []; active = none }
    else (let found = fuzzy_filter s.input s.keys in
        record s {
          has_results = not (length found == 0);
          results = found;
          active = first_active found;
        })

pub data NavigationKey : Type 0 where
  key_enter key_up key_down key_tab other_key : NavigationKey

-- "Allow looping on results", for `n` of them.
unfoldable pub wrap_offset : ℕ → ℤ → ℤ
unfolding ◌+ℤ◌ ◌-ℤ◌
wrap_offset n offset =
    if ltb_ℤ offset (pos 0)
    then pos n +ℤ offset
    else if ltb_ℤ offset (pos n)
    then offset
    else offset -ℤ pos n

-- `all[offset]`, where an offset out of range is no element.
abbrev pub result_at : ℕ → ℤ → Option ℕ
result_at n (pos i) = if ltb i n then some i else none
result_at n (negsuc i) = none

-- `all.index(pre_focused)`
abbrev active_index : Option ℕ → ℤ
active_index none = negsuc 0
active_index (some i) = pos i

abbrev moved_to : MenuSearch → ℤ → MenuSearch
moved_to s offset = record s {
  active = result_at (length s.results) (wrap_offset (length s.results) offset);
}

-- `_searchResultsNavigate`: the search, and the result that is clicked, if one is.
unfoldable pub search_results_navigate : MenuSearch → NavigationKey → Bool → MenuSearch × Option ℕ
unfolding wrap_offset ◌+ℤ◌ ◌-ℤ◌
search_results_navigate s key shift =
    let offset = active_index s.active in
    let up : MenuSearch × Option ℕ = (moved_to s (offset -ℤ pos 1), none) in
    let down : MenuSearch × Option ℕ = (moved_to s (offset +ℤ pos 1), none) in
    let same : MenuSearch × Option ℕ = elim key [
      | key_enter ↦ (moved_to s offset, s.active)
      | key_up ↦ up
      | key_down ↦ down
      | key_tab ↦ if shift then up else down
      | other_key ↦ (s, none)
    ] in
    if length s.results == 0 then (s, none) else same

pub data MenuSearchEvent : Type 0 where
  text_changed : String → MenuSearchEvent
  timeout : MenuSearchEvent  -- the end of a scheduled search's delay
  hidden : MenuSearchEvent
  keydown : NavigationKey → Bool → MenuSearchEvent

module _ (fuzzy_filter : String → List String → List String) where
  unfoldable pub menu_search_event : MenuSearch → MenuSearchEvent → MenuSearch
  unfolding search_menus search_reset search_menus_schedule search_results_navigate
  menu_search_event s (text_changed text) = search_menus_schedule s text
  menu_search_event s timeout = elim s.scheduled [
    | zero ↦ s
    | suc n ↦ search_menus fuzzy_filter (record s { scheduled = n })
  ]
  menu_search_event s hidden = search_reset s
  menu_search_event s (keydown key shift) = (search_results_navigate s key shift).0

  unfoldable pub menu_search_run : MenuSearch → List MenuSearchEvent → MenuSearch
  unfolding menu_search_event
  menu_search_run s [] = s
  menu_search_run s (e ∷ es) = menu_search_run (menu_search_event s e) es
