-- ===== src/KanbanMobile.antt =====
-- addons_OCA/web/web_responsive/static/src/js/kanban_renderer_mobile.js: one column of a grouped
-- kanban view at a time, with tabs, swipes and the quick creation of a column.
pub mod Handlers
pub mod Active
pub mod Layout
pub mod Tabs
pub mod Hiding
mod Examples
use playground_azure_user_sy.Prelude.{
  ℕ, zero, suc, ◌+◌, ◌-◌, ◌*◌, String, Bool, true, false, not, ◌&&◌, ◌||◌, Option, none, some, List,
  [], ◌∷◌, ◌++◌, length, get_elem?, ltb, leb, if◌then◌else◌, ◌==◌, ℕ_eq, String_eq, replicate, drop,
}
use playground_azure_user_sy.Prelude.Int.{ℤ, pos, negsuc, ◌+ℤ◌, ◌-ℤ◌, ltb_ℤ}

-- A column widget: its two ids, of which the first may be empty, whether it is open, and the width
-- of its tab.
pub record KanbanColumn : Type 0 where
  pub id : String
  pub db_id : String
  pub is_open : Bool
  pub tab_width : ℕ

-- Where the style puts a column: left of the screen, in it, or right of it; with `rtl`, mirrored.
pub data Place : Type 0 where
  before current after : Place

-- `current_id` is the id of the column and the tab marked `o_current`; `places` and `hidden` belong
-- to the columns in their order; `scroll_quarters` is four times the scroll position of the tabs.
-- `toggles` are the requests to open a column, each with whether its layout is animated. `hides`
-- are the calls of `hide` that wait, each with the index of the column that it leaves. The state of
-- the quick creation, if there is one, is whether it is folded.
pub record Kanban : Type 0 where
  pub widgets : List KanbanColumn
  pub active_column_index : ℕ
  pub rtl : Bool
  pub current_id : Option String
  pub places : List Place
  pub hidden : List Bool
  pub scroll_quarters : ℕ
  pub justified : Bool
  pub toggles : List Bool
  pub hides : List ℕ
  pub quick_create_enabled : Bool
  pub quick_create : Option Bool

abbrev pub column_id : KanbanColumn → String
column_id c = if c.id == "" then c.db_id else c.id

abbrev pub compute_current_column : Kanban → Kanban
compute_current_column k = elim (get_elem? k.widgets k.active_column_index) [
  | none ↦ k
  | some c ↦ record k { current_id = some (column_id c) }
]

-- The loop of `_computeTabScrollPosition`, in quarters: the last tab before the active one counts
-- three quarters, unless the active one is the last of all.
unfoldable pub scroll_to : Bool → List KanbanColumn → ℕ → ℕ
scroll_to to_last cs zero = 0
scroll_to to_last [] (suc n) = 0
scroll_to to_last (c ∷ cs) (suc n) =
    let rest = scroll_to to_last cs n in
    (if not to_last && n == 0 then 3 * c.tab_width else 4 * c.tab_width) + rest

abbrev pub tab_scroll : List KanbanColumn → ℕ → ℕ
tab_scroll cs n = scroll_to (n == length cs - 1) cs n

unfoldable pub width_childs : List KanbanColumn → ℕ
width_childs [] = 0
width_childs (c ∷ cs) = c.tab_width + width_childs cs

abbrev pub is_empty_list {ℓ} : {A : Type ℓ} → List A → Bool
is_empty_list [] = true
is_empty_list (x ∷ xs) = false

-- `tabs_width` is the outer width of the tabs' element.
abbrev pub compute_tab_position : ℕ → Kanban → Kanban
compute_tab_position tabs_width k = if is_empty_list k.widgets then k else record k {
  justified = leb (width_childs k.widgets) tabs_width;
  scroll_quarters = tab_scroll k.widgets k.active_column_index;
}

abbrev pub place_of : ℕ → ℕ → Place
place_of active i = if ltb active i then after else if ltb i active then before else current

-- The places of so many columns, from an index on.
unfoldable pub places_from : ℕ → ℕ → ℕ → List Place
places_from active i zero = []
places_from active i (suc n) = place_of active i ∷ places_from active (suc i) n

-- With an animation, the columns are hidden when one of those after the active one has arrived.
abbrev will_hide : Kanban → Bool → Bool
will_hide k animate = not animate || ltb (suc k.active_column_index) (length k.widgets)

unfoldable pub compute_column_position : Kanban → Bool → Kanban
compute_column_position k animate = if is_empty_list k.widgets then k else record k {
  hidden = replicate (length k.widgets) false;
  places = places_from k.active_column_index 0 (length k.widgets);
  hides = k.hides ++ (if will_hide k animate then k.active_column_index ∷ [] else []);
}

unfoldable pub layout_update : ℕ → Kanban → Bool → Kanban
unfolding compute_column_position
layout_update tabs_width k animate =
    compute_column_position (compute_tab_position tabs_width (compute_current_column k)) animate

-- The columns that `hide` hides: all but the one at an index.
unfoldable pub hide_others : ℕ → List Bool → List Bool
hide_others i [] = []
hide_others zero (h ∷ hs) = h ∷ replicate (length hs) true
hide_others (suc i) (h ∷ hs) = true ∷ hide_others i hs

abbrev pub set_active : Kanban → ℤ → Kanban
set_active k (negsuc i) = k
set_active k (pos i) = if ltb i (length k.widgets) then record k { active_column_index = i } else k

-- What follows in `_moveToGroup`: an open column is laid out, a folded one is asked to open. Where
-- there is no column at the index, the source stops with an exception.
abbrev pub show_column : ℕ → Kanban → Bool → Option KanbanColumn → Kanban
show_column tabs_width k animate none = k
show_column tabs_width k animate (some c) =
    if c.is_open
    then layout_update tabs_width k animate
    else record k { toggles = k.toggles ++ animate ∷ [] }

unfoldable pub show_active : ℕ → Kanban → Bool → Kanban
show_active tabs_width k animate =
    show_column tabs_width k animate (get_elem? k.widgets k.active_column_index)

unfoldable pub move_to_group : ℕ → Kanban → ℤ → Bool → Kanban
unfolding show_active
move_to_group tabs_width k move_to_index animate =
    if is_empty_list k.widgets
    then k
    else show_active tabs_width (set_active k move_to_index) animate

abbrev pub swipe_step : Kanban → ℤ
swipe_step k = if k.rtl then negsuc 0 else pos 1

unfoldable pub swipe_left : ℕ → Kanban → Kanban
unfolding move_to_group
swipe_left tabs_width k =
    let move_to_index = pos k.active_column_index +ℤ swipe_step k in
    if ltb_ℤ move_to_index (pos (length k.widgets))
    then move_to_group tabs_width k move_to_index true
    else k

unfoldable pub swipe_right : ℕ → Kanban → Kanban
unfolding move_to_group
swipe_right tabs_width k =
    let move_to_index = pos k.active_column_index -ℤ swipe_step k in
    if ltb_ℤ (negsuc 0) move_to_index then move_to_group tabs_width k move_to_index true else k
