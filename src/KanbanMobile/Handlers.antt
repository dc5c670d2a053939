-- ===== src/KanbanMobile/Handlers.antt =====
-- The handlers of the tabs, of the quick creation and of what the web client reports.
use playground_azure_user_sy.Prelude.{
  ℕ, Bool, true, false, not, ◌&&◌, none, some, List, [], ◌∷◌, length, set, if◌then◌else◌, replicate,
}
use playground_azure_user_sy.Prelude.Int.{pos}
use playground_azure_user_sy.KanbanMobile.{
  KanbanColumn, Kanban, is_empty_list, compute_tab_position, layout_update, hide_others,
  move_to_group, swipe_left, swipe_right,
}

-- `_canCreateColumn`, and whether it is unfolded.
abbrev can_create_column : Kanban → Bool
can_create_column k =
    k.quick_create_enabled
    && (elim k.quick_create [ none ↦ false | some folded ↦ true ])
    && not (is_empty_list k.widgets)

abbrev is_unfolded : Kanban → Bool
is_unfolded k = elim k.quick_create [ none ↦ false | some folded ↦ not folded ]

-- `toggleFold` of the quick creation.
abbrev toggle_fold : Kanban → Kanban
toggle_fold k = elim k.quick_create [
  | none ↦ k
  | some folded ↦ record k { quick_create = some (not folded) }
]

unfoldable pub fold_if_unfolded : Kanban → Kanban
fold_if_unfolded k = if can_create_column k && is_unfolded k then toggle_fold k else k

-- `_onMobileQuickCreateClicked`: the columns are shown exactly if it is folded then.
unfoldable pub on_mobile_quick_create_clicked : Kanban → Kanban
on_mobile_quick_create_clicked k = elim k.quick_create [
  | none ↦ k
  | some folded ↦ record k {
    quick_create = some (not folded);
    hidden = replicate (length k.widgets) (not (not folded));
  }
]

unfoldable pub on_close_quick_create : Kanban → Kanban
on_close_quick_create k =
    if not (is_empty_list k.widgets) && is_unfolded k
    then toggle_fold (record k { hidden = replicate (length k.widgets) false })
    else k

-- `_renderView`, for a view with or without groups.
unfoldable pub on_render_view : ℕ → Kanban → Bool → Kanban
unfolding on_mobile_quick_create_clicked
on_render_view tabs_width k true = move_to_group tabs_width k (pos 0) false
on_render_view tabs_width k false =
    if can_create_column k then on_mobile_quick_create_clicked k else k

-- The first request to open a column has succeeded.
unfoldable pub on_toggle_success : ℕ → Kanban → Kanban
on_toggle_success tabs_width k = elim k.toggles [
  | [] ↦ k
  | animate ∷ rest ↦ layout_update tabs_width (record k { toggles = rest }) animate
]

-- The first call of `hide` that waits.
unfoldable pub on_hide : Kanban → Kanban
on_hide k = elim k.hides [
  | [] ↦ k
  | i ∷ rest ↦ record k { hidden = hide_others i k.hidden; hides = rest }
]

-- `column_updated` is `updateColumn`, with the widget that the web client has put there.
pub data KanbanEvent : Type 0 where
  tab_clicked : ℕ → KanbanEvent
  swiped_left swiped_right toggle_success hide_due : KanbanEvent
  column_updated : ℕ → KanbanColumn → KanbanEvent
  quick_create_clicked quick_create_closed column_added : KanbanEvent
  rendered : Bool → KanbanEvent

-- `tabs_width` is the outer width of the tabs' element.
module _ (tabs_width : ℕ) where
  unfoldable pub kanban_event : Kanban → KanbanEvent → Kanban
  unfolding fold_if_unfolded
  kanban_event k (tab_clicked i) = move_to_group tabs_width (fold_if_unfolded k) (pos i) true
  kanban_event k swiped_left = swipe_left tabs_width k
  kanban_event k swiped_right = swipe_right tabs_width k
  kanban_event k toggle_success = on_toggle_success tabs_width k
  kanban_event k hide_due = on_hide k
  kanban_event k (column_updated i c) =
      layout_update tabs_width (record k { widgets = set k.widgets i c }) false
  kanban_event k quick_create_clicked = on_mobile_quick_create_clicked k
  kanban_event k quick_create_closed = on_close_quick_create k
  kanban_event k column_added = fold_if_unfolded (compute_tab_position tabs_width k)
  kanban_event k (rendered grouped) = on_render_view tabs_width k grouped

  unfoldable pub kanban_run : Kanban → List KanbanEvent → Kanban
  unfolding kanban_event
  kanban_run k [] = k
  kanban_run k (e ∷ es) = kanban_run (kanban_event k e) es
