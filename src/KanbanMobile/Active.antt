-- ===== src/KanbanMobile/Active.antt =====
-- The active column is one of the columns.
use playground_azure_user_sy.Prelude.{
  ℕ, ◌<◌, Bool, true, false, List, [], ◌∷◌, length, set, length-set, ◌≡◌, arith, Bool-cases, inl,
  inr,
}
use playground_azure_user_sy.Prelude.Int.{ℤ, pos, negsuc, ltb_ℤ, ◌+ℤ◌, ◌-ℤ◌}
use playground_azure_user_sy.KanbanMobile.{
  Kanban, is_empty_list, compute_tab_position, compute_column_position, layout_update, set_active,
  show_active, move_to_group, swipe_left, swipe_right, swipe_step,
}
use playground_azure_user_sy.KanbanMobile.Handlers.{
  fold_if_unfolded, on_mobile_quick_create_clicked, on_close_quick_create, on_render_view,
  on_toggle_success, on_hide, KanbanEvent, tab_clicked, swiped_left, swiped_right, toggle_success,
  hide_due, column_updated, quick_create_clicked, quick_create_closed, column_added, rendered,
  kanban_event, kanban_run,
}

-- The columns and the active one, of which a layout takes nothing away.
abbrev SameColumns : Kanban → Kanban → Type 0
SameColumns j k = (j.widgets ≡ k.widgets) × (j.active_column_index ≡ k.active_column_index)

pub layout_update-SameColumns :
    (w : ℕ) (k : Kanban) (animate : Bool) → SameColumns (layout_update w k animate) k
unfolding layout_update compute_column_position
layout_update-SameColumns w k animate = ground arith

-- The active index is that of a column.
abbrev pub IsInRange : Kanban → Type 0
IsInRange k = k.active_column_index < length k.widgets

pub from_same : (j k : Kanban) → SameColumns j k → IsInRange k → IsInRange j
from_same j k (h₁, h₂) h = rw (h₁, h₂) h

pub set_active-IsInRange : (k : Kanban) (i : ℤ) → IsInRange k → IsInRange (set_active k i)
set_active-IsInRange k (pos i) h = ground arith
set_active-IsInRange k (negsuc i) h = h

show_active-SameColumns :
    (w : ℕ) (k : Kanban) (animate : Bool) → SameColumns (show_active w k animate) k
unfolding show_active layout_update compute_column_position
show_active-SameColumns w k animate = ground arith

move_to_group-IsInRange :
    (w : ℕ) (k : Kanban) (i : ℤ) (animate : Bool)
    → IsInRange k
    → IsInRange (move_to_group w k i animate)
unfolding move_to_group
move_to_group-IsInRange w k i animate h = elim (Bool-cases (is_empty_list k.widgets)) [
  | inl e ↦ rw (e) h
  | inr e ↦ rw (e) (
      from_same (show_active w (set_active k i) animate) (set_active k i)
        (show_active-SameColumns w (set_active k i) animate) (set_active-IsInRange k i h))
]

-- The other handlers change nothing of the columns.
pub fold_if_unfolded-SameColumns : (k : Kanban) → SameColumns (fold_if_unfolded k) k
unfolding fold_if_unfolded
fold_if_unfolded-SameColumns k = ground arith

on_mobile_quick_create_clicked-SameColumns :
    (k : Kanban) → SameColumns (on_mobile_quick_create_clicked k) k
unfolding on_mobile_quick_create_clicked
on_mobile_quick_create_clicked-SameColumns k = ground arith

on_close_quick_create-SameColumns : (k : Kanban) → SameColumns (on_close_quick_create k) k
unfolding on_close_quick_create
on_close_quick_create-SameColumns k = ground arith

on_hide-SameColumns : (k : Kanban) → SameColumns (on_hide k) k
unfolding on_hide
on_hide-SameColumns k = ground arith

on_toggle_success-SameColumns : (w : ℕ) (k : Kanban) → SameColumns (on_toggle_success w k) k
unfolding on_toggle_success layout_update compute_column_position
on_toggle_success-SameColumns w k = ground arith

compute_tab_position-SameColumns : (w : ℕ) (k : Kanban) → SameColumns (compute_tab_position w k) k
compute_tab_position-SameColumns w k = ground arith

module _ (w : ℕ) where
  swipe_left-IsInRange : (k : Kanban) → IsInRange k → IsInRange (swipe_left w k)
  unfolding swipe_left
  swipe_left-IsInRange k h =
      let i = pos k.active_column_index +ℤ swipe_step k in
      elim (Bool-cases (ltb_ℤ i (pos (length k.widgets)))) [
        | inl e ↦ rw (e) (move_to_group-IsInRange w k i true h)
        | inr e ↦ rw (e) h
      ]

  swipe_right-IsInRange : (k : Kanban) → IsInRange k → IsInRange (swipe_right w k)
  unfolding swipe_right
  swipe_right-IsInRange k h =
      let i = pos k.active_column_index -ℤ swipe_step k in
      elim (Bool-cases (ltb_ℤ (negsuc 0) i)) [
        | inl e ↦ rw (e) (move_to_group-IsInRange w k i true h)
        | inr e ↦ rw (e) h
      ]

  on_render_view-IsInRange :
      (k : Kanban) (grouped : Bool) → IsInRange k → IsInRange (on_render_view w k grouped)
  unfolding on_render_view on_mobile_quick_create_clicked
  on_render_view-IsInRange k true h = move_to_group-IsInRange w k (pos 0) false h
  on_render_view-IsInRange k false h = ground arith

  pub kanban_event-IsInRange :
      (k : Kanban) (e : KanbanEvent) → IsInRange k → IsInRange (kanban_event w k e)
  unfolding kanban_event
  kanban_event-IsInRange k (tab_clicked i) h =
      move_to_group-IsInRange w (fold_if_unfolded k) (pos i) true
        (from_same (fold_if_unfolded k) k (fold_if_unfolded-SameColumns k) h)
  kanban_event-IsInRange k swiped_left h = swipe_left-IsInRange k h
  kanban_event-IsInRange k swiped_right h = swipe_right-IsInRange k h
  kanban_event-IsInRange k toggle_success h =
      from_same (on_toggle_success w k) k (on_toggle_success-SameColumns w k) h
  kanban_event-IsInRange k hide_due h = from_same (on_hide k) k (on_hide-SameColumns k) h
  kanban_event-IsInRange k (column_updated i c) h =
      from_same (layout_update w (record k { widgets = set k.widgets i c }) false)
        (record k { widgets = set k.widgets i c })
        (layout_update-SameColumns w (record k { widgets = set k.widgets i c }) false)
        (omega (arith, length-set k.widgets i c))
  kanban_event-IsInRange k quick_create_clicked h =
      from_same (on_mobile_quick_create_clicked k) k (on_mobile_quick_create_clicked-SameColumns k)
        h
  kanban_event-IsInRange k quick_create_closed h =
      from_same (on_close_quick_create k) k (on_close_quick_create-SameColumns k) h
  kanban_event-IsInRange k column_added h =
      from_same (fold_if_unfolded (compute_tab_position w k)) (compute_tab_position w k)
        (fold_if_unfolded-SameColumns (compute_tab_position w k))
        (from_same (compute_tab_position w k) k (compute_tab_position-SameColumns w k) h)
  kanban_event-IsInRange k (rendered grouped) h = on_render_view-IsInRange k grouped h

  -- After any events, in any order, in a view from left to right or from right to left, the active
  -- index is that of a column, if it was so at the start.
  kanban_run-IsInRange :
      (k : Kanban) (es : List KanbanEvent) → IsInRange k → IsInRange (kanban_run w k es)
  unfolding kanban_run
  kanban_run-IsInRange k [] h = h
  kanban_run-IsInRange k (e ∷ es) h =
      kanban_run-IsInRange (kanban_event w k e) es (kanban_event-IsInRange k e h)
