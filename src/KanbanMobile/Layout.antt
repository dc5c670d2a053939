-- ===== src/KanbanMobile/Layout.antt =====
-- What is displayed is the active column, unless a column is still asked to open.
use playground_azure_user_sy.Prelude.{
  ℕ, zero, suc, ◌<◌, String, Bool, true, false, Option, none, some, List, [], ◌∷◌, ◌++◌, length,
  get_elem?, set, length-set, ◌≡◌, refl, arith, Bool-cases, inl, inr, ◌⊎◌, ◌≢◌,
}
use playground_azure_user_sy.Prelude.Int.{ℤ, pos, negsuc, ltb_ℤ, ◌+ℤ◌, ◌-ℤ◌}
use playground_azure_user_sy.KanbanMobile.{
  KanbanColumn, Kanban, column_id, is_empty_list, compute_tab_position, compute_column_position,
  layout_update, set_active, show_column, show_active, move_to_group, swipe_left, swipe_right,
  swipe_step, places_from,
}
use playground_azure_user_sy.KanbanMobile.Handlers.{
  fold_if_unfolded, on_mobile_quick_create_clicked, on_close_quick_create, on_render_view,
  on_toggle_success, on_hide, KanbanEvent, tab_clicked, swiped_left, swiped_right, toggle_success,
  hide_due, column_updated, quick_create_clicked, quick_create_closed, column_added, rendered,
  kanban_event, kanban_run,
}
use playground_azure_user_sy.KanbanMobile.Active.{
  IsInRange, kanban_event-IsInRange, set_active-IsInRange, fold_if_unfolded-SameColumns, from_same,
}

abbrev active_id : Kanban → Option String
active_id k = elim (get_elem? k.widgets k.active_column_index) [
  | none ↦ none
  | some c ↦ some (column_id c)
]

-- The mark is on the active column, and all columns are placed around it.
abbrev IsDisplayed : Kanban → Type 0
IsDisplayed k =
    (k.current_id ≡ active_id k)
    × (k.places ≡ places_from k.active_column_index 0 (length k.widgets))

get_elem?-none : (cs : List KanbanColumn) (i : ℕ) → i < length cs → get_elem? cs i ≢ none
get_elem?-none [] i h = ground arith
get_elem?-none (c ∷ cs) zero h = ground arith
get_elem?-none (c ∷ cs) (suc i) h = get_elem?-none cs i (omega arith)

layout_update-IsDisplayed :
    (w : ℕ) (k : Kanban) (animate : Bool) → IsInRange k → IsDisplayed (layout_update w k animate)
unfolding layout_update compute_column_position
layout_update-IsDisplayed w k animate h =
    ground (arith, get_elem?-none k.widgets k.active_column_index h)

-- A column is asked to open, or the active one is displayed.
abbrev pub IsSettled : Kanban → Type 0
IsSettled k = (is_empty_list k.toggles ≡ false) ⊎ IsDisplayed k

nonempty : (bs : List Bool) (b : Bool) → is_empty_list (bs ++ b ∷ []) ≡ false
nonempty [] b = refl
nonempty (c ∷ bs) b = refl

show_column-IsSettled :
    (w : ℕ) (k : Kanban) (animate : Bool) (o : Option KanbanColumn)
    → IsInRange k
    → o ≢ none
    → IsSettled (show_column w k animate o)
show_column-IsSettled w k animate none h e = absurd (e refl)
show_column-IsSettled w k animate (some c) h e = elim (Bool-cases c.is_open) [
  | inl o ↦ rw (o) (inr (layout_update-IsDisplayed w k animate h))
  | inr o ↦ rw (o) (inl (nonempty k.toggles animate))
]

show_active-IsSettled :
    (w : ℕ) (k : Kanban) (animate : Bool) → IsInRange k → IsSettled (show_active w k animate)
unfolding show_active
show_active-IsSettled w k animate h =
    let o = get_elem? k.widgets k.active_column_index in
    show_column-IsSettled w k animate o h (get_elem?-none k.widgets k.active_column_index h)

-- The columns, the layout and the requests to open are the same.
abbrev SameLayout : Kanban → Kanban → Type 0
SameLayout j k =
    (j.widgets ≡ k.widgets)
    × (j.active_column_index ≡ k.active_column_index)
    × (j.current_id ≡ k.current_id)
    × (j.places ≡ k.places)
    × (j.toggles ≡ k.toggles)

from_SameLayout : (j k : Kanban) → SameLayout j k → IsSettled k → IsSettled j
from_SameLayout j k (h₁, h₂, h₃, h₄, h₅) h = rw (h₁, h₂, h₃, h₄, h₅) h

fold_if_unfolded-SameLayout : (k : Kanban) → SameLayout (fold_if_unfolded k) k
unfolding fold_if_unfolded
fold_if_unfolded-SameLayout k = ground arith

on_mobile_quick_create_clicked-SameLayout :
    (k : Kanban) → SameLayout (on_mobile_quick_create_clicked k) k
unfolding on_mobile_quick_create_clicked
on_mobile_quick_create_clicked-SameLayout k = ground arith

on_close_quick_create-SameLayout : (k : Kanban) → SameLayout (on_close_quick_create k) k
unfolding on_close_quick_create
on_close_quick_create-SameLayout k = ground arith

on_hide-SameLayout : (k : Kanban) → SameLayout (on_hide k) k
unfolding on_hide
on_hide-SameLayout k = ground arith

compute_tab_position-SameLayout : (w : ℕ) (k : Kanban) → SameLayout (compute_tab_position w k) k
compute_tab_position-SameLayout w k = ground arith

module _ (w : ℕ) where
  move_to_group-IsSettled :
      (k : Kanban) (i : ℤ) (animate : Bool)
      → IsInRange k
      → IsSettled k
      → IsSettled (move_to_group w k i animate)
  unfolding move_to_group
  move_to_group-IsSettled k i animate h s = elim (Bool-cases (is_empty_list k.widgets)) [
    | inl e ↦ rw (e) s
    | inr e ↦ rw (e) (show_active-IsSettled w (set_active k i) animate (set_active-IsInRange k i h))
  ]

  swipe_left-IsSettled : (k : Kanban) → IsInRange k → IsSettled k → IsSettled (swipe_left w k)
  unfolding swipe_left
  swipe_left-IsSettled k h s =
      let i = pos k.active_column_index +ℤ swipe_step k in
      elim (Bool-cases (ltb_ℤ i (pos (length k.widgets)))) [
        | inl e ↦ rw (e) (move_to_group-IsSettled k i true h s)
        | inr e ↦ rw (e) s
      ]

  swipe_right-IsSettled : (k : Kanban) → IsInRange k → IsSettled k → IsSettled (swipe_right w k)
  unfolding swipe_right
  swipe_right-IsSettled k h s =
      let i = pos k.active_column_index -ℤ swipe_step k in
      elim (Bool-cases (ltb_ℤ (negsuc 0) i)) [
        | inl e ↦ rw (e) (move_to_group-IsSettled k i true h s)
        | inr e ↦ rw (e) s
      ]

  on_toggle_success-IsSettled :
      (k : Kanban) → IsInRange k → IsSettled k → IsSettled (on_toggle_success w k)
  unfolding on_toggle_success
  on_toggle_success-IsSettled k h s = go k.toggles
    where
      go :
          (ts : List Bool)
          → IsSettled (elim ts [
            | [] ↦ k
            | animate ∷ rest ↦ layout_update w (record k { toggles = rest }) animate
          ])
      go [] = s
      go (animate ∷ rest) =
          inr (layout_update-IsDisplayed w (record k { toggles = rest }) animate h)

  on_render_view-IsSettled :
      (k : Kanban) (grouped : Bool)
      → IsInRange k
      → IsSettled k
      → IsSettled (on_render_view w k grouped)
  unfolding on_render_view on_mobile_quick_create_clicked
  on_render_view-IsSettled k true h s = move_to_group-IsSettled k (pos 0) false h s
  on_render_view-IsSettled k false h s = ground arith

  kanban_event-IsSettled :
      (k : Kanban) (e : KanbanEvent) → IsInRange k → IsSettled k → IsSettled (kanban_event w k e)
  unfolding kanban_event
  kanban_event-IsSettled k (tab_clicked i) h s =
      move_to_group-IsSettled (fold_if_unfolded k) (pos i) true
        (from_same (fold_if_unfolded k) k (fold_if_unfolded-SameColumns k) h)
        (from_SameLayout (fold_if_unfolded k) k (fold_if_unfolded-SameLayout k) s)
  kanban_event-IsSettled k swiped_left h s = swipe_left-IsSettled k h s
  kanban_event-IsSettled k swiped_right h s = swipe_right-IsSettled k h s
  kanban_event-IsSettled k toggle_success h s = on_toggle_success-IsSettled k h s
  kanban_event-IsSettled k hide_due h s = from_SameLayout (on_hide k) k (on_hide-SameLayout k) s
  kanban_event-IsSettled k (column_updated i c) h s = inr (
      layout_update-IsDisplayed w (record k { widgets = set k.widgets i c }) false
        (omega (arith, length-set k.widgets i c)))
  kanban_event-IsSettled k quick_create_clicked h s =
      from_SameLayout (on_mobile_quick_create_clicked k) k
        (on_mobile_quick_create_clicked-SameLayout k) s
  kanban_event-IsSettled k quick_create_closed h s =
      from_SameLayout (on_close_quick_create k) k (on_close_quick_create-SameLayout k) s
  kanban_event-IsSettled k column_added h s =
      from_SameLayout (fold_if_unfolded (compute_tab_position w k)) (compute_tab_position w k)
        (fold_if_unfolded-SameLayout (compute_tab_position w k))
        (from_SameLayout (compute_tab_position w k) k (compute_tab_position-SameLayout w k) s)
  kanban_event-IsSettled k (rendered grouped) h s = on_render_view-IsSettled k grouped h s

  -- After any events, in any order, in a view whose active index is that of a column: the mark is on
  -- the active column and the columns are placed around it, unless a column is still asked to open,
  -- if this was so at the start.
  pub kanban_run-IsSettled :
      (k : Kanban) (es : List KanbanEvent)
      → IsInRange k
      → IsSettled k
      → IsSettled (kanban_run w k es)
  unfolding kanban_run
  kanban_run-IsSettled k [] h s = s
  kanban_run-IsSettled k (e ∷ es) h s =
      kanban_run-IsSettled (kanban_event w k e) es (kanban_event-IsInRange w k e h)
        (kanban_event-IsSettled k e h s)
