-- ===== src/TimelineController/Examples.antt =====
-- A view whose dates are written as the name of the field: two moves, and removals.
use playground_azure_user_sy.Prelude.{
  ℕ, String, true, false, ◌≡◌, refl, none, some, List, [], ◌∷◌, ◌++◌, contains, ℕ_eq,
}
use playground_azure_user_sy.TimelineController.{
  MovedItem, ControllerView, Controller, remove_completed, ControllerEvent, item_moved,
  item_removed, controller_run,
}
use playground_azure_user_sy.TimelineController.Moves.{
  queued_writes, writes_of, moved_writes, controller_run-writes,
}
use playground_azure_user_sy.TimelineController.Data.{HasFields}
use playground_azure_user_sy.TimelineController.Removal.{without, remove_completed-ids}

abbrev field_name : String → ℕ → String
field_name field time = field

abbrev dates : ControllerView
dates = record {
  date_start = "start";
  date_stop = some "stop";
  date_delay = some "delay";
  last_group_by = some "project";
  open_popup_action = none;
}

abbrev calm : Controller
calm = record {
  view = dates;
  move_queue = [];
  internal_move_due = false;
  model_ids = 4 ∷ 5 ∷ 6 ∷ [];
}

abbrev long_item : MovedItem
long_item = record { id = 5; start = 1000; end = some 9000; group = some 2 }

abbrev point_item : MovedItem
point_item = record { id = 6; start = 2000; end = none; group = none }

abbrev two_moves : List ControllerEvent
two_moves = item_moved long_item ∷ item_removed 4 true ∷ item_moved point_item ∷ []

dates-HasFields : HasFields dates "stop" "delay" "project"
dates-HasFields = record {
  stop_field = refl;
  delay_field = refl;
  group_field = refl;
  stop_start = refl;
  delay_start = refl;
  group_start = refl;
  delay_stop = refl;
  group_stop = refl;
  group_delay = refl;
}

controller_run-writes_example :
    let (d, effects) = controller_run field_name calm two_moves in
    writes_of effects ++ queued_writes d.move_queue ≡ moved_writes field_name dates two_moves
controller_run-writes_example = controller_run-writes field_name calm two_moves

remove_completed-ids_example :
    (contains calm.model_ids 9 ≡ true
      → (remove_completed calm 9).0.model_ids ≡ without 9 (4 ∷ 5 ∷ 6 ∷ []))
    × (contains calm.model_ids 9 ≡ false → (remove_completed calm 9).0.model_ids ≡ 5 ∷ 6 ∷ [])
remove_completed-ids_example = remove_completed-ids calm 9 (refl, (refl, (refl, tt)))
