-- ===== src/KanbanMobile/Examples.antt =====
-- The theorems about the kanban view at three open columns, and at groups with and without a value.
use playground_azure_user_sy.Prelude.{
  String, Bool, true, false, none, some, List, [], ◌∷◌, ℕ_eq, refl, arith, inr,
}
use playground_azure_user_sy.KanbanMobile.{KanbanColumn, Kanban, places_from}
use playground_azure_user_sy.KanbanMobile.Handlers.{
  KanbanEvent, tab_clicked, swiped_left, swiped_right, hide_due, column_updated, kanban_run,
}
use playground_azure_user_sy.KanbanMobile.Layout.{IsSettled, kanban_run-IsSettled}
use playground_azure_user_sy.KanbanMobile.Tabs.{KanbanGroup}

abbrev column : String → Bool → KanbanColumn
column db_id is_open = record { id = ""; db_id = db_id; is_open = is_open; tab_width = 80 }

abbrev columns : List KanbanColumn
columns = column "new" true ∷ column "won" true ∷ column "lost" true ∷ []

abbrev board : Kanban
board = record {
  widgets = columns;
  active_column_index = 0;
  rtl = false;
  current_id = some "new";
  places = places_from 0 0 3;
  hidden = false ∷ true ∷ true ∷ [];
  scroll_quarters = 0;
  justified = true;
  toggles = [];
  hides = [];
  quick_create_enabled = false;
  quick_create = none;
}

abbrev session : List KanbanEvent
session =
    swiped_left
    ∷ tab_clicked 2
    ∷ hide_due
    ∷ swiped_left
    ∷ column_updated 1 (column "won" false)
    ∷ swiped_right
    ∷ []

kanban_run-IsSettled_example : IsSettled (kanban_run 360 board session)
kanban_run-IsSettled_example =
    kanban_run-IsSettled 360 board session (omega arith) (inr (refl, refl))

abbrev stages : List KanbanGroup
stages =
    record { id = "0"; value = "" }
    ∷ record { id = "1"; value = "New" }
    ∷ record { id = "2"; value = "Won" }
    ∷ []
