-- ===== src/RowActions/Examples.antt =====
-- The theorem about reloads, at clicks on a line and on a mapping.
use playground_azure_user_sy.Prelude.{true, false, none, some, List, [], ◌∷◌, ◌≡◌, refl}
use playground_azure_user_sy.RowActions.{
  instance_line, mapping, RowRecord, RowClick, open_action, on_row_click, RowList, RowEvent,
  row_clicked, call_answered, action_closed, row_event, row_run,
}
use playground_azure_user_sy.RowActions.Reloads.{row_run-reloads}

abbrev line : RowRecord
line = record {
  model = instance_line;
  id = 1;
  worker_id = some (record { model = "zbs.dumper"; res_id = 7 });
}

abbrev field_mapping : RowRecord
field_mapping = record { model = mapping; id = 2; worker_id = none }

abbrev plain_click : RowClick
plain_click = record { on_button = false; on_open_line = false; shift_key = false; alt_key = false }

abbrev session : List RowEvent
session =
    row_clicked line plain_click
    ∷ row_clicked line (record plain_click { on_open_line = true })
    ∷ row_clicked field_mapping (record plain_click { shift_key = true })
    ∷ row_clicked field_mapping plain_click
    ∷ row_clicked line (record plain_click { on_button = true; on_open_line = true })
    ∷ call_answered 1
    ∷ call_answered 0
    ∷ action_closed 0
    ∷ call_answered 0
    ∷ action_closed 1
    ∷ action_closed 0
    ∷ []

abbrev no_calls : RowList
no_calls = record { calls = []; actions = []; reloads = 0 }

row_run-reloads_example : (row_run no_calls session).reloads ≡ 2
unfolding row_run row_event on_row_click
row_run-reloads_example =
    row_run-reloads no_calls (row_run no_calls session) session refl refl refl refl refl

-- A line without a worker.
no_worker :
    (on_row_click (record line { worker_id = none }) plain_click).calls ≡ open_action none ∷ []
unfolding on_row_click
no_worker = refl
