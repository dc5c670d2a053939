-- ===== src/RowActions.antt =====
-- addons_zync/queue/zbsync/static/src/list_renderer.js and
-- addons_zync/queue/zbsync_mapper/static/src/list_renderer.js: what a click on a row of a list does,
-- for the lines of instances and pipelines, and for mappings.
pub mod Reloads
mod Examples
use playground_azure_user_sy.Prelude.{
  ℕ, zero, suc, String, Bool, true, false, ◌||◌, Option, none, some, List, [], ◌∷◌, ◌++◌,
  if◌then◌else◌,
}

-- `record.model`: zbs.instance.line, zbs.pipeline.line, zbs.mapping, or another.
pub data RowModel : Type 0 where
  instance_line : RowModel
  pipeline_line : RowModel
  mapping : RowModel
  other_model : RowModel

pub record LineWorker : Type 0 where
  pub model : String
  pub res_id : ℕ

-- `worker_id` may be empty.
pub record RowRecord : Type 0 where
  pub model : RowModel
  pub id : ℕ
  pub worker_id : Option LineWorker

pub record RowClick : Type 0 where
  pub on_button : Bool
  pub on_open_line : Bool
  pub shift_key : Bool
  pub alt_key : Bool

-- A method that is called. Without a worker, `open_action` is called on no model.
pub data Call : Type 0 where
  open_line : RowModel → ℕ → Call
  open_action : Option LineWorker → Call
  open_mapping : ℕ → Call

-- The calls, and whether the event is stopped.
pub record Handled : Type 0 where
  pub calls : List Call
  pub stopped : Bool

abbrev nothing_done : Handled
nothing_done = record { calls = []; stopped = false }

abbrev one_call : Call → Handled
one_call c = record { calls = c ∷ []; stopped = true }

abbrev on_line_click : RowRecord → RowClick → Handled
on_line_click r c =
    if c.on_button
    then nothing_done
    else (if c.on_open_line
        then one_call (open_line r.model r.id)
        else one_call (open_action r.worker_id))

abbrev on_mapping_click : RowRecord → RowClick → Handled
on_mapping_click r c =
    if c.on_button
    then nothing_done
    else (if c.shift_key || c.alt_key then one_call (open_mapping r.id) else nothing_done)

-- The handlers that `_renderRow` of the two modules binds to a row.
abbrev pub bind_row : RowModel → RowRecord → RowClick → Handled
bind_row instance_line r c = on_line_click r c
bind_row pipeline_line r c = on_line_click r c
bind_row mapping r c = on_mapping_click r c
bind_row other_model r c = nothing_done

unfoldable pub on_row_click : RowRecord → RowClick → Handled
on_row_click r c = bind_row r.model r c

-- The calls whose answers are to come, the actions that were done and are not closed, by their
-- calls, and how often the list was reloaded.
pub record RowList : Type 0 where
  pub calls : List Call
  pub actions : List Call
  pub reloads : ℕ

-- The element at an index, if there is one, and the others.
abbrev pub take_call : List Call → ℕ → Option Call × List Call
take_call [] i = (none, [])
take_call (c ∷ cs) zero = (some c, cs)
take_call (c ∷ cs) (suc i) = let (found, rest) = take_call cs i in (found, c ∷ rest)

-- `do_action`
abbrev pub do_action : RowList → Option Call × List Call → RowList
do_action l (none, rest) = l
do_action l (some c, rest) = record l { calls = rest; actions = l.actions ++ c ∷ [] }

-- `on_close`, which `open_action` does not have.
abbrev reload_after : Call → ℕ → ℕ
reload_after (open_line m id) n = suc n
reload_after (open_action w) n = n
reload_after (open_mapping id) n = suc n

abbrev pub close_action : RowList → Option Call × List Call → RowList
close_action l (none, rest) = l
close_action l (some c, rest) = record l { actions = rest; reloads = reload_after c l.reloads }

pub data RowEvent : Type 0 where
  row_clicked : RowRecord → RowClick → RowEvent
  call_answered : ℕ → RowEvent
  action_closed : ℕ → RowEvent

unfoldable pub row_event : RowList → RowEvent → RowList
unfolding on_row_click
row_event l (row_clicked r c) = record l { calls = l.calls ++ (on_row_click r c).calls }
row_event l (call_answered i) = do_action l (take_call l.calls i)
row_event l (action_closed i) = close_action l (take_call l.actions i)

unfoldable pub row_run : RowList → List RowEvent → RowList
unfolding row_event
row_run l [] = l
row_run l (e ∷ es) = row_run (row_event l e) es
