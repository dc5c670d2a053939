-- ===== src/RowActions/Reloads.antt =====
-- How often a list is reloaded.
use playground_azure_user_sy.Prelude.{
  ℕ, zero, suc, ◌+◌, ◌||◌, Option, none, some, List, [], ◌∷◌, ◌++◌, if◌then◌else◌, ◌≡◌, refl, ap,
  arith,
}
use playground_azure_user_sy.RowActions.{
  RowModel, instance_line, pipeline_line, mapping, other_model, RowRecord, RowClick, Call,
  open_line, open_action, open_mapping, bind_row, on_row_click, RowList, take_call, do_action,
  close_action, RowEvent, row_clicked, call_answered, action_closed, row_event, row_run,
}

-- Whether the list is reloaded after the action of a call.
abbrev weight : Call → ℕ
weight (open_line m id) = 1
weight (open_action w) = 0
weight (open_mapping id) = 1

abbrev weights : List Call → ℕ
weights [] = 0
weights (c ∷ cs) = weight c + weights cs

-- The reloads that a click asks for: one on the sign of a line, and one on a mapping with the shift
-- or the alt key, but none on a button.
abbrev asked_on : RowModel → RowClick → ℕ
asked_on instance_line c = if c.on_button then 0 else (if c.on_open_line then 1 else 0)
asked_on pipeline_line c = if c.on_button then 0 else (if c.on_open_line then 1 else 0)
asked_on mapping c = if c.on_button then 0 else (if c.shift_key || c.alt_key then 1 else 0)
asked_on other_model c = 0

abbrev pub asked : List RowEvent → ℕ
asked [] = 0
asked (row_clicked r c ∷ es) = asked_on r.model c + asked es
asked (call_answered i ∷ es) = asked es
asked (action_closed i ∷ es) = asked es

abbrev total : RowList → ℕ
total l = weights l.calls + weights l.actions + l.reloads

weights-append : (cs ds : List Call) → weights (cs ++ ds) ≡ weights cs + weights ds
weights-append [] ds = omega arith
weights-append (c ∷ cs) ds = omega (arith, weights-append cs ds)

-- The weight of what `take_call` gives.
abbrev taken_weight : Option Call → ℕ
taken_weight none = 0
taken_weight (some c) = weight c

weights-take_call :
    (cs : List Call) (i : ℕ)
    → weights cs ≡ taken_weight (take_call cs i).0 + weights (take_call cs i).1
weights-take_call [] i = refl
weights-take_call (c ∷ cs) zero = refl
weights-take_call (c ∷ cs) (suc i) = omega (arith, weights-take_call cs i)

weights-bind_row :
    (m : RowModel) (r : RowRecord) (c : RowClick) → weights (bind_row m r c).calls ≡ asked_on m c
weights-bind_row instance_line r c = ground arith
weights-bind_row pipeline_line r c = ground arith
weights-bind_row mapping r c = ground arith
weights-bind_row other_model r c = refl

do_action-total :
    (l : RowList) (p : Option Call × List Call)
    → weights l.calls ≡ taken_weight p.0 + weights p.1
    → total (do_action l p) ≡ total l
do_action-total l (none, rest) h = refl
do_action-total l (some c, rest) h = omega (arith, weights-append l.actions (c ∷ []))

close_action-total :
    (l : RowList) (p : Option Call × List Call)
    → weights l.actions ≡ taken_weight p.0 + weights p.1
    → total (close_action l p) ≡ total l
close_action-total l (none, rest) h = refl
close_action-total l (some (open_line m id), rest) h = omega arith
close_action-total l (some (open_action w), rest) h = omega arith
close_action-total l (some (open_mapping id), rest) h = omega arith

row_run-total : (l : RowList) (es : List RowEvent) → total (row_run l es) ≡ total l + asked es
unfolding row_run row_event on_row_click
row_run-total l [] = omega arith
row_run-total l (row_clicked r c ∷ es) = omega (
  arith,
  row_run-total (row_event l (row_clicked r c)) es,
  weights-append l.calls (bind_row r.model r c).calls,
  weights-bind_row r.model r c,
)
row_run-total l (call_answered i ∷ es) = omega (
  arith,
  row_run-total (do_action l (take_call l.calls i)) es,
  do_action-total l (take_call l.calls i) (weights-take_call l.calls i),
)
row_run-total l (action_closed i ∷ es) = omega (
  arith,
  row_run-total (close_action l (take_call l.actions i)) es,
  close_action-total l (take_call l.actions i) (weights-take_call l.actions i),
)

-- After any clicks, answers and closed actions, in any order: once all calls are answered and all
-- actions are closed, the list was reloaded once for each click on the sign of a line of an instance
-- or a pipeline, and for each click on a mapping with the shift or the alt key, but for none on a
-- button and none else.
pub row_run-reloads :
    (l n : RowList) (es : List RowEvent)
    → l.calls ≡ []
    → l.actions ≡ []
    → row_run l es ≡ n
    → n.calls ≡ []
    → n.actions ≡ []
    → n.reloads ≡ l.reloads + asked es
row_run-reloads l n es a b run c d = omega (
  arith,
  row_run-total l es,
  ap total run,
  ap weights a,
  ap weights b,
  ap weights c,
  ap weights d,
)
