-- ===== src/M2xOptions/Dialog.antt =====
-- form.js: `FieldMany2One._onInputFocusout` and the dialog `M2ODialog` that it opens. The dialog of
-- the web client closes when a button with `close: true` was clicked, and closing destroys it.
use playground_azure_user_sy.Prelude.{
  String, Bool, true, false, ◌&&◌, ◌||◌, ◌≡◌, refl, not, Option, none, some, List, [], ◌∷◌, arith,
  ◌==◌, String_eq, if◌then◌else◌,
}
use playground_azure_user_sy.M2xOptions.Precedence.{node_or_param, not_set}
use playground_azure_user_sy.M2xOptions.{
  is_undefined, is_option_set, NodeOptions, IrOptions, ir_value,
}

-- The condition `m2o_dialog_opt`, with its three alternatives.
unfoldable m2o_dialog_opt : NodeOptions → IrOptions → Bool
m2o_dialog_opt node ir =
    is_option_set node.m2o_dialog
    || (is_undefined node.m2o_dialog && is_option_set (ir_value ir.ir_m2o_dialog))
    || (is_undefined node.m2o_dialog && is_undefined (ir_value ir.ir_m2o_dialog))

pub record M2ODialog : Type 0 where
  pub name : String
  pub value : String
  pub is_set : Bool

-- The dialog that is opened when the input is left, if any.
unfoldable on_input_focusout :
    NodeOptions → IrOptions → Bool → Bool → String → String → Option M2ODialog
unfolding m2o_dialog_opt
on_input_focusout node ir can_create floating name input =
    if can_create && floating && m2o_dialog_opt node ir
    then some (record { name = name; value = input; is_set = false })
    else none

-- What the dialog sends to the field.
pub data Event : Type 0 where
  quick_create : String → Event
  search_create_popup : String → Event
  focus_input closed_unset : Event

-- `destroy`, and `close(isSet)`, which ends in it.
destroy : M2ODialog → List Event
destroy d = if d.is_set then [] else closed_unset ∷ []

close : M2ODialog → Bool → List Event
unfolding destroy
close d is_set = destroy (record d { is_set = is_set })

pub data Button : Type 0 where
  create create_and_edit cancel : Button

-- A click on a button: the events, and whether the dialog is gone.
unfoldable pub click : M2ODialog → Button → List Event × Bool
unfolding close
click d create =
    if d.value == "" then (focus_input ∷ [], false) else (quick_create d.value ∷ close d true, true)
click d create_and_edit = (search_create_popup d.value ∷ close d false, true)
click d cancel = (close d false, true)

-- For every node and parameters, leaving the input opens a dialog on the typed text exactly if a
-- record can be created, the text names none, and the node's `m2o_dialog` is set, or is missing
-- while the system parameter is missing or set; the dialog starts unset.
on_input_focusout-opens :
    (node : NodeOptions) (ir : IrOptions) (can_create floating : Bool) (name input : String)
    → on_input_focusout node ir can_create floating name input ≡ (
        if can_create && floating && node_or_param node.m2o_dialog (ir_value ir.ir_m2o_dialog)
        then some (record { name = name; value = input; is_set = false })
        else none)
unfolding on_input_focusout
on_input_focusout-opens node ir c f name input =
    ground (arith, not_set node.m2o_dialog, not_set (ir_value ir.ir_m2o_dialog))

abbrev asks_quick_create : List Event → Bool
asks_quick_create [] = false
asks_quick_create (quick_create v ∷ es) = true
asks_quick_create (_ ∷ es) = asks_quick_create es

abbrev reports_unset : List Event → Bool
reports_unset [] = false
reports_unset (closed_unset ∷ es) = true
reports_unset (_ ∷ es) = reports_unset es

-- For every dialog and button: the dialog stays open only at "Create" with no value, where it does
-- nothing but focus the input; and a dialog that goes reports itself unset exactly if it asked for
-- no quick creation.
click-reports :
    (d : M2ODialog) (b : Button)
    → ((click d b).1 ≡ false
        → (b ≡ create) × ((d.value == "") ≡ true) × ((click d b).0 ≡ focus_input ∷ []))
      × ((click d b).1 ≡ true → reports_unset (click d b).0 ≡ not (asks_quick_create (click d b).0))
unfolding click
click-reports d create = (λ h. ground arith, λ h. ground arith)
click-reports d create_and_edit = (λ h. ground arith, λ h. refl)
click-reports d cancel = (λ h. ground arith, λ h. refl)
