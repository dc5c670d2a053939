-- ===== src/DynamicDropdown.antt =====
-- addons_OCA/web/web_widget_dropdown_dynamic/static/src/js/field_dynamic_dropdown.js: a drop-down
-- whose options a method of the server gives.
pub mod Choice
mod Examples
use playground_azure_user_sy.Prelude.{
  ℕ, zero, suc, ◌+◌, String, Bool, true, false, not, ◌&&◌, Option, none, some, List, [], ◌∷◌, ◌==◌,
  ℕ_eq, String_eq, if◌then◌else◌, map,
}
use playground_azure_user_sy.Prelude.Int.{ℤ, pos, negsuc}

-- The key of an option, and a value of the field: `false`, a text or a number.
pub data OptionKey : Type 0 where
  no_key : OptionKey
  text_key : String → OptionKey
  number_key : ℤ → OptionKey

-- `===`
abbrev same_number : ℤ → ℤ → Bool
same_number (pos m) (pos n) = m == n
same_number (negsuc m) (negsuc n) = m == n
same_number (pos m) (negsuc n) = false
same_number (negsuc m) (pos n) = false

abbrev pub same_key : OptionKey → OptionKey → Bool
same_key no_key no_key = true
same_key (text_key s) (text_key t) = s == t
same_key (number_key m) (number_key n) = same_number m n
same_key no_key (text_key t) = false
same_key no_key (number_key n) = false
same_key (text_key s) no_key = false
same_key (text_key s) (number_key n) = false
same_key (number_key m) no_key = false
same_key (number_key m) (text_key t) = false

abbrev pub DropdownOption : Type 0
DropdownOption = OptionKey × String

-- The field: the server's options, the modifier `required` if there are modifiers, the placeholder,
-- the options offered, the value, and the option `escape`.
pub record DynamicDropdown : Type 0 where
  pub special_data : List DropdownOption
  pub required : Option Bool
  pub placeholder : Option String
  pub values : List DropdownOption
  pub value : OptionKey
  pub escape : Bool

-- `_.reject` of the empty option.
unfoldable reject_empty : List DropdownOption → List DropdownOption
reject_empty [] = []
reject_empty ((k, label) ∷ os) =
    let rest = reject_empty os in
    if same_key k no_key && label == "" then rest else (k, label) ∷ rest

abbrev pub is_required : Option Bool → Bool
is_required none = false
is_required (some b) = b

abbrev pub placeholder_or_empty : Option String → String
placeholder_or_empty none = ""
placeholder_or_empty (some s) = s

unfoldable pub set_values : DynamicDropdown → DynamicDropdown
unfolding reject_empty
set_values f =
    let rest = reject_empty f.special_data in
    record f {
      values =
          if is_required f.required
          then rest
          else (no_key, placeholder_or_empty f.placeholder) ∷ rest;
    }

-- `isSet`
abbrev pub is_set : DynamicDropdown → Bool
is_set f = not (same_key f.value no_key)

-- `_.find` of the option with a key.
unfoldable pub find_option : OptionKey → List DropdownOption → Option DropdownOption
find_option key [] = none
find_option key (o ∷ os) = if same_key o.0 key then some o else find_option key os

-- What `_formatValue` returns: a label, or the value itself.
pub data Formatted : Type 0 where
  label_text : String → Formatted
  itself : OptionKey → Formatted

-- `html_escape` is `_.escape`.
unfoldable pub dropdown_format : (String → String) → DynamicDropdown → Formatted
unfolding find_option
dropdown_format html_escape f = elim (find_option f.value f.values) [
  | none ↦ itself f.value
  | some o ↦ label_text (if f.escape then html_escape o.1 else o.1)
]

-- What an `option` element has: its value, which is a JSON text, and its text.
abbrev pub make_option : (OptionKey → String) → DropdownOption → String × String
make_option json_stringify (key, label) = (json_stringify key, label)

-- `_renderEdit`: the options of the element, and the one selected. `select_val` is what jQuery's
-- `val` selects of options with these values, for a text.
unfoldable pub dropdown_render_edit :
    (OptionKey → String)
    → (List String → String → Option ℕ)
    → DynamicDropdown
    → List (String × String) × Option ℕ
dropdown_render_edit json_stringify select_val f = (
  map (make_option json_stringify) f.values,
  select_val (map (λ o. (make_option json_stringify o).0) f.values) (json_stringify f.value),
)

-- `toString` of a key; `number_text` is that of a number.
abbrev pub key_text : (ℤ → String) → OptionKey → String
key_text number_text no_key = "false"
key_text number_text (text_key s) = s
key_text number_text (number_key n) = number_text n

-- `_onChange`, where `$el.val()` is the text `val`; `json_parse` gives `none` where it throws, and
-- `parse_value` is what `_setValue` makes of a text.
unfoldable pub dropdown_on_change :
    (String → Option OptionKey)
    → (ℤ → String)
    → (String → OptionKey)
    → DynamicDropdown
    → String
    → DynamicDropdown
dropdown_on_change json_parse number_text parse_value f val = elim (json_parse val) [
  | none ↦ f
  | some key ↦ record f { value = parse_value (key_text number_text key) }
]

-- `updateModifiersValue`, with what it renders, if it does.
unfoldable update_modifiers :
    (OptionKey → String)
    → (List String → String → Option ℕ)
    → DynamicDropdown
    → Option Bool
    → Bool
    → Bool
    → DynamicDropdown × Option (List (String × String) × Option ℕ)
unfolding set_values dropdown_render_edit
update_modifiers json_stringify select_val f required invisible readonly =
    let f' = record f { required = required } in
    if not invisible && not readonly
    then (set_values f', some (dropdown_render_edit json_stringify select_val (set_values f')))
    else (f', none)
