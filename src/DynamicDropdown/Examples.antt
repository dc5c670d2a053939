-- ===== src/DynamicDropdown/Examples.antt =====
-- A drop-down over two options of the server, one of which is empty, with a text for each key.
use Prim.Native.Char.{code}
use playground_azure_user_sy.Prelude.{
  ℕ, zero, suc, String, false, ◌≡◌, refl, ap, Option, none, some, List, [], ◌∷◌, if◌then◌else◌,
  get_elem?, ◌==◌, ℕ_eq, String_eq,
}
use playground_azure_user_sy.Prelude.Int.{pos, negsuc}
use playground_azure_user_sy.DynamicDropdown.{
  OptionKey, no_key, text_key, number_key, DynamicDropdown, label_text, dropdown_format,
  dropdown_render_edit,
}
use playground_azure_user_sy.DynamicDropdown.Choice.{one_later, render_edit-format}

abbrev strokes : ℕ → String
strokes zero = ""
strokes (suc n) = String.◌∷◌ "|" (strokes n)

abbrev stroke_count : String → ℕ
stroke_count String.[] = 0
stroke_count (String.◌∷◌ c s) = suc (stroke_count s)

stroke_count-strokes : (n : ℕ) → stroke_count (strokes n) ≡ n
stroke_count-strokes zero = refl
stroke_count-strokes (suc n) = ap suc (stroke_count-strokes n)

abbrev write_key : OptionKey → String
write_key no_key = "f"
write_key (text_key s) = String.◌∷◌ "t" s
write_key (number_key (pos n)) = String.◌∷◌ "+" (strokes n)
write_key (number_key (negsuc n)) = String.◌∷◌ "-" (strokes n)

abbrev read_key : String → Option OptionKey
read_key String.[] = none
read_key (String.◌∷◌ c s) =
    if code c == b'f'
    then some no_key
    else if code c == b't'
    then some (text_key s)
    else if code c == b'+'
    then some (number_key (pos (stroke_count s)))
    else some (number_key (negsuc (stroke_count s)))

read_key-write_key : (k : OptionKey) → read_key (write_key k) ≡ some k
read_key-write_key no_key = refl
read_key-write_key (text_key s) = refl
read_key-write_key (number_key (pos n)) =
    ap (λ m. some (number_key (pos m))) (stroke_count-strokes n)
read_key-write_key (number_key (negsuc n)) =
    ap (λ m. some (number_key (negsuc m))) (stroke_count-strokes n)

abbrev first_index : List String → String → Option ℕ
first_index [] t = none
first_index (u ∷ us) t = let rest = first_index us t in if u == t then some 0 else one_later rest

abbrev colors : DynamicDropdown
colors = record {
  special_data = (no_key, "") ∷ (text_key "r", "Red") ∷ [];
  required = none;
  placeholder = some "Color";
  values = (no_key, "Color") ∷ (text_key "r", "Red") ∷ [];
  value = text_key "r";
  escape = false;
}

abbrev same_text : String → String
same_text s = s

selected_color : (dropdown_render_edit write_key first_index colors).1 ≡ some 1
unfolding dropdown_render_edit
selected_color = refl

render_edit-format_example :
    (label : String) × (get_elem? colors.values 1 ≡ some (text_key "r", label))
    × (get_elem? (dropdown_render_edit write_key first_index colors).0 1 ≡ some ("tr", label))
    × (dropdown_format same_text colors ≡ label_text label)
unfolding dropdown_render_edit
render_edit-format_example =
    render_edit-format write_key read_key read_key-write_key first_index (λ t. refl)
      (λ u us t. refl) same_text colors
