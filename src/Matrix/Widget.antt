-- ===== src/Matrix/Widget.antt =====
-- widget_x2many_2d_matrix.js: the parameters of the widget, and the matrix of its records.
use playground_azure_user_sy.Prelude.{
  String, Bool, true, false, ◌&&◌, ◌||◌, Option, none, some, List, [], ◌∷◌, ◌++◌, map, contains,
  ◌==◌, String_eq, if◌then◌else◌,
}
use mathlib.Core.List.{foldl}
use playground_azure_user_sy.Prelude.Maps.{get, put}
use playground_azure_user_sy.Matrix.{Record, x_label, y_label, Cell, Column, Row}

abbrev ByX : Type 0
ByX = List (String × Record)

-- `by_y_axis`, `x_axis` and `y_axis`.
pub record Matrix : Type 0 where
  pub by_y_axis : List (String × ByX)
  pub x_axis : List String
  pub y_axis : List String

abbrev pub empty_matrix : Matrix
empty_matrix = record { by_y_axis = []; x_axis = []; y_axis = [] }

-- `by_y_axis[y] || {}`
abbrev pub row_of : List (String × ByX) → String → ByX
row_of m y = elim (get y m) [ none ↦ [] | some r ↦ r ]

-- `if (axis.indexOf(a) === -1) axis.push(a)`
unfoldable pub push_new : List String → String → List String
push_new axis a = if contains axis a then axis else axis ++ a ∷ []

-- The body of the loop over the records in `init_matrix`.
unfoldable pub add_record : Matrix → Record → Matrix
add_record m r = record {
  by_y_axis = put (y_label r) (put (x_label r) r (row_of m.by_y_axis (y_label r))) m.by_y_axis;
  x_axis = push_new m.x_axis (x_label r);
  y_axis = push_new m.y_axis (y_label r);
}

unfoldable pub read_records : List Record → Matrix
read_records = foldl add_record empty_matrix

abbrev pub make_column : String → Column
make_column x = record { string = x; aggregate = none }

-- `by_y_axis[y][x]`
unfoldable pub cell_at : Matrix → String → String → Cell
cell_at m y x = get x (row_of m.by_y_axis y)

unfoldable pub make_row : Matrix → String → Row
make_row m y = record { string = y; cells = map (λ x. cell_at m y x) m.x_axis; aggregate = none }

-- The type of a field, and whether `is_aggregatable`.
pub data FieldType : Type 0 where
  float integer monetary char_text other_type : FieldType

unfoldable pub is_aggregatable : FieldType → Bool
is_aggregatable float = true
is_aggregatable integer = true
is_aggregatable monetary = true
is_aggregatable char_text = false
is_aggregatable other_type = false

-- `parse_boolean`; `lower` is `String.prototype.toLowerCase`.
unfoldable parse_boolean : (String → String) → String → Bool
parse_boolean lower val = lower val == "true" || val == "1"

-- The node's attributes that `init_params` reads for the totals.
pub record Attrs : Type 0 where
  pub show_row_totals : Option String
  pub show_column_totals : Option String

-- `node.x || "1"`
abbrev text_or_one : Option String → String
text_or_one none = "1"
text_or_one (some s) = if s == "" then "1" else s

-- What `init_matrix` hands to the renderer.
pub record MatrixData : Type 0 where
  pub columns : List Column
  pub rows : List Row
  pub show_row_totals : Bool
  pub show_column_totals : Bool

-- `show_row_totals` or `show_column_totals` of `init_params`.
unfoldable pub shows_totals : (String → String) → Option String → FieldType → Bool
unfolding parse_boolean
shows_totals lower attr type = parse_boolean lower (text_or_one attr) && is_aggregatable type

unfoldable pub init_matrix : (String → String) → Attrs → FieldType → List Record → MatrixData
unfolding read_records
init_matrix lower attrs type records =
    let m = read_records records in
    record {
      columns = map make_column m.x_axis;
      rows = map (make_row m) m.y_axis;
      show_row_totals = shows_totals lower attrs.show_row_totals type;
      show_column_totals = shows_totals lower attrs.show_column_totals type;
    }
