-- ===== src/Matrix/Renderer.antt =====
-- 2d_matrix_renderer.js: the aggregates, the update of a record, and the rendered table.
use playground_azure_user_sy.Prelude.{
  ℕ, suc, String, Bool, false, ◌&&◌, Option, none, some, List, [], ◌∷◌, ◌++◌, map, ◌==◌, String_eq,
  if◌then◌else◌, get_elem?,
}
use playground_azure_user_sy.Prelude.Int.{ℤ, pos, ◌+ℤ◌}
use playground_azure_user_sy.Matrix.{Record, y_label, Cell, Column, Row}
use playground_azure_user_sy.Matrix.Widget.{FieldType, is_aggregatable, MatrixData}

-- The renderer: the matrix data, the type of the value's field in the state (`none` if the state
-- has no such field), the records of the state, and `total.aggregate.value`.
pub record Renderer : Type 0 where
  pub matrix : MatrixData
  pub open matrix use *
  pub field_type : Option FieldType
  pub records : List Record
  pub total : Option ℤ

-- The early returns of the two methods that compute aggregates.
unfoldable pub aggregates : Bool → Option FieldType → Bool
aggregates shown field = shown && (elim field [ none ↦ false | some t ↦ is_aggregatable t ])

-- `sum += cell.data[fname]` under `try`: an undefined cell throws, and adds nothing.
unfoldable pub add_cell : ℤ → Option Cell → ℤ
unfolding ◌+ℤ◌
add_cell sum none = sum
add_cell sum (some none) = sum
add_cell sum (some (some r)) = sum +ℤ r.value

-- The loop over the rows for column `i`, which reads `row.data[i]`.
unfoldable pub column_sum : ℕ → ℤ → List Row → ℤ
unfolding add_cell
column_sum i sum [] = sum
column_sum i sum (r ∷ rs) = column_sum i (add_cell sum (get_elem? r.cells i)) rs

-- The loop over the columns from column `i` on: the columns with their sums, and the total.
unfoldable pub sum_columns : List Row → ℕ → ℤ → List Column → List Column × ℤ
unfolding column_sum ◌+ℤ◌
sum_columns rows i total [] = ([], total)
sum_columns rows i total (c ∷ cs) =
    let s = column_sum i (pos 0) rows in
    let (cs', total') = sum_columns rows (suc i) (total +ℤ s) cs in
    (record c { aggregate = some s } ∷ cs', total')

unfoldable pub compute_column_aggregates : Renderer → Renderer
unfolding aggregates sum_columns
compute_column_aggregates v =
    if aggregates v.show_column_totals v.field_type
    then (let (cs, total) = sum_columns v.rows 0 (pos 0) v.columns in
        record v { matrix = record (v.matrix) { columns = cs }; total = some total })
    else v

-- The loop over a row's cells.
unfoldable pub row_sum : ℤ → List Cell → ℤ
unfolding add_cell
row_sum sum [] = sum
row_sum sum (c ∷ cs) = row_sum (add_cell sum (some c)) cs

unfoldable pub sum_row : Row → Row
unfolding row_sum
sum_row r = record r { aggregate = some (row_sum (pos 0) r.cells) }

unfoldable pub compute_row_aggregates : Renderer → Renderer
unfolding aggregates sum_row
compute_row_aggregates v =
    if aggregates v.show_row_totals v.field_type
    then record v { matrix = record (v.matrix) { rows = map sum_row v.rows } }
    else v

-- `_.findWhere(this.state.data, {id: id})`
unfoldable pub find_record : String → List Record → Cell
find_record id [] = none
find_record id (r ∷ rs) = if r.id == id then some r else find_record id rs

-- A cell with the id is replaced.
unfoldable pub replace_cell : String → Cell → Cell → Cell
replace_cell id new none = none
replace_cell id new (some r) = if r.id == id then new else some r

unfoldable pub update_row : Renderer → String → Renderer
unfolding find_record replace_cell
update_row v id =
    let new = find_record id v.records in
    record v {
      matrix = record (v.matrix) {
        rows = map (λ (r : Row). record r { cells = map (replace_cell id new) r.cells }) v.rows;
      };
    }

-- `_refresh`, and `confirmUpdate` once the change is confirmed for the new records.
unfoldable pub refresh : Renderer → String → Renderer
unfolding update_row compute_column_aggregates compute_row_aggregates
refresh v id = compute_row_aggregates (compute_column_aggregates (update_row v id))

unfoldable confirm_update : Renderer → List Record → String → Renderer
unfolding refresh
confirm_update v records id = refresh (record v { records = records }) id

-- `updateState` with new matrix data.
unfoldable update_state : Renderer → Option MatrixData → Renderer
update_state v none = v
update_state v (some data_) = record v { matrix = data_ }

-- What is drawn in a table cell.
pub data Drawn : Type 0 where
  blank : Drawn  -- a cell with no content
  text : String → Drawn
  field_cell : String → Drawn  -- the field of the record with the id
  amount : ℤ → Drawn
  thrown : Drawn  -- nothing: what should be shown is undefined, and reading its fields throws

pub record Table : Type 0 where
  pub header : List Drawn
  pub body : List (List Drawn)
  pub footer : Option (List Drawn)

-- `_renderLabelCell(_.without(row.data, undefined)[0])`: the label of the first record.
unfoldable pub label_cell : List Cell → Drawn
label_cell [] = thrown
label_cell (none ∷ cs) = label_cell cs
label_cell (some r ∷ cs) = text (y_label r)

abbrev body_cell : Option Cell → Drawn
body_cell none = blank
body_cell (some none) = blank
body_cell (some (some r)) = field_cell r.id

abbrev pub amount_cell : Option ℤ → List Drawn
amount_cell none = []
amount_cell (some z) = amount z ∷ []

-- The cells of a row, one for each column from `i` on.
unfoldable pub body_cells : List Cell → ℕ → List Column → List Drawn
body_cells cells i [] = []
body_cells cells i (c ∷ cs) = body_cell (get_elem? cells i) ∷ body_cells cells (suc i) cs

unfoldable pub render_row : List Column → Row → List Drawn
unfolding label_cell body_cells
render_row columns r =
    label_cell r.cells ∷ (body_cells r.cells 0 columns ++ amount_cell r.aggregate)

unfoldable pub render_header : Renderer → List Drawn
render_header v =
    blank
    ∷ (map (λ (c : Column). text c.string) v.columns
        ++ (if v.show_row_totals then blank ∷ [] else []))

abbrev pub column_total : Column → Drawn
column_total c = elim c.aggregate [ none ↦ blank | some z ↦ amount z ]

-- `_renderTotalCell`, which reads `this.total`
abbrev total_amount : Option ℤ → Drawn
total_amount none = thrown
total_amount (some z) = amount z

abbrev pub total_cell : Renderer → List Drawn
total_cell v = if v.show_column_totals && v.show_row_totals then total_amount v.total ∷ [] else []

unfoldable pub render_footer : Renderer → List Drawn
render_footer v = blank ∷ (map column_total v.columns ++ total_cell v)

-- `_renderView`; `none` is the message that there is no data.
unfoldable pub render_view : Renderer → Renderer × Option Table
unfolding compute_column_aggregates compute_row_aggregates render_row render_header render_footer
render_view v = elim v.rows [
  | [] ↦ (v, none)
  | _ ∷ _ ↦
      let v' = compute_row_aggregates (compute_column_aggregates v) in
      (
        v',
        some (record {
          header = render_header v';
          body = map (render_row v'.columns) v'.rows;
          footer = if v'.show_column_totals then some (render_footer v') else none;
        }),
      )
]
