-- ===== src/Matrix/Table.antt =====
-- The table that is rendered from the records, and what an update of a record does to it.
use playground_azure_user_sy.Prelude.{
  ℕ, zero, suc, String, true, ◌≡◌, ◌≢◌, ◌⊎◌, refl, sym, ap, ap₂, subst, ◌∙◌, Option, get_elem?,
  if◌then◌else◌, none, some, List, [], ◌∷◌, map, length-map, ◌==◌, ==_iff, String_eq, arith, inl,
  inr,
}
use playground_azure_user_sy.Prelude.Int.{ℤ, pos, ◌+ℤ◌}
use playground_azure_user_sy.Matrix.{Record, Cell, Column, Row}
use playground_azure_user_sy.Matrix.Widget.{
  Matrix, read_records, cell_at, make_row, make_column, init_matrix, Attrs, FieldType,
}
use playground_azure_user_sy.Matrix.Renderer.{
  compute_row_aggregates, Renderer, aggregates, find_record, replace_cell, update_row, refresh,
  sum_row, sum_columns,
}
use playground_azure_user_sy.Matrix.Totals.{
  IsFull, table_total, sum_columns-table_total, cell_value, row_total, column_total, row_sum-zero,
  column_sum-zero, with_columns, with_rows, compute_columns-shown, compute_rows-shown,
}

rows-IsFull :
    (m : Matrix) (ys : List String) → IsFull (map make_column m.x_axis) (map (make_row m) ys)
unfolding make_row
rows-IsFull m [] = tt
rows-IsFull m (y ∷ ys) = (
  length-map m.x_axis make_column ∙ sym (length-map m.x_axis (λ x. cell_at m y x)),
  rows-IsFull m ys,
)

-- The table that the widget hands to the renderer is rectangular.
pub init_matrix-IsFull :
    (lower : String → String) (attrs : Attrs) (type : FieldType) (rs : List Record)
    → IsFull (init_matrix lower attrs type rs).columns (init_matrix lower attrs type rs).rows
unfolding init_matrix
init_matrix-IsFull lower attrs type rs = rows-IsFull (read_records rs) (read_records rs).y_axis

replace-IsFull :
    (f : Cell → Cell) (cs : List Column) (rows : List Row)
    → IsFull cs rows
    → IsFull cs (map (λ (r : Row). record r { cells = map f r.cells }) rows)
replace-IsFull f cs [] h = tt
replace-IsFull f cs (r ∷ rs) (l, h) = (l ∙ sym (length-map r.cells f), replace-IsFull f cs rs h)

-- What a search for the first record with an id finds: that record, or nothing.
abbrev IsFirst : String → List Record → Cell → Type 0
IsFirst id [] c = c ≡ none
IsFirst id (r ∷ rs) c = ((r.id ≡ id) × (c ≡ some r)) ⊎ ((r.id ≢ id) × IsFirst id rs c)

-- What a cell adds once `new` stands for the record with the id.
abbrev new_value : String → Cell → Cell → ℤ
new_value id new none = pos 0
new_value id new (some r) =
    if r.id == id then (elim new [ none ↦ pos 0 | some s ↦ s.value ]) else r.value

abbrev new_value_at : String → Cell → Option Cell → ℤ
new_value_at id new none = pos 0
new_value_at id new (some c) = new_value id new c

-- The sums of a row, of the whole table and of the cells with an index.
abbrev new_row : String → Cell → List Cell → ℤ
new_row id new [] = pos 0
new_row id new (c ∷ cs) = new_value id new c +ℤ new_row id new cs

abbrev new_total : String → Cell → List Row → ℤ
new_total id new [] = pos 0
new_total id new (r ∷ rs) = new_row id new r.cells +ℤ new_total id new rs

abbrev new_column : String → Cell → ℕ → List Row → ℤ
new_column id new i [] = pos 0
new_column id new i (r ∷ rs) = new_value_at id new (get_elem? r.cells i) +ℤ new_column id new i rs

-- The sums of the rows, and those of the columns from `i` on.
abbrev new_rows : String → Cell → List Row → List (Option ℤ)
new_rows id new [] = []
new_rows id new (r ∷ rs) = some (new_row id new r.cells) ∷ new_rows id new rs

abbrev new_columns : String → Cell → ℕ → List Column → List Row → List (Option ℤ)
new_columns id new i [] rows = []
new_columns id new i (c ∷ cs) rows =
    some (new_column id new i rows) ∷ new_columns id new (suc i) cs rows

abbrev pub row_aggregates : List Row → List (Option ℤ)
row_aggregates [] = []
row_aggregates (r ∷ rs) = r.aggregate ∷ row_aggregates rs

abbrev pub column_aggregates : List Column → List (Option ℤ)
column_aggregates [] = []
column_aggregates (c ∷ cs) = c.aggregate ∷ column_aggregates cs

abbrev replace_all : String → Cell → List Row → List Row
replace_all id new = map (λ (r : Row). record r { cells = map (replace_cell id new) r.cells })

find_record-IsFirst :
    (id : String) (rs : List Record) (c : Cell) → IsFirst id rs c → find_record id rs ≡ c
unfolding find_record
find_record-IsFirst id [] c h = sym h
find_record-IsFirst id (r ∷ rs) c (inl (e, f)) = ground (arith, ==_iff r.id id)
find_record-IsFirst id (r ∷ rs) c (inr (e, f)) =
    ground (arith, ==_iff r.id id, find_record-IsFirst id rs c f)

cell_value-replace_cell :
    (id : String) (new c : Cell) → cell_value (some (replace_cell id new c)) ≡ new_value id new c
unfolding replace_cell
cell_value-replace_cell id none none = refl
cell_value-replace_cell id (some s) none = refl
cell_value-replace_cell id none (some r) = ground arith
cell_value-replace_cell id (some s) (some r) = ground arith

row_total-replaced :
    (id : String) (new : Cell) (cs : List Cell)
    → row_total (map (replace_cell id new) cs) ≡ new_row id new cs
row_total-replaced id new [] = refl
row_total-replaced id new (c ∷ cs) =
    ap₂ (◌+ℤ◌) (cell_value-replace_cell id new c) (row_total-replaced id new cs)

table_total-replaced :
    (id : String) (new : Cell) (rows : List Row)
    → table_total (replace_all id new rows) ≡ new_total id new rows
table_total-replaced id new [] = refl
table_total-replaced id new (r ∷ rs) =
    ap₂ (◌+ℤ◌) (row_total-replaced id new r.cells) (table_total-replaced id new rs)

value_at-replaced :
    (id : String) (new : Cell) (cs : List Cell) (i : ℕ)
    → cell_value (get_elem? (map (replace_cell id new) cs) i) ≡ new_value_at id new (get_elem? cs i)
value_at-replaced id new [] i = refl
value_at-replaced id new (c ∷ cs) zero = cell_value-replace_cell id new c
value_at-replaced id new (c ∷ cs) (suc i) = value_at-replaced id new cs i

column_total-replaced :
    (id : String) (new : Cell) (i : ℕ) (rows : List Row)
    → column_total i (replace_all id new rows) ≡ new_column id new i rows
column_total-replaced id new i [] = refl
column_total-replaced id new i (r ∷ rs) =
    ap₂ (◌+ℤ◌) (value_at-replaced id new r.cells i) (column_total-replaced id new i rs)

row_aggregates-replaced :
    (id : String) (new : Cell) (rows : List Row)
    → row_aggregates (map sum_row (replace_all id new rows)) ≡ new_rows id new rows
unfolding sum_row
row_aggregates-replaced id new [] = refl
row_aggregates-replaced id new (r ∷ rs) =
    ap₂ (λ z zs. some z ∷ zs)
      (row_sum-zero (map (replace_cell id new) r.cells) ∙ row_total-replaced id new r.cells)
      (row_aggregates-replaced id new rs)

column_aggregates-replaced :
    (id : String) (new : Cell) (rows : List Row) (i : ℕ) (t : ℤ) (cs : List Column)
    → column_aggregates (sum_columns (replace_all id new rows) i t cs).0
      ≡ new_columns id new i cs rows
unfolding sum_columns
column_aggregates-replaced id new rows i t [] = refl
column_aggregates-replaced id new rows i t (c ∷ cs) =
    ap₂ (λ z zs. some z ∷ zs)
      (column_sum-zero i (replace_all id new rows) ∙ column_total-replaced id new i rows)
      (column_aggregates-replaced id new rows (suc i) _ cs)

refresh-sums :
    (v : Renderer) (id : String)
    → aggregates v.show_column_totals v.field_type ≡ true
    → aggregates v.show_row_totals v.field_type ≡ true
    → refresh v id ≡ with_rows (with_columns (update_row v id))
unfolding refresh
refresh-sums v id col row_ =
    ap compute_row_aggregates (compute_columns-shown (update_row v id) col)
    ∙ compute_rows-shown (with_columns (update_row v id)) row_

-- The sums that the refreshed table shows are those of the table with the replaced cells.
abbrev Shows : Renderer → Renderer → Cell → String → Type 0
Shows w v new id =
    (w.total ≡ some (table_total (replace_all id new v.rows)))
    × (row_aggregates w.rows ≡ row_aggregates (map sum_row (replace_all id new v.rows)))
    × (column_aggregates w.columns
        ≡ column_aggregates (sum_columns (replace_all id new v.rows) 0 (pos 0) v.columns).0)

refreshed :
    (v : Renderer) (id : String)
    → IsFull v.columns v.rows
    → Shows (with_rows (with_columns (update_row v id))) v (find_record id v.records) id
unfolding update_row
refreshed v id full = (
  ap some (sum_columns-table_total v.columns _ (replace-IsFull _ v.columns v.rows full)),
  refl,
  refl,
)

-- For every rectangular table with the totals of both axes, after a record is updated and the table
-- refreshed, each row shows the sum of its cells, each column the sum of its cells, and the grand
-- total is the sum of all cells, where the cells of the record count with its new version, which is
-- the first record with its id, or with nothing if there is none.
pub refresh-totals :
    (v : Renderer) (id : String) (new : Cell)
    → IsFirst id v.records new
    → aggregates v.show_column_totals v.field_type ≡ true
    → aggregates v.show_row_totals v.field_type ≡ true
    → IsFull v.columns v.rows
    → ((refresh v id).total ≡ some (new_total id new v.rows))
      × (row_aggregates (refresh v id).rows ≡ new_rows id new v.rows)
      × (column_aggregates (refresh v id).columns ≡ new_columns id new 0 v.columns v.rows)
refresh-totals v id new first col row_ full =
    let (total, rows, columns) =
      subst (λ w. Shows w v new id) (sym (refresh-sums v id col row_))
        (subst (λ c. Shows (with_rows (with_columns (update_row v id))) v c id)
          (find_record-IsFirst id v.records new first) (refreshed v id full)) in
    (
      total ∙ ap some (table_total-replaced id new v.rows),
      rows ∙ row_aggregates-replaced id new v.rows,
      columns ∙ column_aggregates-replaced id new v.rows 0 (pos 0) v.columns,
    )
