-- ===== src/Matrix/Totals.antt =====
-- The aggregates: sums of rows, of columns, and of the whole table.
use playground_azure_user_sy.Prelude.{
  ℕ, zero, suc, true, ◌≡◌, refl, ap, ap₂, ◌∙◌, Option, none, some, List, [], ◌∷◌, map, length,
  get_elem?, drop, arith,
}
use playground_azure_user_sy.Prelude.Int.{ℤ, pos, ◌+ℤ◌, int_laws, +ℤ_assoc}
use playground_azure_user_sy.Matrix.{Cell, Column, Row}
use playground_azure_user_sy.Matrix.Renderer.{
  Renderer, aggregates, add_cell, column_sum, sum_columns, compute_column_aggregates, row_sum,
  sum_row, compute_row_aggregates,
}

-- What a cell adds.
abbrev pub cell_value : Option Cell → ℤ
cell_value none = pos 0
cell_value (some none) = pos 0
cell_value (some (some r)) = r.value

-- The sum of a row's cells, of cell `i` of the rows, and of the columns from `i` on.
abbrev pub row_total : List Cell → ℤ
row_total [] = pos 0
row_total (c ∷ cs) = cell_value (some c) +ℤ row_total cs

abbrev pub table_total : List Row → ℤ
table_total [] = pos 0
table_total (r ∷ rs) = row_total r.cells +ℤ table_total rs

abbrev pub column_total : ℕ → List Row → ℤ
column_total i [] = pos 0
column_total i (r ∷ rs) = cell_value (get_elem? r.cells i) +ℤ column_total i rs

abbrev columns_total : ℕ → List Column → List Row → ℤ
columns_total i [] rows = pos 0
columns_total i (c ∷ cs) rows = column_total i rows +ℤ columns_total (suc i) cs rows

-- The cells of one row, column by column.
abbrev indexed_total : ℕ → List Column → List Cell → ℤ
indexed_total i [] cells = pos 0
indexed_total i (c ∷ cs) cells = cell_value (get_elem? cells i) +ℤ indexed_total (suc i) cs cells

add_cell_lem : (s : ℤ) (c : Option Cell) → add_cell s c ≡ s +ℤ cell_value c
unfolding add_cell
add_cell_lem s none = omega int_laws
add_cell_lem s (some none) = omega int_laws
add_cell_lem s (some (some r)) = refl

row_sum_lem : (cs : List Cell) (s : ℤ) → row_sum s cs ≡ s +ℤ row_total cs
unfolding row_sum
row_sum_lem [] s = omega int_laws
row_sum_lem (c ∷ cs) s =
    row_sum_lem cs (add_cell s (some c))
    ∙ (ap (λ t. t +ℤ row_total cs) (add_cell_lem s (some c))
        ∙ +ℤ_assoc s (cell_value (some c)) (row_total cs))

column_sum_lem : (i : ℕ) (rows : List Row) (s : ℤ) → column_sum i s rows ≡ s +ℤ column_total i rows
unfolding column_sum
column_sum_lem i [] s = omega int_laws
column_sum_lem i (r ∷ rs) s =
    column_sum_lem i rs (add_cell s (get_elem? r.cells i))
    ∙ (ap (λ t. t +ℤ column_total i rs) (add_cell_lem s (get_elem? r.cells i))
        ∙ +ℤ_assoc s (cell_value (get_elem? r.cells i)) (column_total i rs))

zero_add : (s : ℤ) → pos 0 +ℤ s ≡ s
zero_add s = omega int_laws

pub row_sum-zero : (cs : List Cell) → row_sum (pos 0) cs ≡ row_total cs
row_sum-zero cs = row_sum_lem cs (pos 0) ∙ zero_add (row_total cs)

pub column_sum-zero : (i : ℕ) (rows : List Row) → column_sum i (pos 0) rows ≡ column_total i rows
column_sum-zero i rows = column_sum_lem i rows (pos 0) ∙ zero_add (column_total i rows)

sum_columns-total :
    (rows : List Row) (i : ℕ) (t : ℤ) (cs : List Column)
    → (sum_columns rows i t cs).1 ≡ t +ℤ columns_total i cs rows
unfolding sum_columns
sum_columns-total rows i t [] = omega int_laws
sum_columns-total rows i t (c ∷ cs) =
    sum_columns-total rows (suc i) (t +ℤ column_sum i (pos 0) rows) cs
    ∙ (ap (λ u. (t +ℤ u) +ℤ columns_total (suc i) cs rows) (column_sum-zero i rows)
        ∙ +ℤ_assoc t (column_total i rows) (columns_total (suc i) cs rows))

columns_total-nil : (i : ℕ) (cs : List Column) → columns_total i cs [] ≡ pos 0
columns_total-nil i [] = refl
columns_total-nil i (c ∷ cs) = zero_add _ ∙ columns_total-nil (suc i) cs

swap_inner : (a b c d : ℤ) → a +ℤ b +ℤ (c +ℤ d) ≡ a +ℤ c +ℤ (b +ℤ d)
swap_inner a b c d = omega int_laws

columns_total-cons :
    (i : ℕ) (cs : List Column) (r : Row) (rs : List Row)
    → columns_total i cs (r ∷ rs) ≡ indexed_total i cs r.cells +ℤ columns_total i cs rs
columns_total-cons i [] r rs = omega int_laws
columns_total-cons i (c ∷ cs) r rs =
    ap (λ t. cell_value (get_elem? r.cells i) +ℤ column_total i rs +ℤ t)
      (columns_total-cons (suc i) cs r rs)
    ∙ swap_inner (cell_value (get_elem? r.cells i)) (column_total i rs)
        (indexed_total (suc i) cs r.cells) (columns_total (suc i) cs rs)

drop-cons :
    (i : ℕ) (cells : List Cell) (c : Cell) (rest : List Cell)
    → drop i cells ≡ c ∷ rest
    → (get_elem? cells i ≡ some c) × (drop (suc i) cells ≡ rest)
drop-cons zero [] c rest h = (cc, cc)
drop-cons zero (d ∷ cells) c rest h = (cc, cc)
drop-cons (suc i) [] c rest h = (cc, cc)
drop-cons (suc i) (d ∷ cells) c rest h = drop-cons i cells c rest h

indexed_total-drop :
    (i : ℕ) (cs : List Column) (cells rest : List Cell)
    → drop i cells ≡ rest
    → length cs ≡ length rest
    → indexed_total i cs cells ≡ row_total rest
indexed_total-drop i [] cells [] d l = refl
indexed_total-drop i [] cells (c ∷ rest) d l = absurd (omega arith)
indexed_total-drop i (k ∷ cs) cells [] d l = absurd (omega arith)
indexed_total-drop i (k ∷ cs) cells (c ∷ rest) d l =
    let (here, later) = drop-cons i cells c rest d in
    ap₂ (◌+ℤ◌) (ap cell_value here) (indexed_total-drop (suc i) cs cells rest later (omega arith))

-- The table is rectangular: each row has a cell for each column.
abbrev pub IsFull : List Column → List Row → Type 0
IsFull cs [] = Unit {0}
IsFull cs (r ∷ rs) = (length cs ≡ length r.cells) × IsFull cs rs

-- By columns the sum is the same as by rows.
columns_total-table_total :
    (cs : List Column) (rows : List Row)
    → IsFull cs rows
    → columns_total 0 cs rows ≡ table_total rows
columns_total-table_total cs [] h = columns_total-nil 0 cs
columns_total-table_total cs (r ∷ rs) (l, h) =
    columns_total-cons 0 cs r rs
    ∙ ap₂ (◌+ℤ◌) (indexed_total-drop 0 cs r.cells r.cells refl l)
        (columns_total-table_total cs rs h)

pub sum_columns-table_total :
    (cs : List Column) (rows : List Row)
    → IsFull cs rows
    → (sum_columns rows 0 (pos 0) cs).1 ≡ table_total rows
sum_columns-table_total cs rows full =
    sum_columns-total rows 0 (pos 0) cs
    ∙ (zero_add (columns_total 0 cs rows) ∙ columns_total-table_total cs rows full)

-- The sums that are shown at the rows and below the columns.
abbrev shown_rows : List Row → ℤ
shown_rows [] = pos 0
shown_rows (r ∷ rs) = elim r.aggregate [ none ↦ shown_rows rs | some z ↦ z +ℤ shown_rows rs ]

abbrev shown_columns : List Column → ℤ
shown_columns [] = pos 0
shown_columns (c ∷ cs) = elim c.aggregate [
  | none ↦ shown_columns cs
  | some z ↦ z +ℤ shown_columns cs
]

shown_rows-sum_row : (rows : List Row) → shown_rows (map sum_row rows) ≡ table_total rows
unfolding sum_row
shown_rows-sum_row [] = refl
shown_rows-sum_row (r ∷ rs) = ap₂ (◌+ℤ◌) (row_sum-zero r.cells) (shown_rows-sum_row rs)

shown_columns-sum_columns :
    (rows : List Row) (i : ℕ) (t : ℤ) (cs : List Column)
    → shown_columns (sum_columns rows i t cs).0 ≡ columns_total i cs rows
unfolding sum_columns
shown_columns-sum_columns rows i t [] = refl
shown_columns-sum_columns rows i t (c ∷ cs) =
    ap₂ (◌+ℤ◌) (column_sum_lem i rows (pos 0) ∙ zero_add (column_total i rows))
      (shown_columns-sum_columns rows (suc i) (t +ℤ column_sum i (pos 0) rows) cs)

abbrev pub with_columns : Renderer → Renderer
with_columns v =
    let p = sum_columns v.rows 0 (pos 0) v.columns in
    record v { matrix = record (v.matrix) { columns = p.0 }; total = some p.1 }

pub compute_columns-shown :
    (v : Renderer)
    → aggregates v.show_column_totals v.field_type ≡ true
    → compute_column_aggregates v ≡ with_columns v
unfolding compute_column_aggregates
compute_columns-shown v h = ground arith

abbrev pub with_rows : Renderer → Renderer
with_rows v = record v { matrix = record (v.matrix) { rows = map sum_row v.rows } }

pub compute_rows-shown :
    (v : Renderer)
    → aggregates v.show_row_totals v.field_type ≡ true
    → compute_row_aggregates v ≡ with_rows v
unfolding compute_row_aggregates
compute_rows-shown v h = ground arith

-- For every rectangular table whose totals are shown for both axes, after the aggregates are
-- computed the grand total is the sum of all cells, the sums shown at the rows add up to it, and so
-- do the sums shown below the columns.
totals_agree :
    (v : Renderer)
    → aggregates v.show_column_totals v.field_type ≡ true
    → aggregates v.show_row_totals v.field_type ≡ true
    → IsFull v.columns v.rows
    → let v' = compute_row_aggregates (compute_column_aggregates v) in
      (v'.total ≡ some (table_total v.rows))
      × (shown_rows v'.rows ≡ table_total v.rows)
      × (shown_columns v'.columns ≡ table_total v.rows)
totals_agree v col row_ full =
    let cells = columns_total-table_total v.columns v.rows full in
    rw (compute_columns-shown v col, compute_rows-shown (with_columns v) row_)
      (
        ap some (sum_columns-table_total v.columns v.rows full),
        shown_rows-sum_row v.rows,
        shown_columns-sum_columns v.rows 0 (pos 0) v.columns ∙ cells,
      )
