-- ===== src/Matrix/Width.antt =====
-- The number of cells of the header, the rows and the footer of the rendered table.
use playground_azure_user_sy.Prelude.{
  ℕ, suc, ◌+◌, String, Bool, true, false, ◌≡◌, refl, sym, ap, ap₂, subst, ◌∙◌, Option, none, some,
  List, [], ◌∷◌, ◌++◌, map, length, length-map, length-append, if◌then◌else◌, arith, Bool-cases,
  inl, inr,
}
use playground_azure_user_sy.Prelude.Int.{ℤ, pos}
use playground_azure_user_sy.Matrix.{Record, Cell, Column, Row}
use playground_azure_user_sy.Matrix.Widget.{
  Matrix, read_records, make_row, make_column, init_matrix, Attrs, FieldType, shows_totals,
}
use playground_azure_user_sy.Matrix.Renderer.{
  Renderer, Drawn, blank, text, Table, aggregates, compute_column_aggregates,
  compute_row_aggregates, sum_row, sum_columns, body_cells, render_row, render_header,
  render_footer, render_view, amount_cell, total_cell, column_total,
}

abbrev pub one_if : Bool → ℕ
one_if b = if b then 1 else 0

abbrev AllWide : ℕ → List (List Drawn) → Type 0
AllWide w [] = Unit {0}
AllWide w (r ∷ rs) = (length r ≡ w) × AllWide w rs

abbrev FooterWide : ℕ → Option (List Drawn) → Type 0
FooterWide w none = Unit {0}
FooterWide w (some f) = length f ≡ w

-- No table, or one whose rows all have `w` cells.
abbrev IsWide : ℕ → Option Table → Type 0
IsWide w none = Unit {0}
IsWide w (some t) = (length t.header ≡ w) × AllWide w t.body × FooterWide w t.footer

-- The rows show their sums exactly if `b`.
abbrev RowsShow : Bool → List Row → Type 0
RowsShow b [] = Unit {0}
RowsShow b (r ∷ rs) = (length (amount_cell r.aggregate) ≡ one_if b) × RowsShow b rs

length-body_cells :
    (cells : List Cell) (i : ℕ) (cs : List Column) → length (body_cells cells i cs) ≡ length cs
unfolding body_cells
length-body_cells cells i [] = refl
length-body_cells cells i (c ∷ cs) = ap suc (length-body_cells cells (suc i) cs)

length-render_row :
    (cs : List Column) (r : Row)
    → length (render_row cs r) ≡ suc (length cs + length (amount_cell r.aggregate))
unfolding render_row
length-render_row cs r = omega (
  arith,
  length-append (body_cells r.cells 0 cs) (amount_cell r.aggregate),
  length-body_cells r.cells 0 cs,
)

body-AllWide :
    (cs : List Column) (b : Bool) (rows : List Row)
    → RowsShow b rows
    → AllWide (suc (length cs + one_if b)) (map (render_row cs) rows)
body-AllWide cs b [] h = tt
body-AllWide cs b (r ∷ rs) (e, h) =
    (length-render_row cs r ∙ ap (λ k. suc (length cs + k)) e, body-AllWide cs b rs h)

length-append_if :
    (ds : List Drawn) (b : Bool)
    → length (ds ++ (if b then blank ∷ [] else [])) ≡ length ds + one_if b
length-append_if ds true = length-append ds (blank ∷ [])
length-append_if ds false = length-append ds []

length-render_header :
    (v : Renderer) → length (render_header v) ≡ suc (length v.columns + one_if v.show_row_totals)
unfolding render_header
length-render_header v = ap suc (
    length-append_if (map (λ (c : Column). text c.string) v.columns) v.show_row_totals
    ∙ ap (λ k. k + one_if v.show_row_totals) (length-map v.columns (λ c. text c.string)))

length-render_footer :
    (v : Renderer) → length (render_footer v) ≡ suc (length v.columns + length (total_cell v))
unfolding render_footer
length-render_footer v = omega (
  arith,
  length-append (map column_total v.columns) (total_cell v),
  length-map v.columns column_total,
)

length-sum_columns :
    (rows : List Row) (i : ℕ) (t : ℤ) (cs : List Column)
    → length (sum_columns rows i t cs).0 ≡ length cs
unfolding sum_columns
length-sum_columns rows i t [] = refl
length-sum_columns rows i t (c ∷ cs) = ap suc (length-sum_columns rows (suc i) _ cs)

sum_row-RowsShow : (rows : List Row) → RowsShow true (map sum_row rows)
unfolding sum_row
sum_row-RowsShow [] = tt
sum_row-RowsShow (r ∷ rs) = (refl, sum_row-RowsShow rs)

-- What the first pass leaves of the table.
columns-pass :
    (v : Renderer)
    → let v' = compute_column_aggregates v in
      (length v'.columns ≡ length v.columns)
      × (v'.rows ≡ v.rows)
      × (v'.show_row_totals ≡ v.show_row_totals)
      × (v'.show_column_totals ≡ v.show_column_totals)
      × (v'.field_type ≡ v.field_type)
unfolding compute_column_aggregates
columns-pass v = elim (Bool-cases (aggregates v.show_column_totals v.field_type)) [
  | inl h ↦ ground (arith, length-sum_columns v.rows 0 (pos 0) v.columns)
  | inr h ↦ ground arith
]

rows-pass :
    (v : Renderer)
    → RowsShow false v.rows
    → let v' = compute_row_aggregates v in
      (v'.columns ≡ v.columns)
      × (v'.total ≡ v.total)
      × (v'.show_row_totals ≡ v.show_row_totals)
      × (v'.show_column_totals ≡ v.show_column_totals)
      × RowsShow (aggregates v.show_row_totals v.field_type) v'.rows
unfolding compute_row_aggregates
rows-pass v fresh = elim (Bool-cases (aggregates v.show_row_totals v.field_type)) [
  | inl h ↦ rw h (refl, refl, refl, refl, sum_row-RowsShow v.rows)
  | inr h ↦ rw h (refl, refl, refl, refl, fresh)
]

footer_wide :
    (v : Renderer) (b : Bool) (w : ℕ)
    → (b ≡ true → length (render_footer v) ≡ w)
    → FooterWide w (if b then some (render_footer v) else none)
footer_wide v true w h = h refl
footer_wide v false w h = tt

length-total_cell :
    (v : Renderer) → v.show_column_totals ≡ true → length (total_cell v) ≡ one_if v.show_row_totals
length-total_cell v col = ground arith

-- What `_renderView` draws, from what the two passes leave.
table_wide :
    (v : Renderer)
    → RowsShow v.show_row_totals v.rows
    → let w = suc (length v.columns + one_if v.show_row_totals) in
      (length (render_header v) ≡ w)
      × AllWide w (map (render_row v.columns) v.rows)
      × FooterWide w (if v.show_column_totals then some (render_footer v) else none)
table_wide v shows = (
  length-render_header v,
  body-AllWide v.columns v.show_row_totals v.rows shows,
  footer_wide v v.show_column_totals _ (λ col.
      length-render_footer v ∙ ap (λ k. suc (length v.columns + k)) (length-total_cell v col)),
)

abbrev after_passes : Renderer → Renderer
after_passes v = compute_row_aggregates (compute_column_aggregates v)

aggregates-shows_totals :
    (lower : String → String) (attr : Option String) (type : FieldType)
    → aggregates (shows_totals lower attr type) (some type) ≡ shows_totals lower attr type
unfolding aggregates shows_totals
aggregates-shows_totals lower attr type = ground arith

make_rows-RowsShow : (m : Matrix) (ys : List String) → RowsShow false (map (make_row m) ys)
unfolding make_row
make_rows-RowsShow m [] = tt
make_rows-RowsShow m (y ∷ ys) = (refl, make_rows-RowsShow m ys)

-- A renderer that was just made for the widget's data.
abbrev pub fresh_renderer : (String → String) → Attrs → FieldType → List Record → Renderer
fresh_renderer lower attrs type rs = record {
  matrix = init_matrix lower attrs type rs;
  field_type = some type;
  records = rs;
  total = none;
}

passes_wide :
    (v : Renderer)
    → RowsShow false v.rows
    → aggregates v.show_row_totals v.field_type ≡ v.show_row_totals
    → let v' = after_passes v in
      (length v'.columns ≡ length v.columns)
      × (v'.show_row_totals ≡ v.show_row_totals)
      × RowsShow v'.show_row_totals v'.rows
passes_wide v fresh row_ =
    let c = compute_column_aggregates v in
    let (c0, c1, c2, c3, c4) = columns-pass v in
    let (r0, r1, r2, r3, r4) = rows-pass c (subst (RowsShow false) (sym c1) fresh) in
    let same = ap₂ aggregates c2 c4 ∙ (row_ ∙ sym (r2 ∙ c2)) in
    (ap length r0 ∙ c0, r2 ∙ c2, subst (λ b. RowsShow b (after_passes v).rows) same r4)

abbrev drawn_table : Renderer → Table
drawn_table v = record {
  header = render_header v;
  body = map (render_row v.columns) v.rows;
  footer = if v.show_column_totals then some (render_footer v) else none;
}

abbrev drawn : Renderer → List Row → Renderer × Option Table
drawn v rows = elim rows [
  | [] ↦ (v, none)
  | _ ∷ _ ↦ (after_passes v, some (drawn_table (after_passes v)))
]

drawn-IsWide :
    (v : Renderer) (w : ℕ) (rows : List Row)
    → IsWide w (some (drawn_table (after_passes v)))
    → IsWide w (drawn v rows).1
drawn-IsWide v w [] h = tt
drawn-IsWide v w (r ∷ rs) h = h

render_view-drawn :
    (v : Renderer) (w : ℕ)
    → IsWide w (some (drawn_table (after_passes v)))
    → IsWide w (render_view v).1
unfolding render_view
render_view-drawn v w h = drawn-IsWide v w v.rows h

-- For every list of records, the table that is drawn from a new matrix has in its header, in each
-- row and in its footer, if it has one, a cell for the label, one for each column, and one more
-- exactly if the totals of the rows are shown.
render_view-IsWide :
    (lower : String → String) (attrs : Attrs) (type : FieldType) (rs : List Record)
    → let v = fresh_renderer lower attrs type rs in
      IsWide (suc (length (read_records rs).x_axis + one_if v.show_row_totals)) (render_view v).1
unfolding init_matrix
render_view-IsWide lower attrs type rs =
    let v = fresh_renderer lower attrs type rs in
    let m = read_records rs in
    let (len, row_, shows) =
      passes_wide v (make_rows-RowsShow m m.y_axis)
        (aggregates-shows_totals lower attrs.show_row_totals type) in
    subst (λ k. IsWide k (render_view v).1)
      (ap₂ (λ n b. suc (n + one_if b)) (len ∙ length-map m.x_axis make_column) row_)
      (render_view-drawn v _ (table_wide (after_passes v) shows))
