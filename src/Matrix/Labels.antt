-- ===== src/Matrix/Labels.antt =====
-- Which label the row of a table shows.
use playground_azure_user_sy.Prelude.{
  String, true, ◌≡◌, ◌≢◌, sym, ap, ◌∙◌, none, some, List, [], ◌∷◌, map, contains, ◌==◌, ==_iff,
  ==_self, String_eq, arith, Bool-cases, inl, inr, Option-cases,
}
use playground_azure_user_sy.Matrix.{Record, x_label, y_label, Cell}
use playground_azure_user_sy.Matrix.Widget.{read_records, cell_at, make_row}
use playground_azure_user_sy.Matrix.Renderer.{text, label_cell}
use playground_azure_user_sy.Matrix.Axes.{
  last_at, has_label, cell_at-read_records, read_records-axes,
}

last_at-label :
    (y x : String) (rs : List Record) {r : Record} → last_at y x rs ≡ some r → y_label r ≡ y
last_at-label y x [] h = cc
last_at-label y x (s ∷ rs) {r} h =
    ground (arith, last_at-label y x rs {r = r}, ==_iff (y_label s) y)

last_at-tail :
    (y x : String) (s : Record) (rs : List Record)
    → last_at y x (s ∷ rs) ≡ none
    → last_at y x rs ≡ none
last_at-tail y x s rs h = ground arith

-- A row is not empty where some record has its label.
last_at-some :
    (y : String) (rs : List Record)
    → has_label y_label rs y ≡ true
    → (x : String) × (has_label x_label rs x ≡ true) × (last_at y x rs ≢ none)
last_at-some y [] h = cc
last_at-some y (s ∷ rs) h = elim (Bool-cases (y_label s == y)) [
  | inl here ↦
      (x_label s, ground (arith, ==_self (x_label s)), λ e. ground (arith, ==_self (x_label s)))
  | inr other ↦
      let (x, on_axis, found) = last_at-some y rs (ground arith) in
      (x, ground arith, λ e. found (last_at-tail y x s rs e))
]

label_cell-text :
    (y x : String) (f : String → Cell) (axis : List String)
    → ((a : String) (r : Record) → f a ≡ some r → y_label r ≡ y)
    → contains axis x ≡ true
    → f x ≢ none
    → label_cell (map f axis) ≡ text y
unfolding label_cell
label_cell-text y x f [] all h found = cc
label_cell-text y x f (a ∷ axis) all h found = elim (Option-cases (f a)) [
  | inl e ↦ rw e (
      label_cell-text y x f axis all
        (elim (Bool-cases (a == x)) [
          | inl q ↦ absurd (found (ap f (sym ((==_iff a x).0 q)) ∙ e))
          | inr q ↦ ground arith
        ])
        found)
  | inr (r, e) ↦ rw e (ap text (all a r e))
]

-- For every list of records, the row of a label that some record has on the other axis shows that
-- label, though it is read from the first record in the row.
make_row-label :
    (rs : List Record) (y : String)
    → has_label y_label rs y ≡ true
    → label_cell (make_row (read_records rs) y).cells ≡ text y
unfolding make_row
make_row-label rs y h =
    let (x, on_axis, found) = last_at-some y rs h in
    label_cell-text y x (λ a. cell_at (read_records rs) y a) (read_records rs).x_axis
      (λ a r e. last_at-label y a rs (sym (cell_at-read_records rs y a) ∙ e))
      ((read_records-axes rs).0 x ∙ on_axis) (λ e. found (sym (cell_at-read_records rs y x) ∙ e))
