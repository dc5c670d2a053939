-- ===== src/Matrix/Axes.antt =====
-- The axes and the cells of the matrix that `init_matrix` reads from the records.
use playground_azure_user_sy.Prelude.{
  String, Bool, false, ◌&&◌, ◌||◌, ◌≡◌, refl, ap, ◌∙◌, none, some, List, [], ◌∷◌, ◌++◌, contains,
  contains-append, ◌==◌, ==_iff, String_eq, if◌then◌else◌, arith, Bool-cases, inl, inr,
}
use mathlib.Core.List.{foldl}
use playground_azure_user_sy.Prelude.Maps.{get, put, get-put}
use playground_azure_user_sy.Matrix.{Record, x_label, y_label, Cell}
use playground_azure_user_sy.Matrix.Widget.{
  Matrix, empty_matrix, row_of, push_new, add_record, read_records, cell_at,
}

contains-push_new :
    (axis : List String) (a b : String) → contains (push_new axis a) b ≡ (contains axis b || a == b)
unfolding push_new
contains-push_new axis a b = ground (arith, ==_iff a b, contains-append axis (a ∷ []) b)

-- No text stands twice in a list.
abbrev IsDistinct : List String → Type 0
IsDistinct [] = Unit {0}
IsDistinct (x ∷ xs) = (contains xs x ≡ false) × IsDistinct xs

IsDistinct-append :
    (xs : List String) (a : String)
    → IsDistinct xs
    → contains xs a ≡ false
    → IsDistinct (xs ++ a ∷ [])
IsDistinct-append [] a d n = (refl, tt)
IsDistinct-append (x ∷ xs) a d n = (
  ground (arith, contains-append xs (a ∷ []) x, ==_iff a x, ==_iff x a),
  IsDistinct-append xs a d.1 (ground arith),
)

push_new-IsDistinct :
    (axis : List String) (a : String) → IsDistinct axis → IsDistinct (push_new axis a)
unfolding push_new
push_new-IsDistinct axis a d = elim (Bool-cases (contains axis a)) [
  | inl h ↦ rw h d
  | inr h ↦ rw h (IsDistinct-append axis a d h)
]

cell_at-add_record :
    (m : Matrix) (r : Record) (y x : String)
    → cell_at (add_record m r) y x
      ≡ (if y_label r == y && x_label r == x then some r else cell_at m y x)
unfolding cell_at add_record
cell_at-add_record m r y x = ground (
  arith,
  ==_iff (y_label r) y,
  get-put (y_label r) y (put (x_label r) r (row_of m.by_y_axis (y_label r))) m.by_y_axis,
  get-put (x_label r) x r (row_of m.by_y_axis (y_label r)),
)

-- The last record with the two labels, and whether there is a record with one of them.
abbrev pub last_at : String → String → List Record → Cell
last_at y x [] = none
last_at y x (r ∷ rs) = elim (last_at y x rs) [
  | some s ↦ some s
  | none ↦ if y_label r == y && x_label r == x then some r else none
]

abbrev pub has_label : (Record → String) → List Record → String → Bool
has_label label [] a = false
has_label label (r ∷ rs) a = label r == a || has_label label rs a

abbrev or_else : Cell → Cell → Cell
or_else none d = d
or_else (some r) d = some r

or_else-none : (c : Cell) → or_else c none ≡ c
or_else-none none = refl
or_else-none (some r) = refl

cell_at-empty : (y x : String) → cell_at empty_matrix y x ≡ none
unfolding cell_at get
cell_at-empty y x = refl

-- The loop over the records, from any matrix.
cell_at-foldl :
    (rs : List Record) (m : Matrix) (y x : String)
    → cell_at (foldl add_record m rs) y x ≡ or_else (last_at y x rs) (cell_at m y x)
cell_at-foldl [] m y x = refl
cell_at-foldl (r ∷ rs) m y x =
    ground (arith, cell_at-foldl rs (add_record m r) y x, cell_at-add_record m r y x)

axes-foldl :
    (rs : List Record) (m : Matrix) (a : String)
    → let m' = foldl add_record m rs in
      (contains m'.x_axis a ≡ (contains m.x_axis a || has_label x_label rs a))
      × (contains m'.y_axis a ≡ (contains m.y_axis a || has_label y_label rs a))
unfolding add_record
axes-foldl [] m a = ground arith
axes-foldl (r ∷ rs) m a =
    let (p, q) = axes-foldl rs (add_record m r) a in
    ground
      (arith, contains-push_new m.x_axis (x_label r) a, contains-push_new m.y_axis (y_label r) a)

axes-IsDistinct :
    (rs : List Record) (m : Matrix)
    → IsDistinct m.x_axis
    → IsDistinct m.y_axis
    → let m' = foldl add_record m rs in IsDistinct m'.x_axis × IsDistinct m'.y_axis
unfolding add_record
axes-IsDistinct [] m dx dy = (dx, dy)
axes-IsDistinct (r ∷ rs) m dx dy =
    axes-IsDistinct rs (add_record m r) (push_new-IsDistinct m.x_axis (x_label r) dx)
      (push_new-IsDistinct m.y_axis (y_label r) dy)

-- For every list of records, the cell of two labels holds the last record with both labels, if
-- there is one, and is undefined otherwise.
pub cell_at-read_records :
    (rs : List Record) (y x : String) → cell_at (read_records rs) y x ≡ last_at y x rs
unfolding read_records
cell_at-read_records rs y x =
    cell_at-foldl rs empty_matrix y x
    ∙ (ap (or_else (last_at y x rs)) (cell_at-empty y x) ∙ or_else-none (last_at y x rs))

-- For every list of records, each axis has exactly the labels that some record has on it, and none
-- of them twice.
pub read_records-axes :
    (rs : List Record)
    → let m = read_records rs in
      ((a : String) → contains m.x_axis a ≡ has_label x_label rs a)
      × ((a : String) → contains m.y_axis a ≡ has_label y_label rs a)
      × IsDistinct m.x_axis
      × IsDistinct m.y_axis
unfolding read_records
read_records-axes rs =
    let (dx, dy) = axes-IsDistinct rs empty_matrix tt tt in
    (λ a. (axes-foldl rs empty_matrix a).0, λ a. (axes-foldl rs empty_matrix a).1, dx, dy)
