-- ===== src/TimelineCanvas/Polyline.antt =====
-- The shape of the line from one item to another.
use playground_azure_user_sy.Prelude.{
  Bool, true, false, ◌≡◌, refl, sym, ap, subst, arith, ◌⊎◌, inl, inr, List, [], ◌∷◌, ◌++◌,
  if◌then◌else◌, Bool-cases,
}
use playground_azure_user_sy.Prelude.Int.{
  ℤ, pos, ◌+ℤ◌, ◌-ℤ◌, ltb_ℤ, ◌≤ℤ◌, eqb_ℤ, eqb→eq, abs, int_laws,
}
use playground_azure_user_sy.TimelineCanvas.{
  Rect, Point, point, is_forward, from_x, to_x, middle_y, delta_break, add_points, space_y,
  inner_points, get_polyline_points,
}

-- Two points on one vertical or one horizontal line.
abbrev IsAligned : Point → Point → Type 0
IsAligned p q = (p.px ≡ q.px) ⊎ (p.py ≡ q.py)

-- From a point through others to an end, each part of the line is vertical or horizontal.
abbrev IsOrthogonal : Point → List Point → Point → Type 0
IsOrthogonal p [] end = IsAligned p end
IsOrthogonal p (q ∷ qs) end = IsAligned p q × IsOrthogonal q qs end

-- The detour that `_addPoints` makes is orthogonal if its turn is at the height of the end.
add_points-IsOrthogonal :
    (fx fy tx ty b space e : ℤ) (mode : Bool)
    → e ≡ ty
    → IsOrthogonal (point fx fy) (add_points fx fy tx ty b space e mode) (point tx ty)
unfolding add_points
add_points-IsOrthogonal fx fy tx ty b space e true h =
    (inr refl, (inl refl, (inr (ap (λ y. y +ℤ space) h), (inl refl, inr refl))))
add_points-IsOrthogonal fx fy tx ty b space e false h =
    (inr refl, (inl refl, (inr (ap (λ y. y +ℤ space) h), (inl refl, inr refl))))

back_again : (a b : ℤ) → b +ℤ (a -ℤ b) ≡ a
back_again a b = omega int_laws

-- The inner points when the ends are at different heights, and when they are not.
if_near :
    (near : Bool) (p q r end : Point) (far : List Point)
    → IsOrthogonal p (q ∷ r ∷ []) end
    → IsOrthogonal p far end
    → IsOrthogonal p (if near then q ∷ r ∷ [] else far) end
if_near true p q r end far h k = h
if_near false p q r end far h k = k

if_straight :
    (near : Bool) (p end : Point) (far : List Point)
    → IsAligned p end
    → IsOrthogonal p far end
    → IsOrthogonal p (if near then [] else far) end
if_straight true p end far h k = h
if_straight false p end far h k = k

inner_points-IsOrthogonal :
    (from to : Rect) (width break_at : ℤ)
    → IsOrthogonal
        (point (from_x from to width) (middle_y from))
        (inner_points from to width break_at)
        (point (to_x from to) (middle_y to))
unfolding inner_points
inner_points-IsOrthogonal from to width break_at =
    let fx = from_x from to width in
    let tx = to_x from to in
    let fy = middle_y from in
    let ty = middle_y to in
    let start = point fx fy in
    let end = point tx ty in
    let turn = point (fx +ℤ break_at) (ty +ℤ (fy -ℤ ty)) in
    let down = point (fx +ℤ break_at) ty in
    let short : Bool = ltb_ℤ (abs (delta_break fx tx break_at)) (break_at +ℤ width) in
    let near : Bool = ltb_ℤ (abs (fx -ℤ tx)) (break_at +ℤ width) in
    let side : ℤ = if ltb_ℤ (pos 0) (fy -ℤ ty) then space_y to else pos 0 -ℤ space_y to in
    let ahead : Bool = ltb_ℤ fx tx in
    elim (Bool-cases (eqb_ℤ fy ty)) [
      | inl e ↦ rw e (
          if_straight short start end (add_points fx fy tx ty break_at (space_y to) fy ahead)
            (inr (eqb→eq fy ty e))
            (add_points-IsOrthogonal fx fy tx ty break_at (space_y to) fy ahead (eqb→eq fy ty e)))
      | inr e ↦ rw e (
          if_near near start turn down end
            (add_points fx fy tx ty break_at side ty (is_forward from to))
            (inr (sym (back_again fy ty)), (inl refl, inr refl))
            (add_points-IsOrthogonal fx fy tx ty break_at side ty (is_forward from to) refl))
    ]

abbrev pub IsLine : List Point → Point → Point → Type 0
IsLine ps start end =
    (inner : List Point) × (ps ≡ start ∷ (inner ++ end ∷ [])) × IsOrthogonal start inner end

all_points-IsLine :
    (from to : Rect) (width break_at : ℤ)
    → IsLine
        (get_polyline_points from to width break_at)
        (point (from_x from to width) (middle_y from))
        (point (to_x from to) (middle_y to))
unfolding get_polyline_points
all_points-IsLine from to width break_at =
    (inner_points from to width break_at, refl, inner_points-IsOrthogonal from to width break_at)

forward_ends :
    (from to : Rect) (width : ℤ)
    → is_forward from to ≡ true
    → (from_x from to width ≡ from.x +ℤ from.w +ℤ width) × (to_x from to ≡ to.x)
unfolding from_x to_x
forward_ends from to width h = rw (h) (refl, refl)

backward_ends :
    (from to : Rect) (width : ℤ)
    → is_forward from to ≡ false
    → (from_x from to width ≡ from.x -ℤ width) × (to_x from to ≡ to.x +ℤ to.w)
unfolding from_x to_x
backward_ends from to width h = rw (h) (refl, refl)

less : (a b : ℤ) → ltb_ℤ a b ≡ true → (a +ℤ pos 1) ≤ℤ b
less a b h = grind int_laws

not_less : (a b : ℤ) → ltb_ℤ a b ≡ false → b ≤ℤ a
not_less a b h = ground arith

with_ends :
    (ps : List Point) {x x' y z z' u : ℤ}
    → (x ≡ x') × (z ≡ z')
    → IsLine ps (point x y) (point z u)
    → IsLine ps (point x' y) (point z' u)
with_ends ps {x' = x'} {y = y} {z = z} {u = u} (e, f) line =
    subst (λ b. IsLine ps (point x' y) (point b u)) f
      (subst (λ a. IsLine ps (point a y) (point z u)) e line)

-- For all rectangles, marker widths and spaces between the turns: if the one item begins before the
-- other ends, the line begins a marker's width to the right of the one and ends at the left edge of
-- the other; else it begins a marker's width to the left of the one and ends at the right edge of
-- the other. Both ends are at half the height of the items, and each part of the line is vertical or
-- horizontal.
pub get_polyline_points-IsLine :
    (from to : Rect) (width break_at : ℤ)
    → (((from.x +ℤ pos 1) ≤ℤ (to.x +ℤ to.w))
        × IsLine
            (get_polyline_points from to width break_at)
            (point (from.x +ℤ from.w +ℤ width) (from.y +ℤ from.half_h))
            (point to.x (to.y +ℤ to.half_h)))
      ⊎ (((to.x +ℤ to.w) ≤ℤ from.x)
          × IsLine
              (get_polyline_points from to width break_at)
              (point (from.x -ℤ width) (from.y +ℤ from.half_h))
              (point (to.x +ℤ to.w) (to.y +ℤ to.half_h)))
get_polyline_points-IsLine from to width break_at =
    let ps = get_polyline_points from to width break_at in
    let line = all_points-IsLine from to width break_at in
    elim (Bool-cases (is_forward from to)) [
      | inl h ↦ inl (less from.x (to.x +ℤ to.w) h, with_ends ps (forward_ends from to width h) line)
      | inr h ↦
          inr (not_less from.x (to.x +ℤ to.w) h, with_ends ps (backward_ends from to width h) line)
    ]
