-- ===== src/TimelineCanvas.antt =====
-- addons_OCA/web/web_timeline/static/src/js/timeline_canvas.js: the line from one item to another.
-- Lengths are counted in half pixels, so that half the height of an item is a whole number.
pub mod Polyline
mod Examples
use playground_azure_user_sy.Prelude.{ℕ, Bool, true, false, not, List, [], ◌∷◌, ◌++◌, if◌then◌else◌}
use playground_azure_user_sy.Prelude.Int.{ℤ, pos, negsuc, ◌+ℤ◌, ◌-ℤ◌, ltb_ℤ, eqb_ℤ, abs}

-- A rectangle by its corner, its width and half its height, and a point.
pub record Rect : Type 0 where
  pub x : ℤ
  pub y : ℤ
  pub w : ℤ
  pub half_h : ℤ

pub record Point : Type 0 where
  pub px : ℤ
  pub py : ℤ

abbrev pub point : ℤ → ℤ → Point
point x y = record { px = x; py = y }

-- `rectFrom.x < rectTo.x + rectTo.w`
abbrev pub is_forward : Rect → Rect → Bool
is_forward from to = ltb_ℤ from.x (to.x +ℤ to.w)

-- The ends of the line.
unfoldable pub from_x : Rect → Rect → ℤ → ℤ
unfolding ◌+ℤ◌ ◌-ℤ◌
from_x from to width_marker =
    if is_forward from to then (from.x +ℤ from.w) +ℤ width_marker else from.x -ℤ width_marker

unfoldable pub to_x : Rect → Rect → ℤ
unfolding ◌+ℤ◌
to_x from to = if is_forward from to then to.x else to.x +ℤ to.w

abbrev pub middle_y : Rect → ℤ
middle_y r = r.y +ℤ r.half_h

-- `deltaBreak`
unfoldable pub delta_break : ℤ → ℤ → ℤ → ℤ
unfolding ◌+ℤ◌ ◌-ℤ◌
delta_break fx tx break_at =
    if ltb_ℤ fx tx
    then (fx +ℤ break_at) -ℤ (tx -ℤ break_at)
    else (fx -ℤ break_at) -ℤ (tx +ℤ break_at)

-- `_addPoints(space, ePoint, mode)`
unfoldable pub add_points : ℤ → ℤ → ℤ → ℤ → ℤ → ℤ → ℤ → Bool → List Point
unfolding ◌+ℤ◌ ◌-ℤ◌
add_points fx fy tx ty break_at space e_point mode =
    if mode
    then (point (fx +ℤ break_at) fy
        ∷ point (fx +ℤ break_at) (e_point +ℤ space)
        ∷ point (tx -ℤ break_at) (ty +ℤ space)
        ∷ point (tx -ℤ break_at) ty
        ∷ [])
    else (point (fx -ℤ break_at) fy
        ∷ point (fx -ℤ break_at) (e_point +ℤ space)
        ∷ point (tx +ℤ break_at) (ty +ℤ space)
        ∷ point (tx +ℤ break_at) ty
        ∷ [])

-- `toHalfHeight + 2`, in half pixels.
abbrev pub space_y : Rect → ℤ
space_y to = to.half_h +ℤ pos 4

-- The points between the two ends.
unfoldable pub inner_points : Rect → Rect → ℤ → ℤ → List Point
unfolding from_x to_x add_points delta_break abs ◌+ℤ◌ ◌-ℤ◌
inner_points from to width_marker break_at =
    let fx = from_x from to width_marker in
    let tx = to_x from to in
    let fy = middle_y from in
    let ty = middle_y to in
    let threshold = break_at +ℤ width_marker in
    let y_diff = fy -ℤ ty in
    if not (eqb_ℤ fy ty)
    then (if ltb_ℤ (abs (fx -ℤ tx)) threshold
        then point (fx +ℤ break_at) (ty +ℤ y_diff) ∷ point (fx +ℤ break_at) ty ∷ []
        else add_points fx fy tx ty break_at
            (if ltb_ℤ (pos 0) y_diff then space_y to else pos 0 -ℤ space_y to) ty
            (is_forward from to))
    else (if ltb_ℤ (abs (delta_break fx tx break_at)) threshold
        then []
        else add_points fx fy tx ty break_at (space_y to) fy (ltb_ℤ fx tx))

unfoldable pub get_polyline_points : Rect → Rect → ℤ → ℤ → List Point
unfolding inner_points from_x to_x
get_polyline_points from to width_marker break_at =
    point (from_x from to width_marker) (middle_y from)
    ∷ (inner_points from to width_marker break_at ++ point (to_x from to) (middle_y to) ∷ [])

-- `draw_line`: the rectangle of an element, from the offsets of the element and of the timeline,
-- and the numbers of the attribute `points`.
abbrev rect_of : Point → Point → ℤ → ℤ → Rect
rect_of child parent width half_height = record {
  x = child.px -ℤ parent.px;
  y = child.py -ℤ parent.py;
  w = width;
  half_h = half_height;
}

unfoldable pub flatten : List Point → List ℤ
flatten [] = []
flatten (p ∷ ps) = p.px ∷ p.py ∷ flatten ps

-- `draw_arrow`: a marker 10 pixels wide, and 12 pixels to the turns.
unfoldable draw_arrow : Rect → Rect → List ℤ
unfolding flatten get_polyline_points
draw_arrow from to = flatten (get_polyline_points from to (pos 20) (pos 24))
