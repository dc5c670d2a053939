-- ===== src/TimelineCanvas/Examples.antt =====
-- An item above another that begins after it.
use playground_azure_user_sy.Prelude.{◌⊎◌}
use playground_azure_user_sy.Prelude.Int.{pos, negsuc, ◌+ℤ◌, ◌-ℤ◌, ◌≤ℤ◌}
use playground_azure_user_sy.TimelineCanvas.{Rect, point, get_polyline_points}
use playground_azure_user_sy.TimelineCanvas.Polyline.{IsLine, get_polyline_points-IsLine}

abbrev first_item : Rect
first_item = record { x = pos 0; y = pos 0; w = pos 100; half_h = pos 20 }

abbrev second_item : Rect
second_item = record { x = pos 300; y = pos 80; w = pos 100; half_h = pos 20 }

get_polyline_points-IsLine_example :
    ((pos 1 ≤ℤ pos 400)
      × IsLine
          (get_polyline_points first_item second_item (pos 20) (pos 24))
          (point (pos 120) (pos 20))
          (point (pos 300) (pos 100)))
    ⊎ ((pos 400 ≤ℤ pos 0)
        × IsLine
            (get_polyline_points first_item second_item (pos 20) (pos 24))
            (point (negsuc 19) (pos 20))
            (point (pos 400) (pos 100)))
unfolding ◌+ℤ◌ ◌-ℤ◌
get_polyline_points-IsLine_example =
    get_polyline_points-IsLine first_item second_item (pos 20) (pos 24)
