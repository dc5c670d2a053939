-- ===== src/Matrix/Navigation.antt =====
-- 2d_matrix_renderer.js, `_onNavigationMove`: the keyboard moves the focus among the field widgets.
use playground_azure_user_sy.Prelude.{
  ℕ, ◌+◌, ◌-◌, ◌<◌, ◌≡◌, Option, none, some, ◌==◌, ℕ_eq, if◌then◌else◌, arith,
}

data Direction : Type 0 where
  next previous other : Direction

-- What the handler does, where the target of the event is the widget `index` of `count`, or none of
-- them: it leaves the event to others, focuses a widget and stops the event, or throws, reading a
-- widget before the first.
data Move : Type 0 where
  stay : Move
  focus : ℕ → Move
  throws : Move

unfoldable on_navigation_move : ℕ → Option ℕ → Direction → Move
on_navigation_move count (some i) next = if i + 1 == count then stay else focus (i + 1)
on_navigation_move count (some i) previous = if i == 0 then stay else focus (i - 1)
on_navigation_move count none next = if count == 0 then stay else focus 0
on_navigation_move count none previous = throws
on_navigation_move count (some i) other = stay
on_navigation_move count none other = stay

abbrev focused : Move → ℕ → ℕ
focused (focus j) i = j
focused stay i = i
focused throws i = i

-- For every widget of the table, the keyboard never leaves the widgets; "next" moves by one, except
-- at the last widget, and "previous" takes every such move back.
on_navigation_move-back :
    (count i : ℕ) (d : Direction)
    → i < count
    → (focused (on_navigation_move count (some i) d) i < count)
      × (i + 1 < count → on_navigation_move count (some i) next ≡ focus (i + 1))
      × (i + 1 < count → on_navigation_move count (some (i + 1)) previous ≡ focus i)
      × (on_navigation_move count (some (count - 1)) next ≡ stay)
      × (on_navigation_move count (some 0) previous ≡ stay)
unfolding on_navigation_move
on_navigation_move-back count i next h = ground arith
on_navigation_move-back count i previous h = ground arith
on_navigation_move-back count i other h = ground arith
