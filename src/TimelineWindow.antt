-- ===== src/TimelineWindow.antt =====
-- addons_OCA/web/web_timeline/static/src/js/timeline_renderer.js: the window of time that the
-- timeline shows, its buttons and its first mode.
pub mod Scale
mod Examples
use playground_azure_user_sy.Prelude.{
  ℕ, zero, suc, ◌*◌, String, Bool, true, false, ◌||◌, Option, none, some, List, [], ◌∷◌, ◌++◌,
  if◌then◌else◌, ◌==◌, String_eq,
}

pub record TimeWindow (Moment : Type 0) : Type 0 where
  pub start : Moment
  pub end : Moment

-- What the source takes from moment.js.
pub record Calendar (Moment : Type 0) : Type 0 where
  pub add_hours : Moment → ℕ → Moment
  pub days_in_month : Moment → ℕ
  pub is_leap_year : Moment → Bool
  pub start_of : String → Moment → Moment
  pub end_moment_of : String → Moment → Moment

module _ (Moment : Type 0) (c : Calendar Moment) where
  -- The renderer: its mode, the start and end in its options, the window that its timeline shows, if
  -- there is a timeline, `current_window`, and the windows that the timeline was asked to show.
  pub record WindowState : Type 0 where
    pub mode : Option String
    pub options : Option (TimeWindow Moment)
    pub timeline : Option (TimeWindow Moment)
    pub current_window : TimeWindow Moment
    pub asked : List (TimeWindow Moment)

  abbrev one_day : Moment → TimeWindow Moment
  one_day now = record { start = now; end = c.add_hours now 24 }

  -- `init` and `start`.
  abbrev pub started_window : Option String → Moment → WindowState
  started_window mode now = record {
    mode = mode;
    options = none;
    timeline = none;
    current_window = one_day now;
    asked = [];
  }

  -- `setWindow` of a timeline, which moves there in an animation.
  abbrev pub set_window : WindowState → TimeWindow Moment → WindowState
  set_window s w = record s { current_window = w; asked = s.asked ++ w ∷ [] }

  unfoldable pub on_today_clicked : WindowState → Moment → WindowState
  on_today_clicked s now = elim s.timeline [
    | none ↦ record s { current_window = one_day now }
    | some shown ↦ set_window s (one_day now)
  ]

  -- `_scaleCurrentWindow`
  unfoldable pub scale_current_window : WindowState → ℕ → WindowState
  scale_current_window s factor = elim s.timeline [
    | none ↦ s
    | some shown ↦
        set_window s (record { start = shown.start; end = c.add_hours shown.start factor })
  ]

  unfoldable pub on_scale_month_clicked : WindowState → WindowState
  unfolding scale_current_window
  on_scale_month_clicked s = scale_current_window s (24 * c.days_in_month s.current_window.start)

  unfoldable pub on_scale_year_clicked : WindowState → WindowState
  unfolding scale_current_window
  on_scale_year_clicked s =
      scale_current_window s (24 * (if c.is_leap_year s.current_window.start then 366 else 365))

  -- The window of a mode, if it is one of the three.
  abbrev mode_window : String → Moment → Option (TimeWindow Moment)
  mode_window mode now =
      if mode == "day" || mode == "week" || mode == "month"
      then some (record { start = c.start_of mode now; end = c.end_moment_of mode now })
      else none

  abbrev choose_mode : WindowState → Option (TimeWindow Moment) → WindowState
  choose_mode s none = record s { mode = some "fit" }
  choose_mode s (some w) = record s { options = some w }

  -- `_computeMode`
  unfoldable pub compute_mode : WindowState → Moment → WindowState
  compute_mode s now = elim s.mode [
    | none ↦ s
    | some mode ↦ if mode == "" then s else choose_mode s (mode_window mode now)
  ]

  -- `_render`: the first one makes the timeline, which shows some window.
  unfoldable pub render_timeline : WindowState → Moment → TimeWindow Moment → WindowState
  unfolding compute_mode
  render_timeline s now shown = elim s.timeline [
    | none ↦ record (compute_mode s now) { timeline = some shown }
    | some w ↦ s
  ]

  -- The user, an animation or a fit of the timeline moves the window that it shows.
  abbrev move_window : WindowState → TimeWindow Moment → WindowState
  move_window s w = elim s.timeline [ none ↦ s | some shown ↦ record s { timeline = some w } ]

  pub data WindowEvent : Type 0 where
    today_clicked : Moment → WindowEvent
    scale_day_clicked : WindowEvent
    scale_week_clicked : WindowEvent
    scale_month_clicked : WindowEvent
    scale_year_clicked : WindowEvent
    timeline_rendered : Moment → TimeWindow Moment → WindowEvent
    window_moved : TimeWindow Moment → WindowEvent

  unfoldable pub window_event : WindowState → WindowEvent → WindowState
  unfolding on_today_clicked scale_current_window on_scale_month_clicked on_scale_year_clicked
      render_timeline
  window_event s (today_clicked now) = on_today_clicked s now
  window_event s scale_day_clicked = scale_current_window s 24
  window_event s scale_week_clicked = scale_current_window s (24 * 7)
  window_event s scale_month_clicked = on_scale_month_clicked s
  window_event s scale_year_clicked = on_scale_year_clicked s
  window_event s (timeline_rendered now shown) = render_timeline s now shown
  window_event s (window_moved w) = move_window s w

  unfoldable pub window_run : WindowState → List WindowEvent → WindowState
  unfolding window_event
  window_run s [] = s
  window_run s (e ∷ es) = window_run (window_event s e) es
