-- ===== src/TimelineWindow/Examples.antt =====
-- The theorem about the buttons, with days of 2023 as moments, of a year that starts on day 0.
use playground_azure_user_sy.Prelude.{
  ℕ, ◌+◌, ◌/◌, ltb, false, none, some, [], ◌∷◌, ◌==◌, String_eq, if◌then◌else◌, ◌≡◌, refl,
}
use playground_azure_user_sy.TimelineWindow.{
  TimeWindow, Calendar, WindowState, started_window, on_scale_month_clicked, on_scale_year_clicked,
  compute_mode, render_timeline, timeline_rendered, window_moved, window_event, window_run,
}
use playground_azure_user_sy.TimelineWindow.Scale.{window_run-scale}

-- January has 31 days, all other months of this calendar 28.
abbrev calendar : Calendar ℕ
calendar = record {
  add_hours = λ day hours. day + hours / 24;
  days_in_month = λ day. if ltb day 31 then 31 else 28;
  is_leap_year = λ day. false;
  start_of = λ scale day. day;
  end_moment_of = λ scale day. day + (if scale == "day" then 1 else 7);
}

abbrev january : TimeWindow ℕ
january = record { start = 0; end = 31 }

abbrev february : TimeWindow ℕ
february = record { start = 31; end = 59 }

abbrev in_january : WindowState ℕ calendar
in_january = record {
  mode = some "fit";
  options = none;
  timeline = some january;
  current_window = january;
  asked = [];
}

abbrev in_february : WindowState ℕ calendar
in_february = record in_january { timeline = some february }

-- A month from the first of February, after a move from January, lasts 31 days.
window_run-scale_example :
    ((on_scale_month_clicked ℕ calendar in_february).asked ≡ record { start = 31; end = 62 } ∷ [])
    × ((on_scale_year_clicked ℕ calendar in_february).asked ≡ record { start = 31; end = 396 } ∷ [])
unfolding window_run window_event
window_run-scale_example =
    window_run-scale ℕ calendar in_january in_february january february (window_moved february ∷ [])
      refl refl refl refl

-- A week as the first mode, and one that the source does not know.
first_week :
    (window_run ℕ calendar
      (started_window ℕ calendar (some "week") 3)
      (timeline_rendered 3 january ∷ [])).options
    ≡ some (record { start = 3; end = 10 })
unfolding window_run window_event render_timeline compute_mode
first_week = refl

unknown_mode :
    (window_run ℕ calendar
      (started_window ℕ calendar (some "year") 3)
      (timeline_rendered 3 january ∷ [])).mode
    ≡ some "fit"
unfolding window_run window_event render_timeline compute_mode
unknown_mode = refl
