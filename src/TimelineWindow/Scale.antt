-- ===== src/TimelineWindow/Scale.antt =====
-- The windows that the buttons ask for, after any events.
use playground_azure_user_sy.Prelude.{
  ℕ, ◌*◌, some, List, [], ◌∷◌, ◌++◌, if◌then◌else◌, String_eq, ◌≡◌, refl, sym, ap, subst,
}
use playground_azure_user_sy.TimelineWindow.{
  TimeWindow, Calendar, WindowState, set_window, on_today_clicked, scale_current_window,
  on_scale_month_clicked, on_scale_year_clicked, render_timeline, WindowEvent, today_clicked,
  scale_day_clicked, scale_week_clicked, scale_month_clicked, scale_year_clicked, timeline_rendered,
  window_moved, window_event, window_run,
}

module _ (Moment : Type 0) (c : Calendar Moment) where
  -- The last window that was asked for, or the one at the start.
  abbrev last_asked : TimeWindow Moment → List (TimeWindow Moment) → TimeWindow Moment
  last_asked w [] = w
  last_asked w (v ∷ vs) = last_asked v vs

  last_asked-append :
      (w v : TimeWindow Moment) (vs : List (TimeWindow Moment)) → last_asked w (vs ++ v ∷ []) ≡ v
  last_asked-append w v [] = refl
  last_asked-append w v (u ∷ us) = last_asked-append u v us

  -- With a timeline, `current_window` is the last window that was asked for.
  record IsAsked (first : TimeWindow Moment) (s : WindowState Moment c) : Type 0 where
    pub shown : TimeWindow Moment
    has_timeline : s.timeline ≡ some shown
    last_current : s.current_window ≡ last_asked first s.asked

  set_window-IsAsked :
      (first : TimeWindow Moment) (s : WindowState Moment c) (shown w : TimeWindow Moment)
      → IsAsked first (set_window Moment c (record s { timeline = some shown }) w)
  set_window-IsAsked first s shown w = record {
    shown = shown;
    has_timeline = refl;
    last_current = sym (last_asked-append first w s.asked);
  }

  window_event-IsAsked :
      (first : TimeWindow Moment) (s : WindowState Moment c) (e : WindowEvent Moment c)
      → IsAsked first s
      → IsAsked first (window_event Moment c s e)
  unfolding window_event on_today_clicked scale_current_window on_scale_month_clicked
      on_scale_year_clicked render_timeline
  window_event-IsAsked first s (today_clicked now) h =
      rw (h.has_timeline) (set_window-IsAsked first s h.shown _)
  window_event-IsAsked first s scale_day_clicked h =
      rw (h.has_timeline) (set_window-IsAsked first s h.shown _)
  window_event-IsAsked first s scale_week_clicked h =
      rw (h.has_timeline) (set_window-IsAsked first s h.shown _)
  window_event-IsAsked first s scale_month_clicked h =
      rw (h.has_timeline) (set_window-IsAsked first s h.shown _)
  window_event-IsAsked first s scale_year_clicked h =
      rw (h.has_timeline) (set_window-IsAsked first s h.shown _)
  window_event-IsAsked first s (timeline_rendered now shown) h =
      rw (h.has_timeline)
        (record { shown = h.shown; has_timeline = refl; last_current = h.last_current })
  window_event-IsAsked first s (window_moved w) h =
      rw (h.has_timeline) (record { shown = w; has_timeline = refl; last_current = h.last_current })

  window_run-IsAsked :
      (first : TimeWindow Moment) (s : WindowState Moment c) (es : List (WindowEvent Moment c))
      → IsAsked first s
      → IsAsked first (window_run Moment c s es)
  unfolding window_run
  window_run-IsAsked first s [] h = h
  window_run-IsAsked first s (e ∷ es) h =
      window_run-IsAsked first (window_event Moment c s e) es (window_event-IsAsked first s e h)

  -- The window that a button of so many hours asks for.
  abbrev scaled : TimeWindow Moment → ℕ → TimeWindow Moment
  scaled shown hours = record { start = shown.start; end = c.add_hours shown.start hours }

  abbrev year_hours : Moment → ℕ
  year_hours day = 24 * (if c.is_leap_year day then 366 else 365)

  -- A renderer that has its timeline and has asked for no window: after any events, the button of
  -- the month asks for a window from the start of the one shown, which lasts as long as the month in
  -- which the last window that was asked for begins (the window at first, if there is none), wherever
  -- the user has moved since; and so does the button of the year, with the length of that year.
  pub window_run-scale :
      (s t : WindowState Moment c) (first shown : TimeWindow Moment)
      (es : List (WindowEvent Moment c))
      → s.timeline ≡ some first
      → s.asked ≡ []
      → window_run Moment c s es ≡ t
      → t.timeline ≡ some shown
      → ((on_scale_month_clicked Moment c t).asked
          ≡ t.asked
            ++ scaled shown (24 * c.days_in_month (last_asked s.current_window t.asked).start) ∷ [])
        × ((on_scale_year_clicked Moment c t).asked
            ≡ t.asked ++ scaled shown (year_hours (last_asked s.current_window t.asked).start) ∷ [])
  unfolding scale_current_window on_scale_month_clicked on_scale_year_clicked
  window_run-scale s t first shown es has empty run moved =
      let h : IsAsked s.current_window t = subst (IsAsked s.current_window) run (
        window_run-IsAsked s.current_window s es (record {
          shown = first;
          has_timeline = has;
          last_current = ap (last_asked s.current_window) (sym empty);
        })) in
      (rw (moved, h.last_current) refl, rw (moved, h.last_current) refl)
