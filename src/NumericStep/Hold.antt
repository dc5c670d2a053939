-- ===== src/NumericStep/Hold.antt =====
-- Holding a button: the timer, its delay, and the click that ends the hold.
use playground_azure_user_sy.Prelude.{
  ◌-◌, ◌%◌, ◌≤◌, true, ◌≡◌, ap, ◌∙◌, none, some, List, [], ◌∷◌, arith, if◌then◌else◌, ltb,
}
use playground_azure_user_sy.NumericStep.{
  Widget, Mode, plus, minus, Numerals, put_value, do_step, Event, mouse_down, timer, mouse_up,
  focus_out, throttle_end, step_click, wheel, key_down, up, down, other, change, handle, run,
  on_step_mouse_down, while_mouse_down, on_step_click, clear_step_interval, on_wheel, on_key_down,
  on_change, min_delay, def_click_delay,
}

-- The delay is one of 400, 375, …, 50 ms, and it is the first while no timer is pending.
record IsTimed {Num : Type 0} (w : Widget Num) : Type 0 where
  delay_low : min_delay ≤ w.click_delay
  delay_high : w.click_delay ≤ def_click_delay
  delay_steps : w.click_delay % 25 ≡ 0
  at_rest : w.auto_step_interval ≡ none → w.click_delay ≡ def_click_delay

-- A step touches neither the timer nor the delay.
abbrev SameTimer : {Num : Type 0} → Widget Num → Widget Num → Type 0
SameTimer w w' =
    (w'.click_delay ≡ w.click_delay)
    × (w'.auto_step_interval ≡ w.auto_step_interval)
    × (w'.auto_step ≡ w.auto_step)

module _ {Num : Type 0} (n : Numerals Num) where
  do_step-SameTimer : (w : Widget Num) (mode : Mode) → SameTimer w (do_step n w mode)
  unfolding do_step put_value
  do_step-SameTimer w mode = ground arith

  while_mouse_down-IsTimed :
      (w : Widget Num) (mode : Mode) → IsTimed w → IsTimed (while_mouse_down n w mode)
  unfolding while_mouse_down on_step_mouse_down
  while_mouse_down-IsTimed w mode t =
      ground (arith, do_step-SameTimer (record w { auto_step = true }) mode)

  handle-IsTimed : (w : Widget Num) (e : Event) → IsTimed w → IsTimed (handle n w e)
  unfolding handle on_step_click on_wheel on_key_down on_change
  handle-IsTimed w (mouse_down button mode) t = ground arith
  handle-IsTimed w timer t =
      elim w.auto_step_interval
        as (λ o.
          IsTimed
            (elim o as (λ _. Widget Num) [ none ↦ w | some mode ↦ while_mouse_down n w mode ])) [
              | none ↦ t
              | some mode ↦ while_mouse_down-IsTimed w mode t
            ]
  handle-IsTimed w mouse_up t = ground arith
  handle-IsTimed w focus_out t = ground arith
  handle-IsTimed w throttle_end t = ground arith
  handle-IsTimed w (step_click mode) t = ground (arith, do_step-SameTimer w mode)
  handle-IsTimed w (wheel delta) t =
      ground (arith, do_step-SameTimer w minus, do_step-SameTimer w plus)
  handle-IsTimed w (key_down up) t = ground (arith, do_step-SameTimer w plus)
  handle-IsTimed w (key_down down) t = ground (arith, do_step-SameTimer w minus)
  handle-IsTimed w (key_down other) t = t
  handle-IsTimed w (change text) t = ground arith

  -- For every sequence of events the delay of the timer stays between 50 and 400 ms, in steps of
  -- 25 ms, and it is 400 ms whenever no timer is pending, if that holds at the start.
  run-IsTimed : (es : List Event) (w : Widget Num) → IsTimed w → IsTimed (run n w es)
  run-IsTimed [] w t = t
  run-IsTimed (e ∷ es) w t = run-IsTimed es (handle n w e) (handle-IsTimed w e t)

  while-SameTimer :
      (w : Widget Num) (mode : Mode)
      → ((while_mouse_down n w mode).auto_step ≡ true)
        × ((while_mouse_down n w mode).auto_step_interval ≡ some mode)
        × ((while_mouse_down n w mode).click_delay
            ≡ (if ltb min_delay w.click_delay then w.click_delay - 25 else w.click_delay))
  unfolding while_mouse_down on_step_mouse_down
  while-SameTimer w mode = ground (arith, do_step-SameTimer (record w { auto_step = true }) mode)

  timer-while :
      (w : Widget Num) {held : Mode}
      → w.auto_step_interval ≡ some held
      → handle n w timer ≡ while_mouse_down n w held
  unfolding handle
  timer-while w h = ground arith

  timer-auto_step :
      (w : Widget Num) {held : Mode}
      → w.auto_step_interval ≡ some held
      → (handle n w timer).auto_step ≡ true
  timer-auto_step w {held} h =
      ap (λ (t : Widget Num). t.auto_step) (timer-while w h) ∙ (while-SameTimer w held).0

  -- After a hold in which the timer went off at least once, releasing the button and the click
  -- that the browser then reports do not step again, and the next click does.
  release-click :
      (w : Widget Num) (held mode : Mode)
      → w.auto_step_interval ≡ some held
      → let w' = handle n w timer in
        let w'' = run n w' (mouse_up ∷ step_click mode ∷ []) in
        (w''.input ≡ w'.input)
        × (w''.change_pending ≡ w'.change_pending)
        × (w''.auto_step_interval ≡ none)
        × (w''.click_delay ≡ def_click_delay)
        × ((handle n w'' (step_click mode)).input ≡ (do_step n w'' mode).input)
  unfolding handle on_step_click clear_step_interval
  release-click w held mode h =
      let done : (handle n w timer).auto_step ≡ true = timer-auto_step w h in ground arith
