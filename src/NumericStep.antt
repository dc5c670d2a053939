-- ===== src/NumericStep.antt =====
-- addons_OCA/web/web_widget_numeric_step/static/src/js/numeric_step.js: a number input with buttons
-- that step its value, also while a button is held. `Num` is the type of the numbers other than NaN,
-- which is `none`.
pub mod Range
pub mod Step
pub mod Hold
mod Examples
use playground_azure_user_sy.Prelude.{
  ℕ, zero, suc, ◌+◌, ◌-◌, String, Bool, true, false, not, ◌&&◌, ◌||◌, Option, none, some, List, [],
  ◌∷◌, ltb, ◌==◌, ℕ_eq, String_eq, if◌then◌else◌,
}
use mathlib.Core.List.{foldl}
use playground_azure_user_sy.Prelude.Int.{ℤ, pos, ltb_ℤ}

-- The numbers of the language: 1, whether a number counts as false, `+`, `-` and `<`; and what the
-- field's type supplies: `field_utils.format`, `field_utils.parse` (`none` where it throws), and
-- `Number` of a text.
pub record Numerals (Num : Type 0) : Type 0 where
  pub one : Num
  pub is_falsy : Num → Bool
  pub add : Num → Num → Num
  pub sub : Num → Num → Num
  pub less : Num → Num → Bool
  pub format : Num → String
  pub parse : String → Option Num
  pub to_number : String → Option Num

-- The node's options, after `Number`.
pub record Options (Num : Type 0) : Type 0 where
  pub step : Option Num
  pub min : Option Num
  pub max : Option Num

pub record Config (Num : Type 0) : Type 0 where
  pub step : Num
  pub min : Option Num
  pub max : Option Num

-- `data-mode` of the clicked element, which may have none.
pub data Mode : Type 0 where
  plus minus missing : Mode

abbrev pub def_click_delay : ℕ
def_click_delay = 400

abbrev pub min_delay : ℕ
min_delay = 50

abbrev substract_delay_step : ℕ
substract_delay_step = 25

-- The widget. `auto_step_interval` is the pending timer, with the mode of the pressed button;
-- `change_pending` says that the throttled `change` event is due.
pub record Widget (Num : Type 0) : Type 0 where
  pub config : Config Num
  pub input : String
  pub value : Num
  pub last_set_value : Option String
  pub auto_step_interval : Option Mode
  pub click_delay : ℕ
  pub auto_step : Bool
  pub change_pending : Bool

abbrev same_text : Option String → String → Bool
same_text none t = false
same_text (some u) t = u == t

abbrev is_missing : Mode → Bool
is_missing missing = true
is_missing _ = false

pub data Key : Type 0 where
  up down other : Key

-- What happens to the widget. `timer` is the end of the delay that `setTimeout` was given, and
-- `throttle_end` of the one after which `_lazyOnChangeTrigger` triggers `change` on the input.
pub data Event : Type 0 where
  mouse_down : ℕ → Mode → Event
  timer mouse_up focus_out throttle_end : Event
  step_click : Mode → Event
  wheel : ℤ → Event
  key_down : Key → Event
  change : String → Event

module _ {Num : Type 0} where
  unfoldable pub clear_step_interval : Widget Num → Widget Num
  clear_step_interval w = record w { auto_step_interval = none; click_delay = def_click_delay }

  unfoldable pub on_step_mouse_down : Widget Num → ℕ → Mode → Widget Num
  on_step_mouse_down w button mode = elim w.auto_step_interval [
    | none ↦ if button == 0 then record w { auto_step_interval = some mode } else w
    | some _ ↦ w
  ]

  unfoldable on_focus_out : Widget Num → Widget Num
  unfolding clear_step_interval
  on_focus_out w = elim w.auto_step_interval [ none ↦ w | some _ ↦ clear_step_interval w ]

module _ {Num : Type 0} (n : Numerals Num) where
  open n use {one, is_falsy, add, sub, less, format, parse, to_number}

  -- `Number(step) || 1`
  abbrev step_or_one : Option Num → Num
  step_or_one none = one
  step_or_one (some s) = if is_falsy s then one else s

  -- `init`: the two limits change places if they are given the wrong way round.
  unfoldable pub init : Options Num → Config Num
  init o = elim o.min [
    | none ↦ record { step = step_or_one o.step; min = none; max = o.max }
    | some a ↦ elim o.max [
      | none ↦ record { step = step_or_one o.step; min = some a; max = none }
      | some b ↦
          if less b a
          then record { step = step_or_one o.step; min = some b; max = some a }
          else record { step = step_or_one o.step; min = some a; max = some b }
    ]
  ]

  -- `!_.isNaN(min) && cval < min`, and the same for `max`.
  abbrev pub below : Option Num → Num → Bool
  below none z = false
  below (some m) z = less z m

  abbrev pub above : Option Num → Num → Bool
  above none z = false
  above (some m) z = less m z

  abbrev limit_or : Option Num → Num → Num
  limit_or none z = z
  limit_or (some m) z = m

  -- `_sanitizeNumberValue` up to the formatting.
  unfoldable pub clamp : Config Num → Num → Num
  clamp c z =
      if below c.min z then limit_or c.min z else if above c.max z then limit_or c.max z else z

  abbrev pub move : Mode → Num → Num → Num
  move plus z step = add z step
  move minus z step = sub z step
  move missing z step = z

  -- `_sanitizeNumberValue` of a number and of a text.
  unfoldable pub sanitize : Config Num → Num → String
  sanitize c z = format (clamp c z)

  unfoldable sanitize_text : Config Num → String → String
  unfolding sanitize
  sanitize_text c t = elim (to_number t) [ none ↦ t | some z ↦ sanitize c z ]

  -- `this.$input.val(nval)` and the throttled `change`, if the text is new or there is no mode.
  unfoldable pub put_value : Widget Num → String → Bool → Widget Num
  put_value w nval no_mode =
      if not (same_text w.last_set_value nval) || no_mode
      then record w { input = nval; change_pending = true }
      else w

  unfoldable pub do_step : Widget Num → Mode → Widget Num
  unfolding put_value sanitize
  do_step w mode = elim (parse w.input) [
    | none ↦ put_value w (sanitize w.config w.value) true
    | some z ↦ put_value w (sanitize w.config (move mode z w.config.step)) (is_missing mode)
  ]

  unfoldable pub on_step_click : Widget Num → Mode → Widget Num
  unfolding do_step
  on_step_click w mode =
      if not w.auto_step
      then record (do_step w mode) { auto_step = false }
      else record w { auto_step = false }

  -- `_whileMouseDown`, for the press of the main button that set the timer.
  unfoldable pub while_mouse_down : Widget Num → Mode → Widget Num
  unfolding do_step on_step_mouse_down
  while_mouse_down w mode =
      let w' = do_step (record w { auto_step = true }) mode in
      let delay =
        if ltb min_delay w'.click_delay
        then w'.click_delay - substract_delay_step
        else w'.click_delay in
      on_step_mouse_down (record w' { auto_step_interval = none; click_delay = delay }) 0 mode

  unfoldable pub on_wheel : Widget Num → ℤ → Widget Num
  unfolding do_step
  on_wheel w delta = if ltb_ℤ (pos 0) delta then do_step w minus else do_step w plus

  unfoldable pub on_key_down : Widget Num → Key → Widget Num
  unfolding do_step
  on_key_down w up = do_step w plus
  on_key_down w down = do_step w minus
  on_key_down w other = w

  -- `_onChange` up to the call of the super method, which stores the value.
  unfoldable pub on_change : Widget Num → String → Widget Num
  unfolding sanitize_text
  on_change w t = record w { input = sanitize_text w.config t }

  abbrev on_throttle_end : Widget Num → Widget Num
  on_throttle_end w =
      if w.change_pending then on_change (record w { change_pending = false }) w.input else w

  unfoldable pub handle : Widget Num → Event → Widget Num
  unfolding on_step_mouse_down clear_step_interval on_focus_out
  handle w (mouse_down button mode) = on_step_mouse_down w button mode
  handle w timer = elim w.auto_step_interval [ none ↦ w | some mode ↦ while_mouse_down w mode ]
  handle w mouse_up = clear_step_interval w
  handle w focus_out = on_focus_out w
  handle w throttle_end = on_throttle_end w
  handle w (step_click mode) = on_step_click w mode
  handle w (wheel delta) = on_wheel w delta
  handle w (key_down key) = on_key_down w key
  handle w (change t) = on_change w t

  abbrev pub run : Widget Num → List Event → Widget Num
  run = foldl handle
