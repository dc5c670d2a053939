-- ===== src/NumericStep/Examples.antt =====
-- A field between 0 and 3 whose numbers are written as tallies: a sign and as many strokes.
use Prim.Native.Char.{code}
use playground_azure_user_sy.Prelude.{
  ℕ, zero, suc, String, Bool, true, false, ◌≡◌, ◌⊎◌, refl, Option, none, some, [], ◌∷◌, arith,
  if◌then◌else◌, ◌==◌, ℕ_eq, String_eq,
}
use playground_azure_user_sy.Prelude.Int.{ℤ, pos, negsuc, ◌+ℤ◌, ◌-ℤ◌, ltb_ℤ}
use playground_azure_user_sy.NumericStep.{
  Options, Config, init, Widget, Mode, plus, Numerals, clamp, do_step, mouse_down, timer, handle,
  run, while_mouse_down,
}
use playground_azure_user_sy.NumericStep.Range.{IsNearest}
use playground_azure_user_sy.NumericStep.Step.{MustWrite, MayKeep, do_step-InRange}

abbrev strokes : ℕ → String
strokes zero = ""
strokes (suc n) = String.◌∷◌ "|" (strokes n)

abbrev stroke_count : String → ℕ
stroke_count String.[] = 0
stroke_count (String.◌∷◌ c s) = suc (stroke_count s)

abbrev tally : ℤ → String
tally (pos n) = String.◌∷◌ "+" (strokes n)
tally (negsuc n) = String.◌∷◌ "-" (strokes n)

abbrev read_tally : String → Option ℤ
read_tally String.[] = none
read_tally (String.◌∷◌ c s) =
    if code c == b'-' then some (negsuc (stroke_count s)) else some (pos (stroke_count s))

abbrev is_nought : ℤ → Bool
is_nought (pos zero) = true
is_nought (pos (suc n)) = false
is_nought (negsuc n) = false

abbrev tallies : Numerals ℤ
tallies = record {
  one = pos 1;
  is_falsy = is_nought;
  add = λ a b. a +ℤ b;
  sub = λ a b. a -ℤ b;
  less = ltb_ℤ;
  format = tally;
  parse = read_tally;
  to_number = read_tally;
}

less_irreflexive : (z : ℤ) → ltb_ℤ z z ≡ false
less_irreflexive z = ground arith

-- The limits are given the wrong way round, and a step of 0 counts as none.
abbrev options : Options ℤ
options = record { step = some (pos 0); min = some (pos 3); max = some (pos 0) }

abbrev limits : Config ℤ
limits = record { step = pos 1; min = some (pos 0); max = some (pos 3) }

init-limits : init tallies options ≡ limits
unfolding init
init-limits = refl

abbrev widget : Option String → Option Mode → Widget ℤ
widget last timer_mode = record {
  config = limits;
  input = "+|";
  value = pos 1;
  last_set_value = last;
  auto_step_interval = timer_mode;
  click_delay = 400;
  auto_step = false;
  change_pending = false;
}

held_to_the_limit :
    (run tallies (widget none none) (mouse_down 0 plus ∷ timer ∷ timer ∷ timer ∷ [])).input ≡ "+|||"
unfolding handle while_mouse_down clamp ◌+ℤ◌
held_to_the_limit = refl

do_step-InRange_example :
    let w = widget none none in
    (v : ℤ) × ((ltb_ℤ v (pos 0) ≡ false) × (ltb_ℤ (pos 3) v ≡ false))
    × IsNearest tallies limits (pos 1 +ℤ pos 1) v
    × ((MustWrite tallies w plus (tally v)
          × (do_step tallies w plus ≡ record w { input = tally v; change_pending = true }))
        ⊎ (MayKeep tallies w plus (tally v) × (do_step tallies w plus ≡ w)))
do_step-InRange_example = do_step-InRange tallies less_irreflexive (widget none none) plus refl
