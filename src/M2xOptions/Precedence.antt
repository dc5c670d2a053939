-- ===== src/M2xOptions/Precedence.antt =====
-- form.js: which of the two places that can set an option decides.
use playground_azure_user_sy.Prelude.{Bool, true, false, ◌≡◌, refl, if◌then◌else◌}
use playground_azure_user_sy.M2xOptions.{
  Value, undefined, text, boolean, number, is_undefined, is_option_set,
}

-- The node's value decides if it has one, or else the system parameter, if it is there; an option
-- that is nowhere counts as set.
abbrev pub node_or_param : Value → Value → Bool
node_or_param node param =
    if is_undefined node
    then (if is_undefined param then true else is_option_set param)
    else is_option_set node

-- An option that is not there is not set.
pub not_set : (v : Value) → is_undefined v ≡ true → is_option_set v ≡ false
unfolding is_option_set
not_set undefined h = refl
not_set (text s) h = cc
not_set (boolean b) h = cc
not_set (number n) h = cc
