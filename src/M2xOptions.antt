-- ===== src/M2xOptions.antt =====
-- addons_OCA/web/web_m2x_options/static/src/js/form.js: options of the relational fields, set on
-- the view's node or in the system parameters. Here: the values of options and how they are read.
pub mod Limit
pub mod Precedence
pub mod Dropdown
pub mod Dialog
pub mod Badge
mod Examples
use Prim.Native.Char.{code}
use playground_azure_user_sy.Prelude.{
  ℕ, zero, suc, ◌+◌, ◌-◌, ◌*◌, String, Bool, true, false, ◌&&◌, ◌||◌, Option, none, some, ◌≡◌, refl,
  List, [], ◌∷◌, leb, if◌then◌else◌, ◌==◌, String_eq, ℕ_eq,
}
use playground_azure_user_sy.Prelude.Int.{ℤ, pos, negsuc}

-- The value of an option: what the view's architecture can put there.
pub data Value : Type 0 where
  undefined : Value
  text : String → Value
  boolean : Bool → Value
  number : ℤ → Value

abbrev pub is_undefined : Value → Bool
is_undefined undefined = true
is_undefined _ = false

-- A value as a condition of JavaScript.
abbrev pub truthy : Value → Bool
truthy undefined = false
truthy (text s) = elim (s == "") [ true ↦ false | false ↦ true ]
truthy (boolean b) = b
truthy (number (pos zero)) = false
truthy (number _) = true

unfoldable pub is_option_set : Value → Bool
is_option_set undefined = false
is_option_set (text s) = s == "true" || s == "True"
is_option_set (boolean b) = b
is_option_set (number n) = false

-- The node's options that the file reads.
pub record NodeOptions : Type 0 where
  pub m2o_dialog : Value
  pub limit : Value
  pub search_more : Value
  pub create : Value
  pub create_edit : Value
  pub no_create : Value
  pub no_quick_create : Value
  pub no_create_edit : Value
  pub open_record : Value  -- `open`
  pub no_color_picker : Value
  pub field_color : Option String
  pub colors : Option (List (String × String))

abbrev pub no_options : NodeOptions
no_options = record {
  m2o_dialog = undefined;
  limit = undefined;
  search_more = undefined;
  create = undefined;
  create_edit = undefined;
  no_create = undefined;
  no_quick_create = undefined;
  no_create_edit = undefined;
  open_record = undefined;
  no_color_picker = undefined;
  field_color = none;
  colors = none;
}

-- `ir_options`: the system parameters `web_m2x_options.*` that are set, as texts.
pub record IrOptions : Type 0 where
  pub ir_create : Option String
  pub ir_create_edit : Option String
  pub ir_limit : Option String
  pub ir_search_more : Option String
  pub ir_m2o_dialog : Option String
  pub ir_field_limit_entries : Option String

-- A parameter as the value that the code reads.
abbrev pub ir_value : Option String → Value
ir_value none = undefined
ir_value (some s) = text s

-- `parseInt(s, 10)` on the code points of a text; `none` is NaN.
abbrev codes : String → List ℕ
codes String.[] = []
codes (String.◌∷◌ c s) = code c ∷ codes s

abbrev is_digit : ℕ → Bool
is_digit c = leb b'0' c && leb c b'9'

abbrev is_space : ℕ → Bool
is_space c = c == 32 || (leb 9 c && leb c 13) || c == 160

skip_space : List ℕ → List ℕ
skip_space [] = []
skip_space (c ∷ s) = let rest = skip_space s in if is_space c then rest else c ∷ s

-- The value of the digits at the front, after `acc`.
digits_value : ℕ → List ℕ → ℕ
digits_value acc [] = acc
digits_value acc (c ∷ s) =
    let rest = digits_value (acc * 10 + (c - 48)) s in if is_digit c then rest else acc

abbrev negate : ℕ → ℤ
negate zero = pos zero
negate (suc n) = negsuc n

unsigned : (ℕ → ℤ) → List ℕ → Option ℤ
unfolding digits_value
unsigned sign [] = none
unsigned sign (c ∷ s) = if is_digit c then some (sign (digits_value 0 (c ∷ s))) else none

signed : List ℕ → Option ℤ
unfolding unsigned
signed [] = none
signed (c ∷ s) =
    if c == b'-'
    then unsigned negate s
    else if c == b'+'
    then unsigned pos s
    else unsigned pos (c ∷ s)

unfoldable pub parse_int : String → Option ℤ
unfolding skip_space signed
parse_int s = signed (skip_space (codes s))
