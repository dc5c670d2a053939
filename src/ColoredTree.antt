-- ===== src/ColoredTree.antt =====
-- addons_OCA/web/web_tree_dynamic_colored_field/static/src/js/web_tree_dynamic_colored_field.js: the
-- colors of a list's cell, from rules `<color>: <expression>` with `;` between them. A text is the
-- list of its code units.
pub mod Rules
mod Examples
use Prim.Native.Char.{code}
use playground_azure_user_sy.Prelude.{
  ℕ, String, Bool, true, false, Option, none, some, List, [], ◌∷◌, if◌then◌else◌, ◌==◌, ℕ_eq,
}

abbrev pub Text : Type 0
Text = List ℕ

-- The code units of an ASCII text.
abbrev pub codes : String → Text
codes String.[] = []
codes (String.◌∷◌ c s) = code c ∷ codes s

-- `String.prototype.split` by one character.
abbrev onto_first : ℕ → List Text → List Text
onto_first c [] = (c ∷ []) ∷ []
onto_first c (p ∷ ps) = (c ∷ p) ∷ ps

unfoldable pub split : ℕ → Text → List Text
split sep [] = [] ∷ []
split sep (c ∷ s) = let rest = split sep s in if c == sep then [] ∷ rest else onto_first c rest

-- A color with the expression on which it depends.
abbrev pub ColorRule : Type 0
ColorRule = Text × Text

abbrev pub always : Text
always = codes "True"

abbrev pub expression_or_true : List Text → Text
expression_or_true [] = always
expression_or_true ([] ∷ ps) = always
expression_or_true ((c ∷ e) ∷ ps) = c ∷ e

-- The pair of a list that `split` gives, which is not empty.
abbrev pub pair_of : List Text → Option ColorRule
pair_of [] = none
pair_of (color ∷ ps) = some (color, expression_or_true ps)

-- `pairColors`; the expression is parsed where it is evaluated.
unfoldable pub pair_colors : Text → Option ColorRule
unfolding split
pair_colors [] = none
pair_colors (c ∷ s) = pair_of (split b':' (c ∷ s))

-- The pairs that are not undefined.
unfoldable pub color_rules : List Text → List ColorRule
unfolding pair_colors
color_rules [] = []
color_rules (p ∷ ps) =
    let rest = color_rules ps in elim (pair_colors p) [ none ↦ rest | some rule ↦ rule ∷ rest ]

-- `split(";")`, `map(this.pairColors)` and `filter`.
unfoldable pub read_rules : Text → List ColorRule
unfolding color_rules split
read_rules option = color_rules (split b';' option)

-- The loop over the rules: each that holds sets the color. `holds` is the evaluation by `py`, in
-- the context of the record.
unfoldable pub set_colors : (Text → Bool) → List ColorRule → Option Text → Option Text
set_colors holds [] color = color
set_colors holds ((c, e) ∷ rules) color = set_colors holds rules (if holds e then some c else color)

-- `applyColorizeHelper` on a cell whose CSS attribute has a color, or none.
unfoldable pub apply_colorize_helper : (Text → Bool) → Option Text → Option Text → Option Text
unfolding read_rules set_colors
apply_colorize_helper holds none color = color
apply_colorize_helper holds (some []) color = color
apply_colorize_helper holds (some (c ∷ s)) color = set_colors holds (read_rules (c ∷ s)) color

-- `applyColorize` on a new cell: its colors `color` and `background-color`. The options, if the node
-- has any, are the two lists of rules.
record CellColors : Type 0 where
  pub color : Option Text
  background_color : Option Text

record ColorOptions : Type 0 where
  fg_color : Option Text
  bg_color : Option Text

unfoldable apply_colorize : (Text → Bool) → Bool → Option ColorOptions → CellColors
unfolding apply_colorize_helper
apply_colorize holds is_field none = record { color = none; background_color = none }
apply_colorize holds is_field (some o) =
    if is_field
    then record {
      color = apply_colorize_helper holds o.fg_color none;
      background_color = apply_colorize_helper holds o.bg_color none;
    }
    else record { color = none; background_color = none }
