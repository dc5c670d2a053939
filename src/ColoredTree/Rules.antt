-- ===== src/ColoredTree/Rules.antt =====
-- Rules that are written out and read back, and the color that they give.
use playground_azure_user_sy.Prelude.{
  ℕ, Bool, false, ◌≡◌, ◌≢◌, refl, ap, ◌∙◌, Option, none, some, List, [], ◌∷◌, ◌++◌, map, contains,
  contains-append, ==_self, ℕ_eq, if◌then◌else◌, arith,
}
use playground_azure_user_sy.ColoredTree.{
  Text, split, ColorRule, always, expression_or_true, pair_of, pair_colors, color_rules, read_rules,
  set_colors, apply_colorize_helper,
}

split-lacking : (sep : ℕ) (s : Text) → contains s sep ≡ false → split sep s ≡ s ∷ []
unfolding split
split-lacking sep [] h = refl
split-lacking sep (c ∷ s) h = ground (arith, split-lacking sep s)

split_at :
    (sep : ℕ) (s t : Text) → contains s sep ≡ false → split sep (s ++ sep ∷ t) ≡ s ∷ split sep t
unfolding split
split_at sep [] t h = ground (arith, ==_self sep)
split_at sep (c ∷ s) t h = ground (arith, split_at sep s t)

-- A rule as the user writes it: a color, and an expression unless it always holds.
pub data WrittenRule : Type 0 where
  bare : Text → WrittenRule
  conditional : Text → Text → WrittenRule

-- Its parts are not empty, and hold neither of the separators.
abbrev pub IsPlain : Text → Type 0
IsPlain s = (s ≢ []) × (contains s b':' ≡ false) × (contains s b';' ≡ false)

abbrev IsWritable : WrittenRule → Type 0
IsWritable (bare color) = IsPlain color
IsWritable (conditional color expression) = IsPlain color × IsPlain expression

abbrev pub rule_of : WrittenRule → ColorRule
rule_of (bare color) = (color, always)
rule_of (conditional color expression) = (color, expression)

abbrev write_rule : WrittenRule → Text
write_rule (bare color) = color
write_rule (conditional color expression) = color ++ b':' ∷ expression

abbrev write_rules : WrittenRule → List WrittenRule → Text
write_rules r [] = write_rule r
write_rules r (q ∷ rs) = write_rule r ++ b';' ∷ write_rules q rs

abbrev AllWritable : List WrittenRule → Type 0
AllWritable [] = Unit {0}
AllWritable (r ∷ rs) = IsWritable r × AllWritable rs

pair_colors-filled : (s : Text) → s ≢ [] → pair_colors s ≡ pair_of (split b':' s)
unfolding pair_colors
pair_colors-filled [] h = absurd (h refl)
pair_colors-filled (c ∷ s) h = refl

expression_or_true-filled : (e : Text) (ps : List Text) → e ≢ [] → expression_or_true (e ∷ ps) ≡ e
expression_or_true-filled [] ps h = absurd (h refl)
expression_or_true-filled (c ∷ e) ps h = refl

append-filled : (s t : Text) → s ≢ [] → s ++ t ≢ []
append-filled [] t h = absurd (h refl)
append-filled (c ∷ s) t h = λ e. cc

pair_colors-write_rule :
    (r : WrittenRule) → IsWritable r → pair_colors (write_rule r) ≡ some (rule_of r)
pair_colors-write_rule (bare color) (filled, lacks, _) =
    pair_colors-filled color filled ∙ ap pair_of (split-lacking b':' color lacks)
pair_colors-write_rule (conditional color expression) ((filled, lacks, _), (given, lacks', _)) =
    pair_colors-filled (color ++ b':' ∷ expression) (append-filled color _ filled)
    ∙ (ap pair_of (
          split_at b':' color expression lacks
          ∙ ap (λ ps. color ∷ ps) (split-lacking b':' expression lacks'))
        ∙ ap (λ e. some (color, e)) (expression_or_true-filled expression [] given))

contains-write_rule : (r : WrittenRule) → IsWritable r → contains (write_rule r) b';' ≡ false
contains-write_rule (bare color) (_, _, lacks) = lacks
contains-write_rule (conditional color expression) ((_, _, lacks), (_, _, lacks')) =
    ground (arith, contains-append color (b':' ∷ expression) b';')

color_rules-cons :
    (p : Text) (ps : List Text) {r : ColorRule}
    → pair_colors p ≡ some r
    → color_rules (p ∷ ps) ≡ r ∷ color_rules ps
unfolding color_rules
color_rules-cons p ps e = ground arith

-- For every list of rules that has one, with colors and expressions that are not empty and hold no
-- separator: the rules that are read from the text of the list are those of the list, in their
-- order, where a bare color has the expression "True".
pub read_rules-write_rules :
    (r : WrittenRule) (rs : List WrittenRule)
    → IsWritable r
    → AllWritable rs
    → read_rules (write_rules r rs) ≡ rule_of r ∷ map rule_of rs
unfolding read_rules color_rules
read_rules-write_rules r [] w ws =
    ap color_rules (split-lacking b';' (write_rule r) (contains-write_rule r w))
    ∙ (color_rules-cons (write_rule r) [] (pair_colors-write_rule r w))
read_rules-write_rules r (q ∷ rs) w (w', ws) =
    ap color_rules (split_at b';' (write_rule r) (write_rules q rs) (contains-write_rule r w))
    ∙ (color_rules-cons (write_rule r) (split b';' (write_rules q rs)) (pair_colors-write_rule r w)
        ∙ ap (λ l. rule_of r ∷ l) (read_rules-write_rules q rs w' ws))

-- The color of the last rule that holds.
abbrev pub last_color : (Text → Bool) → List ColorRule → Option Text
last_color holds [] = none
last_color holds ((c, e) ∷ rules) = elim (last_color holds rules) [
  | some d ↦ some d
  | none ↦ if holds e then some c else none
]

abbrev pub or_else : Option Text → Option Text → Option Text
or_else none d = d
or_else (some c) d = some c

set_colors-last_color :
    (holds : Text → Bool) (rules : List ColorRule) (color : Option Text)
    → set_colors holds rules color ≡ or_else (last_color holds rules) color
unfolding set_colors
set_colors-last_color holds [] color = refl
set_colors-last_color holds ((c, e) ∷ rules) color =
    ground (arith, set_colors-last_color holds rules (if holds e then some c else color))

write_rule-filled : (r : WrittenRule) → IsWritable r → write_rule r ≢ []
write_rule-filled (bare color) (filled, _, _) = filled
write_rule-filled (conditional color expression) ((filled, _, _), _) =
    append-filled color (b':' ∷ expression) filled

write_rules-filled :
    (r : WrittenRule) (rs : List WrittenRule) → IsWritable r → write_rules r rs ≢ []
write_rules-filled r [] w = write_rule-filled r w
write_rules-filled r (q ∷ rs) w = append-filled (write_rule r) _ (write_rule-filled r w)

apply-read :
    (holds : Text → Bool) (s : Text) (color : Option Text)
    → s ≢ []
    → apply_colorize_helper holds (some s) color ≡ set_colors holds (read_rules s) color
unfolding apply_colorize_helper
apply-read holds [] color h = absurd (h refl)
apply-read holds (c ∷ s) color h = refl

-- For every list of rules that has one, with colors and expressions that are not empty and hold no
-- separator, and whichever expressions hold: from the text of the list the cell gets the color of
-- the last rule that holds, where a bare color always holds if "True" does, and the cell keeps its
-- own color if none holds.
apply_colorize_helper-last :
    (holds : Text → Bool) (r : WrittenRule) (rs : List WrittenRule) (color : Option Text)
    → IsWritable r
    → AllWritable rs
    → apply_colorize_helper holds (some (write_rules r rs)) color
      ≡ or_else (last_color holds (rule_of r ∷ map rule_of rs)) color
apply_colorize_helper-last holds r rs color w ws =
    apply-read holds (write_rules r rs) color (write_rules-filled r rs w)
    ∙ (ap (λ l. set_colors holds l color) (read_rules-write_rules r rs w ws)
        ∙ set_colors-last_color holds (rule_of r ∷ map rule_of rs) color)

-- For every color, expression and rest, the first two without a separator: where the expression
-- goes on with a colon, what follows the colon is lost.
pair_colors-second_colon :
    (color expression rest : Text)
    → IsPlain color
    → IsPlain expression
    → pair_colors (color ++ b':' ∷ (expression ++ b':' ∷ rest)) ≡ some (color, expression)
pair_colors-second_colon color expression rest (filled, lacks, _) (given, lacks', _) =
    pair_colors-filled _ (append-filled color _ filled)
    ∙ (ap pair_of (
          split_at b':' color (expression ++ b':' ∷ rest) lacks
          ∙ ap (λ ps. color ∷ ps) (split_at b':' expression rest lacks'))
        ∙ ap (λ e. some (color, e)) (expression_or_true-filled expression (split b':' rest) given))
