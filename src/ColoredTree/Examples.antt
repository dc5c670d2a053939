-- ===== src/ColoredTree/Examples.antt =====
-- Rules for the amount of a record that is not paid.
use playground_azure_user_sy.Prelude.{Bool, true, false, ◌≡◌, refl, [], ◌∷◌, ℕ_eq}
use playground_azure_user_sy.ColoredTree.{Text, codes, read_rules}
use playground_azure_user_sy.ColoredTree.Rules.{
  WrittenRule, bare, conditional, IsPlain, rule_of, read_rules-write_rules,
}

abbrev paid_rule : WrittenRule
paid_rule = conditional (codes "red") (codes "not paid")

abbrev any_rule : WrittenRule
any_rule = bare (codes "gray")

-- Texts of four letters hold: "True" does, the expression does not.
abbrev four_letters : Text → Bool
four_letters (a ∷ b ∷ c ∷ d ∷ []) = true
four_letters _ = false

red-IsPlain : IsPlain (codes "red")
red-IsPlain = (λ e. cc, refl, refl)

paid-IsPlain : IsPlain (codes "not paid")
paid-IsPlain = (λ e. cc, refl, refl)

gray-IsPlain : IsPlain (codes "gray")
gray-IsPlain = (λ e. cc, refl, refl)

read_rules-write_rules_example :
    read_rules (codes "red:not paid;gray") ≡ rule_of paid_rule ∷ rule_of any_rule ∷ []
read_rules-write_rules_example =
    read_rules-write_rules paid_rule (any_rule ∷ []) (red-IsPlain, paid-IsPlain) (gray-IsPlain, tt)
