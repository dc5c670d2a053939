-- ===== src/DomainEditor/Meaning.antt =====
-- What a domain asks of a record. Its operators stand before their operands, and what is left side by
-- side has to hold together.
use playground_azure_user_sy.Prelude.{
  ℕ, Bool, true, false, not, ◌&&◌, ◌||◌, List, [], ◌∷◌, ◌++◌, ◌≡◌, refl, ap, ◌∙◌, append_assoc,
}
use playground_azure_user_sy.DomainEditor.{
  ids_operand, Leaf, Token, op_and, op_or, op_not, leaf, DialogState, get_domain,
}

abbrev pub all_hold : List Bool → Bool
all_hold [] = true
all_hold (b ∷ bs) = b && all_hold bs

abbrev pub any_holds : List Bool → Bool
any_holds [] = false
any_holds (b ∷ bs) = b || any_holds bs

-- The operators, on the values of what stands after them.
abbrev pub push_or : List Bool → List Bool
push_or [] = []
push_or (a ∷ bs) = elim bs [ [] ↦ a ∷ [] | b ∷ rest ↦ (a || b) ∷ rest ]

abbrev push_and : List Bool → List Bool
push_and [] = []
push_and (a ∷ bs) = elim bs [ [] ↦ a ∷ [] | b ∷ rest ↦ (a && b) ∷ rest ]

abbrev push_not : List Bool → List Bool
push_not [] = []
push_not (a ∷ bs) = not a ∷ bs

-- An expression, and the domain that it is written as.
pub data DomainExpr : Type 0 where
  term : ℕ → Leaf → DomainExpr
  both : DomainExpr → DomainExpr → DomainExpr
  either : DomainExpr → DomainExpr → DomainExpr
  negate : DomainExpr → DomainExpr

abbrev print : DomainExpr → List Token
print (term i a) = leaf i a ∷ []
print (both d e) = op_and ∷ (print d ++ print e)
print (either d e) = op_or ∷ (print d ++ print e)
print (negate e) = op_not ∷ print e

abbrev pub print_all : List DomainExpr → List Token
print_all [] = []
print_all (e ∷ es) = print e ++ print_all es

-- `holds` says of a condition whether it holds of the record.
module _ (holds : Leaf → Bool) where
  -- The values of the expressions that a domain consists of, from its end.
  unfoldable pub domain_values : List Token → List Bool
  domain_values [] = []
  domain_values (op_and ∷ ts) = push_and (domain_values ts)
  domain_values (op_or ∷ ts) = push_or (domain_values ts)
  domain_values (op_not ∷ ts) = push_not (domain_values ts)
  domain_values (leaf i a ∷ ts) = holds a ∷ domain_values ts

  abbrev pub domain_holds : List Token → Bool
  domain_holds ts = all_hold (domain_values ts)

  abbrev pub eval : DomainExpr → Bool
  eval (term i a) = holds a
  eval (both d e) = eval d && eval e
  eval (either d e) = eval d || eval e
  eval (negate e) = not (eval e)

  abbrev all_eval : List DomainExpr → Bool
  all_eval [] = true
  all_eval (e ∷ es) = eval e && all_eval es

  domain_values-print :
      (e : DomainExpr) (ts : List Token) → domain_values (print e ++ ts) ≡ eval e ∷ domain_values ts
  unfolding domain_values
  domain_values-print (term i a) ts = refl
  domain_values-print (both d e) ts = ap push_and (
      ap domain_values (append_assoc (print d) (print e) ts)
      ∙ domain_values-print d (print e ++ ts)
      ∙ ap (λ vs. eval d ∷ vs) (domain_values-print e ts))
  domain_values-print (either d e) ts = ap push_or (
      ap domain_values (append_assoc (print d) (print e) ts)
      ∙ domain_values-print d (print e ++ ts)
      ∙ ap (λ vs. eval d ∷ vs) (domain_values-print e ts))
  domain_values-print (negate e) ts = ap push_not (domain_values-print e ts)

  and_assoc : (a b c : Bool) → (a && (b && c)) ≡ ((a && b) && c)
  and_assoc true b c = refl
  and_assoc false b c = refl

  -- What follows a list of expressions is one more thing to hold.
  domain_holds-append :
      (es : List DomainExpr) (ts : List Token)
      → domain_holds (print_all es ++ ts) ≡ (all_eval es && domain_holds ts)
  domain_holds-append [] ts = refl
  domain_holds-append (e ∷ es) ts =
      ap domain_holds (append_assoc (print e) (print_all es) ts)
      ∙ ap all_hold (domain_values-print e (print_all es ++ ts))
      ∙ ap (λ b. eval e && b) (domain_holds-append es ts)
      ∙ and_assoc (eval e) (all_eval es) (domain_holds ts)

  and_true : (a : Bool) → (a && true) ≡ a
  and_true true = refl
  and_true false = refl

  abbrev pub among : List ℕ → Leaf
  among ids = record { field = "id"; operator = "in"; operand = ids_operand ids }

  -- With some records selected: the new domain asks for the domain of the dialog and for one of
  -- the ids.
  get_domain-records :
      (new_ref : ℕ) (s : DialogState) (es : List DomainExpr) (ids : List ℕ)
      → s.domain ≡ print_all es
      → s.all_checked ≡ false
      → domain_holds (get_domain new_ref s ids) ≡ (all_eval es && holds (among ids))
  unfolding get_domain domain_values
  get_domain-records new_ref s es ids d c =
      rw (c, d)
        (domain_holds-append es (leaf new_ref (among ids) ∷ [])
          ∙ ap (λ b. all_eval es && b) (and_true (holds (among ids))))
