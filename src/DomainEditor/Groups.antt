-- ===== src/DomainEditor/Groups.antt =====
-- What the domain of all records of a grouped list asks for.
use playground_azure_user_sy.Prelude.{
  ℕ, zero, suc, ◌-◌, Bool, true, false, ◌||◌, Option, none, some, List, [], ◌∷◌, ◌++◌, length,
  replicate, if◌then◌else◌, ◌==◌, ◌≡◌, refl, sym, ap, ◌∙◌, arith, ℕ_eq, String_eq, Bool-cases, inl,
  inr,
}
use playground_azure_user_sy.DomainEditor.{Leaf, Token, op_and, op_or, op_not, leaf, without}
use playground_azure_user_sy.DomainEditor.Meaning.{any_holds, push_or, domain_values}

-- A condition, with the object that it is.
abbrev pub Term : Type 0
Term = ℕ × Leaf

abbrev pub leaves : List Term → List Token
leaves [] = []
leaves ((i, a) ∷ ts) = leaf i a ∷ leaves ts

length-leaves : (ts : List Term) → length (leaves ts) ≡ length ts
length-leaves [] = refl
length-leaves ((i, a) ∷ ts) = ap suc (length-leaves ts)

module _ (holds : Leaf → Bool) where
  abbrev pub any_term : List Term → Bool
  any_term [] = false
  any_term ((i, a) ∷ ts) = holds a || any_term ts

  abbrev pub values : List Term → List Bool
  values [] = []
  values ((i, a) ∷ ts) = holds a ∷ values ts

  domain_values-leaves : (ts : List Term) → domain_values holds (leaves ts) ≡ values ts
  unfolding domain_values
  domain_values-leaves [] = refl
  domain_values-leaves ((i, a) ∷ ts) = ap (λ vs. holds a ∷ vs) (domain_values-leaves ts)

  -- One "|" less than conditions, and then they are one expression: that one of them holds.
  abbrev push_ors : ℕ → List Bool → List Bool
  push_ors zero bs = bs
  push_ors (suc n) bs = push_or (push_ors n bs)

  push_ors_in : (n : ℕ) (bs : List Bool) → push_ors (suc n) bs ≡ push_ors n (push_or bs)
  push_ors_in zero bs = refl
  push_ors_in (suc n) bs = ap push_or (push_ors_in n bs)

  or_assoc : (a b c : Bool) → ((a || b) || c) ≡ (a || (b || c))
  or_assoc true b c = refl
  or_assoc false b c = refl

  or_false : (a : Bool) → (a || false) ≡ a
  or_false true = refl
  or_false false = refl

  push_ors-values :
      (b : Bool) (bs : List Bool) → push_ors (length bs) (b ∷ bs) ≡ any_holds (b ∷ bs) ∷ []
  push_ors-values b [] = ap (λ c. c ∷ []) (sym (or_false b))
  push_ors-values b (c ∷ cs) =
      push_ors_in (length cs) (b ∷ c ∷ cs)
      ∙ push_ors-values (b || c) cs
      ∙ ap (λ d. d ∷ []) (or_assoc b c (any_holds cs))

  domain_values-ors :
      (n : ℕ) (ts : List Token)
      → domain_values holds (replicate n op_or ++ ts) ≡ push_ors n (domain_values holds ts)
  unfolding domain_values
  domain_values-ors zero ts = refl
  domain_values-ors (suc n) ts = ap push_or (domain_values-ors n ts)

  any_holds-values : (ts : List Term) → any_holds (values ts) ≡ any_term ts
  any_holds-values [] = refl
  any_holds-values ((i, a) ∷ ts) = ap (λ b. holds a || b) (any_holds-values ts)

  -- As many "|" as `either_group` puts before some conditions.
  pub ors-leaves :
      (t : Term) (ts : List Term)
      → domain_values holds (replicate (length (leaves (t ∷ ts)) - 1) op_or ++ leaves (t ∷ ts))
        ≡ any_term (t ∷ ts) ∷ []
  unfolding domain_values
  ors-leaves (i, a) ts =
      let n : suc (length (leaves ts)) - 1 ≡ length (values ts) =
        omega (arith, length-leaves ts, length-values ts) in
      ap (λ k. domain_values holds (replicate k op_or ++ leaves ((i, a) ∷ ts))) n
      ∙ domain_values-ors (length (values ts)) (leaves ((i, a) ∷ ts))
      ∙ ap (push_ors (length (values ts))) (domain_values-leaves ((i, a) ∷ ts))
      ∙ push_ors-values (holds a) (values ts)
      ∙ ap (λ b. b ∷ []) (any_holds-values ((i, a) ∷ ts))
    where
      length-values : (us : List Term) → length (values us) ≡ length us
      length-values [] = refl
      length-values ((i, a) ∷ us) = ap suc (length-values us)

-- A domain of conditions and "&" alone.
abbrev pub is_conjunction : List Token → Bool
is_conjunction [] = true
is_conjunction (op_and ∷ ts) = is_conjunction ts
is_conjunction (leaf i a ∷ ts) = is_conjunction ts
is_conjunction (op_or ∷ ts) = false
is_conjunction (op_not ∷ ts) = false

-- Its conditions, but for an object.
abbrev pub terms_but : Option ℕ → List Token → List Term
terms_but o [] = []
terms_but o (leaf i a ∷ ts) =
    let rest = terms_but o ts in
    let hit : Bool = elim o [ none ↦ false | some r ↦ i == r ] in
    if hit then rest else (i, a) ∷ rest
terms_but o (op_and ∷ ts) = terms_but o ts
terms_but o (op_or ∷ ts) = terms_but o ts
terms_but o (op_not ∷ ts) = terms_but o ts

pub without-terms :
    (ts : List Token) → is_conjunction ts ≡ true → without op_and ts ≡ leaves (terms_but none ts)
unfolding without
without-terms [] h = refl
without-terms (op_and ∷ ts) h = without-terms ts h
without-terms (leaf i a ∷ ts) h = ap (λ us. leaf i a ∷ us) (without-terms ts h)
without-terms (op_or ∷ ts) h = ground arith
without-terms (op_not ∷ ts) h = ground arith

pub without_twice :
    (r : ℕ) (b : Leaf) (ts : List Token)
    → is_conjunction ts ≡ true
    → without op_and (without (leaf r b) ts) ≡ leaves (terms_but (some r) ts)
unfolding without
without_twice r b [] h = refl
without_twice r b (op_and ∷ ts) h = without_twice r b ts h
without_twice r b (leaf i a ∷ ts) h = elim (Bool-cases (i == r)) [
  | inl e ↦ rw (e) (without_twice r b ts h)
  | inr e ↦ rw (e) (ap (λ us. leaf i a ∷ us) (without_twice r b ts h))
]
without_twice r b (op_or ∷ ts) h = ground arith
without_twice r b (op_not ∷ ts) h = ground arith
