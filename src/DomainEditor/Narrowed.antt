-- ===== src/DomainEditor/Narrowed.antt =====
-- The selection of all records of a grouped list whose dialog has a domain of its own, which the
-- domain of each group repeats.
use playground_azure_user_sy.Prelude.{
  ℕ, ◌-◌, Bool, true, false, ◌&&◌, ◌||◌, some, List, [], ◌∷◌, ◌++◌, map, length, replicate, ◌==◌,
  ◌≡◌, refl, ap, ◌∙◌, ℕ_eq, String_eq, ==_self,
}
use playground_azure_user_sy.DomainEditor.{
  Operand, text_operand, number_operand, bool_operand, ids_operand, same_ids, same_operand,
  same_leaf, Leaf, Token, op_and, op_or, leaf, without, first_equal, without_found, difference,
  SelectedGroup, group_domains, either_group, DialogState, get_domain,
}
use playground_azure_user_sy.DomainEditor.Meaning.{all_hold, domain_values, domain_holds}
use playground_azure_user_sy.DomainEditor.Groups.{
  Term, leaves, any_term, ors-leaves, is_conjunction, terms_but, without_twice,
}

same_ids_self : (is : List ℕ) → same_ids is is ≡ true
same_ids_self [] = refl
same_ids_self (i ∷ is) = rw (==_self i) (same_ids_self is)

same_operand_self : (o : Operand) → same_operand o o ≡ true
same_operand_self (text_operand s) = ==_self s
same_operand_self (number_operand n) = ==_self n
same_operand_self (bool_operand true) = refl
same_operand_self (bool_operand false) = refl
same_operand_self (ids_operand is) = same_ids_self is

same_leaf_self : (a : Leaf) → same_leaf a a ≡ true
same_leaf_self a = rw (==_self a.field, ==_self a.operator) (same_operand_self a.operand)

-- A group with records: the object that repeats the condition of the dialog, the condition of the
-- group, and the ids.
pub record NarrowGroup : Type 0 where
  pub base_ref : ℕ
  pub own : Term
  pub first_id : ℕ
  pub more_ids : List ℕ

abbrev narrow_domain : Leaf → NarrowGroup → List Token
narrow_domain a g = op_and ∷ leaf g.base_ref a ∷ leaf g.own.0 g.own.1 ∷ []

abbrev pub narrow_group : Leaf → NarrowGroup → SelectedGroup
narrow_group a g = record { domain = narrow_domain a g; res_ids = g.first_id ∷ g.more_ids }

abbrev narrow_domains : Leaf → List NarrowGroup → List Token
narrow_domains a [] = []
narrow_domains a (g ∷ gs) = narrow_domain a g ++ narrow_domains a gs

group_domains-narrow :
    (a : Leaf) (gs : List NarrowGroup)
    → group_domains (map (narrow_group a) gs) ≡ narrow_domains a gs
unfolding group_domains
group_domains-narrow a [] = refl
group_domains-narrow a (g ∷ gs) = ap (λ ts. narrow_domain a g ++ ts) (group_domains-narrow a gs)

narrow_domains-is_conjunction :
    (a : Leaf) (gs : List NarrowGroup) → is_conjunction (narrow_domains a gs) ≡ true
narrow_domains-is_conjunction a [] = refl
narrow_domains-is_conjunction a (g ∷ gs) = narrow_domains-is_conjunction a gs

first_equal-narrow :
    (r : ℕ) (a : Leaf) (g : NarrowGroup) (ts : List Token)
    → first_equal (leaf r a) (narrow_domain a g ++ ts) ≡ some (leaf g.base_ref a)
unfolding first_equal
first_equal-narrow r a g ts = rw (same_leaf_self a)

-- What is left of the domains of the groups, which begin with `g`.
abbrev narrow_left : Leaf → NarrowGroup → List NarrowGroup → List Term
narrow_left a g gs = terms_but (some g.base_ref) (narrow_domains a (g ∷ gs))

either_group-narrow :
    (r : ℕ) (a : Leaf) (g : NarrowGroup) (gs : List NarrowGroup)
    → either_group (leaf r a ∷ []) (narrow_domains a (g ∷ gs))
      ≡ replicate (length (leaves (narrow_left a g gs)) - 1) op_or ++ leaves (narrow_left a g gs)
unfolding either_group difference
either_group-narrow r a g gs =
    ap (λ us. replicate (length us - 1) op_or ++ us)
      (ap (λ o. without op_and (without_found o (narrow_domains a (g ∷ gs))))
          (first_equal-narrow r a g (narrow_domains a gs))
        ∙ without_twice g.base_ref a (narrow_domains a (g ∷ gs))
            (narrow_domains-is_conjunction a (g ∷ gs)))

-- What is left where there is one group, and where there is another.
narrow_left_one :
    (a : Leaf) (g : NarrowGroup) → (g.own.0 == g.base_ref) ≡ false → narrow_left a g [] ≡ g.own ∷ []
narrow_left_one a g n = rw (==_self g.base_ref, n)

narrow_left_more :
    (a : Leaf) (g h : NarrowGroup) (gs : List NarrowGroup)
    → (g.own.0 == g.base_ref) ≡ false
    → (h.base_ref == g.base_ref) ≡ false
    → narrow_left a g (h ∷ gs)
      ≡ g.own
        ∷ (h.base_ref, a)
        ∷ terms_but (some g.base_ref) (leaf h.own.0 h.own.1 ∷ narrow_domains a gs)
narrow_left_more a g h gs n m = rw (==_self g.base_ref, n, m)

module _ (holds : Leaf → Bool) where
  -- The value of the whole domain, when some conditions are left of the groups.
  domain_holds-left :
      (r : ℕ) (a : Leaf) (g : NarrowGroup) (gs : List NarrowGroup) (t : Term) (ts : List Term)
      → narrow_left a g gs ≡ t ∷ ts
      → domain_holds holds (leaf r a ∷ either_group (leaf r a ∷ []) (narrow_domains a (g ∷ gs)))
        ≡ (holds a && (any_term holds (t ∷ ts) && true))
  unfolding domain_values
  domain_holds-left r a g gs t ts e =
      ap (λ us. holds a && domain_holds holds us) (either_group-narrow r a g gs)
      ∙ ap
          (λ us.
            holds a && domain_holds holds (replicate (length (leaves us) - 1) op_or ++ leaves us))
          e
      ∙ ap (λ vs. holds a && all_hold vs) (ors-leaves holds t ts)

  absorb : (a b c : Bool) → (a && ((b || (a || c)) && true)) ≡ a
  absorb true true c = refl
  absorb true false c = refl
  absorb false b c = refl

  -- With the condition `a` as the domain of the dialog, and groups with records whose domains
  -- are `a` and a condition of their own, all records selected. For one group, the new domain asks
  -- for both conditions. For more it asks for `a` alone: what the groups ask for is lost. The
  -- objects of the conditions are different ones.
  pub get_domain-narrow :
      (new_ref r : ℕ) (s : DialogState) (selected : List ℕ) (a : Leaf) (g : NarrowGroup)
      (gs : List NarrowGroup)
      → s.domain ≡ leaf r a ∷ []
      → s.all_checked ≡ true
      → s.is_grouped ≡ true
      → s.groups ≡ map (narrow_group a) (g ∷ gs)
      → (g.own.0 == g.base_ref) ≡ false
      → (elim gs [ [] ↦ false | h ∷ hs ↦ h.base_ref == g.base_ref ]) ≡ false
      → domain_holds holds (get_domain new_ref s selected)
        ≡ (elim gs [ [] ↦ holds a && holds g.own.1 | h ∷ hs ↦ holds a ])
  unfolding get_domain
  get_domain-narrow new_ref r s selected a g [] d c k e n m =
      rw (d, c, k, e)
        (ap (λ us. domain_holds holds (leaf r a ∷ either_group (leaf r a ∷ []) us))
            (group_domains-narrow a (g ∷ []))
          ∙ domain_holds-left r a g [] g.own [] (narrow_left_one a g n)
          ∙ one (holds a) (holds g.own.1))
    where
      one : (b c : Bool) → (b && ((c || false) && true)) ≡ (b && c)
      one true true = refl
      one true false = refl
      one false c = refl
  get_domain-narrow new_ref r s selected a g (h ∷ hs) d c k e n m =
      let rest = terms_but (some g.base_ref) (leaf h.own.0 h.own.1 ∷ narrow_domains a hs) in
      rw (d, c, k, e)
        (ap (λ us. domain_holds holds (leaf r a ∷ either_group (leaf r a ∷ []) us))
            (group_domains-narrow a (g ∷ h ∷ hs))
          ∙ domain_holds-left r a g (h ∷ hs) g.own ((h.base_ref, a) ∷ rest)
              (narrow_left_more a g h hs n m)
          ∙ absorb (holds a) (holds g.own.1) (any_term holds rest))
