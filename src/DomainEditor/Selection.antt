-- ===== src/DomainEditor/Selection.antt =====
-- The selection of all records of a list that is grouped, without and with a domain of its own.
use playground_azure_user_sy.Prelude.{
  ℕ, ◌-◌, Bool, true, false, ◌&&◌, none, List, [], ◌∷◌, ◌++◌, map, length, replicate, ◌≡◌, refl,
  sym, ap, ◌∙◌, ℕ_eq, String_eq,
}
use playground_azure_user_sy.DomainEditor.{
  Leaf, op_or, leaf, difference, SelectedGroup, group_domains, either_group, DialogState,
  get_domain,
}
use playground_azure_user_sy.DomainEditor.Meaning.{all_hold, domain_holds}
use playground_azure_user_sy.DomainEditor.Groups.{
  Term, leaves, any_term, ors-leaves, is_conjunction, terms_but, without-terms,
}

-- A group whose domain is one condition.
abbrev pub single : Term × List ℕ → SelectedGroup
single ((i, a), ids) = record { domain = leaf i a ∷ []; res_ids = ids }

-- The conditions of the groups that have records.
abbrev pub with_records : List (Term × List ℕ) → List Term
with_records [] = []
with_records ((t, []) ∷ gs) = with_records gs
with_records ((t, i ∷ is) ∷ gs) = t ∷ with_records gs

group_domains-single :
    (gs : List (Term × List ℕ)) → group_domains (map single gs) ≡ leaves (with_records gs)
unfolding group_domains
group_domains-single [] = refl
group_domains-single (((i, a), []) ∷ gs) = group_domains-single gs
group_domains-single (((i, a), j ∷ js) ∷ gs) = ap (λ ts. leaf i a ∷ ts) (group_domains-single gs)

leaves-is_conjunction : (ts : List Term) → is_conjunction (leaves ts) ≡ true
leaves-is_conjunction [] = refl
leaves-is_conjunction ((i, a) ∷ ts) = leaves-is_conjunction ts

terms_but-leaves : (ts : List Term) → terms_but none (leaves ts) ≡ ts
terms_but-leaves [] = refl
terms_but-leaves ((i, a) ∷ ts) = ap (λ us. (i, a) ∷ us) (terms_but-leaves ts)

either_group-leaves :
    (ts : List Term)
    → either_group [] (leaves ts) ≡ replicate (length (leaves ts) - 1) op_or ++ leaves ts
unfolding either_group difference
either_group-leaves ts =
    ap (λ us. replicate (length us - 1) op_or ++ us)
      (without-terms (leaves ts) (leaves-is_conjunction ts) ∙ ap leaves (terms_but-leaves ts))

module _ (holds : Leaf → Bool) where
  -- With no domain of its own and a single condition for each group, all records selected: the new
  -- domain asks that one of the conditions of the groups with records holds. There is such a group,
  -- with the condition `t`.
  pub get_domain-groups :
      (new_ref : ℕ) (s : DialogState) (selected : List ℕ) (gs : List (Term × List ℕ)) (t : Term)
      (ts : List Term)
      → s.domain ≡ []
      → s.all_checked ≡ true
      → s.is_grouped ≡ true
      → s.groups ≡ map single gs
      → with_records gs ≡ t ∷ ts
      → domain_holds holds (get_domain new_ref s selected) ≡ any_term holds (with_records gs)
  unfolding get_domain
  get_domain-groups new_ref s selected gs t ts d c g e w =
      rw (d, c, g, e)
        (ap (λ us. domain_holds holds (either_group [] us)) (group_domains-single gs)
          ∙ ap (domain_holds holds) (either_group-leaves (with_records gs))
          ∙ ap (λ us. domain_holds holds (replicate (length (leaves us) - 1) op_or ++ leaves us)) w
          ∙ ap all_hold (ors-leaves holds t ts)
          ∙ and_true (any_term holds (t ∷ ts))
          ∙ ap (any_term holds) (sym w))
    where
      and_true : (a : Bool) → (a && true) ≡ a
      and_true true = refl
      and_true false = refl
