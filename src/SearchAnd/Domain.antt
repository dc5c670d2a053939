-- ===== src/SearchAnd/Domain.antt =====
-- What a query asks of a record: one element of each of its groups has to hold.
use playground_azure_user_sy.Prelude.{
  ℕ, String, Bool, true, false, ◌&&◌, ◌||◌, List, [], ◌∷◌, ◌++◌, ℕ_eq, not, arith, ==_sym, ◌≡◌,
  refl, sym, ap, ap₂, ◌∙◌, Bool-cases, inl, inr, ==_self,
}
use playground_azure_user_sy.SearchAnd.{
  GroupId, filter_group, drawn_group, same_group_id, QueryElem, Completion, is_elem, has_completion,
  relabel, elem_of, add_auto_completion_values,
}

same_group_id_self : (g : GroupId) → same_group_id g g ≡ true
same_group_id_self (filter_group n) = ==_self n
same_group_id_self (drawn_group n) = ==_self n

-- No element has the group.
abbrev pub is_unused : GroupId → List QueryElem → Bool
is_unused g [] = true
is_unused g (e ∷ es) = not (same_group_id e.group_id g) && is_unused g es

-- `holds` says of a filter, a value and an operator whether they hold of the record.
module _ (holds : ℕ → String → String → Bool) where
  abbrev elem_holds : QueryElem → Bool
  elem_holds e = holds e.filter_id e.value e.operator

  -- Some element of the group holds.
  abbrev pub group_holds : GroupId → List QueryElem → Bool
  group_holds g [] = false
  group_holds g (e ∷ es) = (same_group_id g e.group_id && elem_holds e) || group_holds g es

  abbrev pub all_groups_hold : List QueryElem → List QueryElem → Bool
  all_groups_hold [] q = true
  all_groups_hold (e ∷ es) q = group_holds e.group_id q && all_groups_hold es q

  -- Each group that occurs in the query holds.
  abbrev pub query_holds : List QueryElem → Bool
  query_holds q = all_groups_hold q q

same_group_id_sym : (g h : GroupId) → same_group_id g h ≡ same_group_id h g
same_group_id_sym (filter_group m) (filter_group n) = ==_sym m n
same_group_id_sym (drawn_group m) (drawn_group n) = ==_sym m n
same_group_id_sym (filter_group m) (drawn_group n) = refl
same_group_id_sym (drawn_group m) (filter_group n) = refl

pub or_assoc : (a b c : Bool) → (a || (b || c)) ≡ ((a || b) || c)
or_assoc true b c = refl
or_assoc false b c = refl

and_assoc : (a b c : Bool) → (a && (b && c)) ≡ ((a && b) && c)
and_assoc true b c = refl
and_assoc false b c = refl

and_true : (a : Bool) → (a && true) ≡ a
and_true true = refl
and_true false = refl

or_false : (a : Bool) → (a || false) ≡ a
or_false true = refl
or_false false = refl

not_and : (a b : Bool) → (not a && b) ≡ true → (a ≡ false) × (b ≡ true)
not_and true b h = ground arith
not_and false b h = (refl, h)

pub both : (a b : Bool) → (a && b) ≡ true → (a ≡ true) × (b ≡ true)
both true b h = (refl, h)
both false b h = ground arith

module _ (holds : ℕ → String → String → Bool) where
  -- An element more: its group gains an alternative, and is one more group to hold.
  pub group_holds-append :
      (g : GroupId) (q : List QueryElem) (d : QueryElem)
      → group_holds holds g (q ++ d ∷ [])
        ≡ (group_holds holds g q || (same_group_id g d.group_id && elem_holds holds d))
  group_holds-append g [] d = or_false (same_group_id g d.group_id && elem_holds holds d)
  group_holds-append g (e ∷ es) d =
      let this = same_group_id g e.group_id && elem_holds holds e in
      ap (λ b. this || b) (group_holds-append g es d)
      ∙ or_assoc this (group_holds holds g es) (same_group_id g d.group_id && elem_holds holds d)

  pub all_groups_hold-append :
      (es q : List QueryElem) (d : QueryElem)
      → all_groups_hold holds (es ++ d ∷ []) q
        ≡ (all_groups_hold holds es q && group_holds holds d.group_id q)
  all_groups_hold-append [] q d = and_true (group_holds holds d.group_id q)
  all_groups_hold-append (e ∷ es) q d =
      ap (λ b. group_holds holds e.group_id q && b) (all_groups_hold-append es q d)
      ∙ and_assoc (group_holds holds e.group_id q) (all_groups_hold holds es q)
          (group_holds holds d.group_id q)

  group_holds_unused :
      (g : GroupId) (q : List QueryElem) → is_unused g q ≡ true → group_holds holds g q ≡ false
  group_holds_unused g [] h = refl
  group_holds_unused g (e ∷ es) h =
      let (h₁, h₂) = not_and (same_group_id e.group_id g) (is_unused g es) h in
      ap₂ (λ a b. (a && elem_holds holds e) || b) (same_group_id_sym g e.group_id ∙ h₁)
        (group_holds_unused g es h₂)

  -- The other groups do not notice the new element.
  all_groups_hold_unused :
      (es q : List QueryElem) (d : QueryElem)
      → is_unused d.group_id es ≡ true
      → all_groups_hold holds es (q ++ d ∷ []) ≡ all_groups_hold holds es q
  all_groups_hold_unused [] q d h = refl
  all_groups_hold_unused (e ∷ es) q d h =
      let (h₁, h₂) = not_and (same_group_id e.group_id d.group_id) (is_unused d.group_id es) h in
      ap₂ ◌&&◌
        (group_holds-append e.group_id q d
          ∙ ap (λ b. group_holds holds e.group_id q || (b && elem_holds holds d)) h₁
          ∙ or_false (group_holds holds e.group_id q))
        (all_groups_hold_unused es q d h₂)

  -- A new label changes nothing.
  group_holds-relabel :
      (c : Completion) (g : GroupId) (q : List QueryElem)
      → group_holds holds g (relabel c q) ≡ group_holds holds g q
  unfolding relabel
  group_holds-relabel c g [] = refl
  group_holds-relabel c g (e ∷ es) = elim (Bool-cases (is_elem c.filter_id c.value c.operator e)) [
    | inl h ↦ rw (h)
    | inr h ↦ rw (h, group_holds-relabel c g es)
  ]

  all_groups_hold-relabel :
      (c : Completion) (es q : List QueryElem)
      → all_groups_hold holds (relabel c es) q ≡ all_groups_hold holds es q
  unfolding relabel
  all_groups_hold-relabel c [] q = refl
  all_groups_hold-relabel c (e ∷ es) q =
      elim (Bool-cases (is_elem c.filter_id c.value c.operator e)) [
        | inl h ↦ rw (h)
        | inr h ↦ rw (h, all_groups_hold-relabel c es q)
      ]

  all_groups_hold_relabeled :
      (c : Completion) (es q : List QueryElem)
      → all_groups_hold holds es (relabel c q) ≡ all_groups_hold holds es q
  all_groups_hold_relabeled c [] q = refl
  all_groups_hold_relabeled c (e ∷ es) q =
      ap₂ ◌&&◌ (group_holds-relabel c e.group_id q) (all_groups_hold_relabeled c es q)

  pub query_holds-relabel :
      (c : Completion) (q : List QueryElem) → query_holds holds (relabel c q) ≡ query_holds holds q
  query_holds-relabel c q =
      all_groups_hold-relabel c q (relabel c q) ∙ all_groups_hold_relabeled c q q

  -- An element with a group of its own is one more condition.
  query_holds-own_group :
      (q : List QueryElem) (d : QueryElem)
      → is_unused d.group_id q ≡ true
      → query_holds holds (q ++ d ∷ []) ≡ (query_holds holds q && elem_holds holds d)
  query_holds-own_group q d h =
      all_groups_hold-append q (q ++ d ∷ []) d
      ∙ ap₂ ◌&&◌ (all_groups_hold_unused q q d h) (
          group_holds-append d.group_id q d
          ∙ ap₂ (λ a b. a || (b && elem_holds holds d)) (group_holds_unused d.group_id q h)
              (same_group_id_self d.group_id))

  -- With the shift key, and a drawn number that is not in use, a completion whose element is not
  -- there yet is one more condition on the record; one whose element is there changes nothing.
  pub add_auto_completion_values_and :
      (groups : ℕ → ℕ) (drawn : ℕ) (q : List QueryElem) (c : Completion)
      → c.is_shift_key ≡ true
      → is_unused (drawn_group drawn) q ≡ true
      → query_holds holds (add_auto_completion_values groups drawn q c)
        ≡ (query_holds holds q && (has_completion c q || holds c.filter_id c.value c.operator))
  unfolding add_auto_completion_values
  add_auto_completion_values_and groups drawn q c k h = elim (Bool-cases (has_completion c q)) [
    | inl e ↦ rw (e) (query_holds-relabel c q ∙ sym (and_true (query_holds holds q)))
    | inr e ↦ rw (e) (query_holds-own_group q (elem_of groups drawn c) (rw (k) h))
  ]
