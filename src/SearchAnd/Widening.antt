-- ===== src/SearchAnd/Widening.antt =====
-- Completions without the shift key: alternatives within the group of a filter.
use playground_azure_user_sy.Prelude.{
  ℕ, String, Bool, true, false, not, ◌&&◌, ◌||◌, List, [], ◌∷◌, ◌++◌, ◌≡◌, refl, sym, ap, ap₂, ◌∙◌,
  Bool-cases, inl, inr, arith,
}
use playground_azure_user_sy.SearchAnd.{
  GroupId, filter_group, drawn_group, same_group_id, QueryElem, Completion, has_completion, elem_of,
  add_auto_completion_values,
}
use playground_azure_user_sy.SearchAnd.Domain.{
  group_holds, all_groups_hold, query_holds, is_unused, both, group_holds-append,
  all_groups_hold-append, query_holds-relabel,
}
use playground_azure_user_sy.Prelude.{==_iff, ℕ_eq}

or_true : (a b : Bool) → a ≡ true → (a || b) ≡ true
or_true a b h = rw (h)

same_group_id→eq : (g h : GroupId) → same_group_id g h ≡ true → g ≡ h
same_group_id→eq (filter_group m) (filter_group n) e = ap filter_group ((==_iff m n).0 e)
same_group_id→eq (drawn_group m) (drawn_group n) e = ap drawn_group ((==_iff m n).0 e)
same_group_id→eq (filter_group m) (drawn_group n) e = ground arith
same_group_id→eq (drawn_group m) (filter_group n) e = ground arith

module _ (holds : ℕ → String → String → Bool) where
  all_groups_hold-widen :
      (es q : List QueryElem) (d : QueryElem)
      → all_groups_hold holds es q ≡ true
      → all_groups_hold holds es (q ++ d ∷ []) ≡ true
  all_groups_hold-widen [] q d h = refl
  all_groups_hold-widen (e ∷ es) q d h =
      let (h₁, h₂) = both (group_holds holds e.group_id q) (all_groups_hold holds es q) h in
      ap₂ ◌&&◌
        (group_holds-append holds e.group_id q d ∙ or_true (group_holds holds e.group_id q) _ h₁)
        (all_groups_hold-widen es q d h₂)

  -- A group that is in use is one of those that hold.
  used_group_holds :
      (g : GroupId) (es q : List QueryElem)
      → is_unused g es ≡ false
      → all_groups_hold holds es q ≡ true
      → group_holds holds g q ≡ true
  used_group_holds g [] q u h = ground arith
  used_group_holds g (e ∷ es) q u h =
      let (h₁, h₂) = both (group_holds holds e.group_id q) (all_groups_hold holds es q) h in
      elim (Bool-cases (same_group_id e.group_id g)) [
        | inl s ↦ ap (λ x. group_holds holds x q) (sym (same_group_id→eq e.group_id g s)) ∙ h₁
        | inr s ↦ used_group_holds g es q (sym (ap (λ b. not b && is_unused g es) s) ∙ u) h₂
      ]

  -- Without the shift key, and with the group of the filter in the query, a record that meets the
  -- query meets it also after the completion.
  add_auto_completion_values_or :
      (groups : ℕ → ℕ) (drawn : ℕ) (q : List QueryElem) (c : Completion)
      → c.is_shift_key ≡ false
      → is_unused (filter_group (groups c.filter_id)) q ≡ false
      → query_holds holds q ≡ true
      → query_holds holds (add_auto_completion_values groups drawn q c) ≡ true
  unfolding add_auto_completion_values
  add_auto_completion_values_or groups drawn q c k u h =
      let d = elem_of groups drawn c in
      let used : is_unused d.group_id q ≡ false = rw (k) u in
      elim (Bool-cases (has_completion c q)) [
        | inl e ↦ rw (e) (query_holds-relabel holds c q ∙ h)
        | inr e ↦ rw (e) (
            all_groups_hold-append holds q (q ++ d ∷ []) d
            ∙ ap₂ ◌&&◌ (all_groups_hold-widen q q d h) (
                group_holds-append holds d.group_id q d
                ∙ or_true (group_holds holds d.group_id q) _
                    (used_group_holds d.group_id q q used h)))
      ]
