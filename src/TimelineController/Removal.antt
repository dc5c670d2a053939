-- ===== src/TimelineController/Removal.antt =====
-- The removal of an item from the model's data.
use playground_azure_user_sy.Prelude.{
  ℕ, suc, ◌+◌, true, false, ◌≡◌, refl, ap, ◌∙◌, Option, none, some, List, [], ◌∷◌, contains, ◌==◌,
  ==_iff, ℕ_eq, if◌then◌else◌, arith, Bool-cases, inl, inr, drop,
}
use playground_azure_user_sy.TimelineController.{
  Controller, unlink_index, splice_one, index_or_zero, remove_completed,
}

-- The other ids.
abbrev pub without : ℕ → List ℕ → List ℕ
without id [] = []
without id (x ∷ xs) = let rest = without id xs in if x == id then rest else x ∷ rest

-- No id stands twice.
abbrev pub HasDistinctIds : List ℕ → Type 0
HasDistinctIds [] = Unit {0}
HasDistinctIds (x ∷ xs) = (contains xs x ≡ false) × HasDistinctIds xs

unlink_index-absent :
    (id i : ℕ) (xs : List ℕ) (found : Option ℕ)
    → contains xs id ≡ false
    → unlink_index id i xs found ≡ found
unfolding unlink_index
unlink_index-absent id i [] found h = refl
unlink_index-absent id i (x ∷ xs) found h = ground (arith, unlink_index-absent id (suc i) xs found)

without-absent : (id : ℕ) (xs : List ℕ) → contains xs id ≡ false → without id xs ≡ xs
without-absent id [] h = refl
without-absent id (x ∷ xs) h = ground (arith, without-absent id xs)

-- The index found, counted from `i`.
unlink_index-present :
    (id i : ℕ) (xs : List ℕ) (found : Option ℕ)
    → HasDistinctIds xs
    → contains xs id ≡ true
    → (d : ℕ) × (unlink_index id i xs found ≡ some (d + i)) × (splice_one d xs ≡ without id xs)
unfolding unlink_index splice_one
unlink_index-present id i [] found d h = cc
unlink_index-present id i (x ∷ xs) found (new, d) h = elim (Bool-cases (x == id)) [
  | inl e ↦ (
    0,
    ground (arith, unlink_index-absent id (suc i) xs (some i), ==_iff x id),
    ground (arith, without-absent id xs, ==_iff x id),
  )
  | inr e ↦
      let (k, at, rest) = unlink_index-present id (suc i) xs found d (ground arith) in
      (suc k, ground arith, ground arith)
]

splice_one-zero : (xs : List ℕ) → splice_one 0 xs ≡ drop 1 xs
unfolding splice_one
splice_one-zero [] = refl
splice_one-zero (x ∷ xs) = refl

-- For every controller whose model has no id twice: when an item is removed that the model has, the
-- ids that stay are all others, in their order; when one is removed that the model does not have,
-- such as one of a record made since the data was loaded, the first id of the model is dropped,
-- which is the one of another record.
pub remove_completed-ids :
    (c : Controller) (id : ℕ)
    → HasDistinctIds c.model_ids
    → (contains c.model_ids id ≡ true
        → (remove_completed c id).0.model_ids ≡ without id c.model_ids)
      × (contains c.model_ids id ≡ false → (remove_completed c id).0.model_ids ≡ drop 1 c.model_ids)
unfolding remove_completed
remove_completed-ids c id distinct = (
  λ h.
      let (d, at, rest) = unlink_index-present id 0 c.model_ids none distinct h in
      ap (λ o. splice_one (index_or_zero o) c.model_ids) at
      ∙ (ap (λ k. splice_one k c.model_ids) (omega arith) ∙ rest),
  λ h.
      ap (λ o. splice_one (index_or_zero o) c.model_ids)
        (unlink_index-absent id 0 c.model_ids none h)
      ∙ splice_one-zero c.model_ids,
)
