-- ===== src/GroupExpand/Collapse.antt =====
-- Which groups `collapseAllGroups` toggles.
use playground_azure_user_sy.Prelude.{
  ℕ, zero, suc, ◌≤◌, ◌<◌, String, ◌≡◌, refl, ◌≢◌, ◌⊎◌, Option, some, List, [], ◌∷◌, arith, inl, inr,
}
use playground_azure_user_sy.GroupExpand.{
  Node, next_layer, layers, is_open, keep, toggle_groups, collapse_layers, collapse_all_groups,
}
use playground_azure_user_sy.GroupExpand.Layers.{
  open_layer_at, layers-next_layer, layers-cons, layers-keep,
}

-- What is toggled, from a layer `l` of open groups: the last layer of open groups below it.
abbrev pub ClosesLast : List Node → List String → Type 0
ClosesLast l ids =
    ((l ≡ []) × (ids ≡ []))
    ⊎ ((k : ℕ) × ((j : ℕ) → j ≤ k → open_layer_at j l ≢ [])
        × (open_layer_at (suc k) l ≡ [])
        × (ids ≡ toggle_groups (open_layer_at k l)))

ClosesLast-next :
    (l : List Node) (ids : List String)
    → l ≢ []
    → keep is_open (next_layer l) ≢ []
    → ClosesLast (keep is_open (next_layer l)) ids
    → ClosesLast l ids
ClosesLast-next l ids ne more (inl (e, _)) = absurd (more e)
ClosesLast-next l ids ne more (inr (k, some_, last, e)) = inr (suc k, before, last, e)
  where
    before : (j : ℕ) → j ≤ suc k → open_layer_at j l ≢ []
    before zero h = ne
    before (suc j) h = some_ j (omega arith)

open_layer_at-zero : (j : ℕ) → j ≤ 0 → (x : Node) (xs : List Node) → open_layer_at j (x ∷ xs) ≢ []
open_layer_at-zero zero h x xs = λ n. cc
open_layer_at-zero (suc j) h x xs = absurd (omega arith)

collapse_layers-lem :
    (fuel : ℕ) (l : List Node)
    → layers l < fuel
    → (ids : List String) × (collapse_layers fuel l ≡ some ids) × ClosesLast l ids
unfolding collapse_layers
collapse_layers-lem zero l h = absurd (omega arith)
collapse_layers-lem (suc fuel) [] h = ([], refl, inl (refl, refl))
collapse_layers-lem (suc fuel) (x ∷ xs) h = go (keep is_open (next_layer (x ∷ xs))) refl (
    collapse_layers-lem fuel (keep is_open (next_layer (x ∷ xs))) (
      omega (
        arith,
        layers-keep is_open (next_layer (x ∷ xs)),
        layers-next_layer (x ∷ xs),
        layers-cons x xs,
      )))
  where
    below : List Node
    below = keep is_open (next_layer (x ∷ xs))

    top : below ≡ [] → ClosesLast (x ∷ xs) (toggle_groups (x ∷ xs))
    top e = inr (0, λ j h n. open_layer_at-zero j h x xs n, e, refl)

    go :
        (next : List Node)
        → below ≡ next
        → (ids : List String) × (collapse_layers fuel below ≡ some ids) × ClosesLast below ids
        → (ids : List String) × ((elim next as (λ _. Option (List String)) [
          | [] ↦ some (toggle_groups (x ∷ xs))
          | _ ∷ _ ↦ collapse_layers fuel below
        ])
            ≡ some ids)
          × ClosesLast (x ∷ xs) ids
    go [] e _ = (toggle_groups (x ∷ xs), refl, top e)
    go (n ∷ ns) e (ids, r, o) = (ids, r, ClosesLast-next (x ∷ xs) ids (λ n. cc) (λ n. cc) o)

-- For every grouped list, the collapse button toggles the open groups of the deepest layer that is
-- reached through open groups and has any, all of them in order, and no group below them is open;
-- where no root is open it toggles nothing. The loop always ends.
pub collapse_all_groups-ClosesLast :
    (roots : List Node)
    → (ids : List String) × (collapse_all_groups roots ≡ some ids)
      × ClosesLast (keep is_open roots) ids
unfolding collapse_all_groups
collapse_all_groups-ClosesLast roots =
    collapse_layers-lem (suc (layers roots)) (keep is_open roots)
      (omega (arith, layers-keep is_open roots))
