-- ===== src/GroupExpand/Expand.antt =====
-- Which groups `expandAllGroups` toggles.
use playground_azure_user_sy.Prelude.{
  ℕ, zero, suc, ◌<◌, String, ◌≡◌, refl, sym, ap, ◌≢◌, ◌⊎◌, Option, some, List, [], ◌∷◌, arith, inl,
  inr,
}
use playground_azure_user_sy.GroupExpand.{
  Node, next_layer, layers, is_closed, keep, toggle_groups, expand_layers, expand_all_groups,
}
use playground_azure_user_sy.GroupExpand.Layers.{layer_at, layers-next_layer, layers-cons}

abbrev closed_at : ℕ → List Node → List Node
closed_at k l = keep is_closed (layer_at k l)

-- What is toggled, of the layers below `l`: the closed nodes of the first layer that has some.
abbrev pub OpensFirst : List Node → List String → Type 0
OpensFirst l ids =
    (((k : ℕ) → closed_at k l ≡ []) × (ids ≡ []))
    ⊎ ((k : ℕ) × (closed_at k l ≢ [])
        × ((j : ℕ) → j < k → closed_at j l ≡ [])
        × (ids ≡ toggle_groups (closed_at k l)))

layer_at-nil : (k : ℕ) → closed_at k [] ≡ []
unfolding next_layer
layer_at-nil zero = refl
layer_at-nil (suc k) = layer_at-nil k

-- Below a layer with no closed node.
OpensFirst-next :
    (l : List Node) (ids : List String)
    → keep is_closed l ≡ []
    → OpensFirst (next_layer l) ids
    → OpensFirst l ids
OpensFirst-next l ids open_ (inl (never, e)) = inl (all_open, e)
  where
    all_open : (k : ℕ) → closed_at k l ≡ []
    all_open zero = open_
    all_open (suc k) = never k
OpensFirst-next l ids open_ (inr (k, found, before, e)) = inr (suc k, found, before', e)
  where
    before' : (j : ℕ) → j < suc k → closed_at j l ≡ []
    before' zero h = open_
    before' (suc j) h = before j (omega arith)

expand_layers-lem :
    (fuel : ℕ) (l : List Node)
    → layers l < fuel
    → (ids : List String) × (expand_layers fuel l ≡ some ids) × OpensFirst l ids
unfolding expand_layers
expand_layers-lem zero l h = absurd (omega arith)
expand_layers-lem (suc fuel) [] h = ([], refl, inl (layer_at-nil, refl))
expand_layers-lem (suc fuel) (x ∷ xs) h = go (keep is_closed (x ∷ xs)) refl (
    expand_layers-lem fuel (next_layer (x ∷ xs))
      (omega (arith, layers-next_layer (x ∷ xs), layers-cons x xs)))
  where
    below : List Node
    below = next_layer (x ∷ xs)

    go :
        (closed : List Node)
        → keep is_closed (x ∷ xs) ≡ closed
        → (ids : List String) × (expand_layers fuel below ≡ some ids) × OpensFirst below ids
        → (ids : List String) × ((elim closed as (λ _. Option (List String)) [
          | [] ↦ expand_layers fuel below
          | c ∷ cs ↦ some (toggle_groups (c ∷ cs))
        ])
            ≡ some ids)
          × OpensFirst (x ∷ xs) ids
    go [] e (ids, r, o) = (ids, r, OpensFirst-next (x ∷ xs) ids e o)
    go (c ∷ cs) e _ = (
      toggle_groups (c ∷ cs),
      refl,
      inr (0, λ n. cc, λ j h. absurd (omega arith), ap toggle_groups (sym e)),
    )

-- For every grouped list, the expand button toggles the closed nodes of the topmost layer that has
-- any, all of them in order, and the layers above have none; where no layer has a closed node it
-- toggles nothing. The loop always ends.
pub expand_all_groups-OpensFirst :
    (roots : List Node)
    → (ids : List String) × (expand_all_groups roots ≡ some ids) × OpensFirst roots ids
unfolding expand_all_groups
expand_all_groups-OpensFirst roots = expand_layers-lem (suc (layers roots)) roots (omega arith)
