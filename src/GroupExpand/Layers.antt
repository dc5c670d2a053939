-- ===== src/GroupExpand/Layers.antt =====
-- The layers of a tree of groups.
use playground_azure_user_sy.Prelude.{
  ℕ, zero, suc, ◌-◌, ◌≤◌, ◌<◌, max, Bool, ◌≡◌, refl, List, [], ◌∷◌, ◌++◌, arith,
}
use playground_azure_user_sy.GroupExpand.{
  Node, Nodes, group, record_point, nil, cons, to_list, keep, next_layer, height_all, layers,
  is_open,
}

-- The nodes at depth `k` below a layer.
abbrev pub layer_at : ℕ → List Node → List Node
layer_at zero l = l
layer_at (suc k) l = layer_at k (next_layer l)

-- The open groups at depth `k` that are reached through open groups, from a layer of open groups.
abbrev pub open_layer_at : ℕ → List Node → List Node
open_layer_at zero l = l
open_layer_at (suc k) l = open_layer_at k (keep is_open (next_layer l))

layers-append : (xs ys : List Node) → layers (xs ++ ys) ≡ max (layers xs) (layers ys)
unfolding layers
layers-append [] ys = omega arith
layers-append (x ∷ xs) ys = omega (arith, layers-append xs ys)

layers-to_list : (xs : Nodes) → layers (to_list xs) ≡ height_all xs
unfolding layers
layers-to_list nil = refl
layers-to_list (cons x xs) = omega (arith, layers-to_list xs)

pub layers-next_layer : (l : List Node) → layers (next_layer l) ≤ layers l - 1
unfolding layers next_layer
layers-next_layer [] = omega arith
layers-next_layer (group id o below ∷ xs) = omega (
  arith,
  layers-append (to_list below) (next_layer xs),
  layers-to_list below,
  layers-next_layer xs,
)
layers-next_layer (record_point id ∷ xs) = omega (arith, layers-next_layer xs)

pub layers-cons : (x : Node) (l : List Node) → 0 < layers (x ∷ l)
unfolding layers
layers-cons (group id o below) l = omega arith
layers-cons (record_point id) l = omega arith

pub layers-keep : (p : Node → Bool) (l : List Node) → layers (keep p l) ≤ layers l
unfolding layers
layers-keep p [] = omega arith
layers-keep p (x ∷ xs) = ground (arith, layers-keep p xs)
