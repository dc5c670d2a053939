-- ===== src/GroupExpand.antt =====
-- addons_OCA/web/web_group_expand/static/src/js/web_group_expand.js: the two buttons that expand
-- or collapse a grouped list by one layer.
pub mod Layers
pub mod Expand
pub mod Collapse
mod Examples
use playground_azure_user_sy.Prelude.{
  ℕ, zero, suc, String, Bool, true, false, not, Option, none, some, List, [], ◌∷◌, ◌++◌, map,
  if◌then◌else◌, max,
}

-- A datapoint of the list: a group with the groups or records below it (`data`), or a record,
-- which has no `isOpen`. Each has its `id`.
mutual
  pub data Node : Type 0 where
    group : String → Bool → Nodes → Node
    record_point : String → Node

  pub data Nodes : Type 0 where
    nil : Nodes
    cons : Node → Nodes → Nodes

abbrev pub to_list : Nodes → List Node
to_list nil = []
to_list (cons x xs) = x ∷ to_list xs

abbrev id_of : Node → String
id_of (group id open_ below) = id
id_of (record_point id) = id

-- `group.isOpen`, as a condition: the field that a record lacks counts as false.
abbrev pub is_open : Node → Bool
is_open (group id open_ below) = open_
is_open (record_point id) = false

abbrev pub is_closed : Node → Bool
is_closed n = not (is_open n)

-- `group.data`. The loops read it of open groups only.
abbrev pub children : Node → List Node
children (group id open_ below) = to_list below
children (record_point id) = []

-- `Array.prototype.filter`
abbrev pub keep : (Node → Bool) → List Node → List Node
keep p [] = []
keep p (x ∷ xs) = let rest = keep p xs in if p x then x ∷ rest else rest

-- `_.flatten(layer.map(group => group.data), true)`
unfoldable pub next_layer : List Node → List Node
next_layer [] = []
next_layer (x ∷ xs) = children x ++ next_layer xs

-- The ids that `_toggleGroups` passes to `model.toggleGroup`, in order.
abbrev pub toggle_groups : List Node → List String
toggle_groups = map id_of

-- The loop of `expandAllGroups`; `none` if the fuel runs out. What is returned is what is toggled.
unfoldable pub expand_layers : ℕ → List Node → Option (List String)
expand_layers zero layer = none
expand_layers (suc fuel) layer =
    let rest = expand_layers fuel (next_layer layer) in
    let closed = keep is_closed layer in
    elim layer [
      | [] ↦ some []
      | _ ∷ _ ↦ elim closed [ [] ↦ rest | c ∷ cs ↦ some (toggle_groups (c ∷ cs)) ]
    ]

-- The loop of `collapseAllGroups`, from a layer of open groups.
unfoldable pub collapse_layers : ℕ → List Node → Option (List String)
collapse_layers zero layer = none
collapse_layers (suc fuel) layer =
    let next = keep is_open (next_layer layer) in
    let rest = collapse_layers fuel next in
    let collapsed = toggle_groups layer in
    elim layer [ [] ↦ some [] | _ ∷ _ ↦ elim next [ [] ↦ some collapsed | _ ∷ _ ↦ rest ] ]

-- How many layers the tree has.
mutual
  height : Node → ℕ
  height (group id open_ below) = suc (height_all below)
  height (record_point id) = 1

  height_all : Nodes → ℕ
  height_all nil = 0
  height_all (cons x xs) = max (height x) (height_all xs)

unfoldable pub layers : List Node → ℕ
unfolding height height_all
layers [] = 0
layers (x ∷ xs) = max (height x) (layers xs)

-- `expandAllGroups` and `collapseAllGroups` on the renderer's `state.data`.
unfoldable pub expand_all_groups : List Node → Option (List String)
expand_all_groups roots = expand_layers (suc (layers roots)) roots

unfoldable pub collapse_all_groups : List Node → Option (List String)
collapse_all_groups roots = collapse_layers (suc (layers roots)) (keep is_open roots)
