-- ===== src/GroupExpand/Examples.antt =====
-- A tree with an open and a closed root, and one closed group below the open root.
use playground_azure_user_sy.Prelude.{◌≡◌, refl, true, false, some, List, [], ◌∷◌, String}
use playground_azure_user_sy.GroupExpand.{
  Node, group, record_point, nil, cons, expand_all_groups, collapse_all_groups, layers, next_layer,
  expand_layers, collapse_layers, keep, is_open,
}
use playground_azure_user_sy.GroupExpand.Expand.{OpensFirst, expand_all_groups-OpensFirst}
use playground_azure_user_sy.GroupExpand.Collapse.{ClosesLast, collapse_all_groups-ClosesLast}

abbrev tree : List Node
tree =
    group "a" true
      (cons (group "a1" true (cons (record_point "r") nil)) (cons (group "a2" false nil) nil))
    ∷ group "b" true nil
    ∷ []

expand_tree : expand_all_groups tree ≡ some ("a2" ∷ [])
unfolding expand_all_groups expand_layers layers next_layer
expand_tree = refl

collapse_tree : collapse_all_groups tree ≡ some ("a1" ∷ [])
unfolding collapse_all_groups collapse_layers layers next_layer
collapse_tree = refl

-- With all groups open, the expand button toggles the records.
expand_records :
    expand_all_groups (group "a" true (cons (record_point "r") nil) ∷ []) ≡ some ("r" ∷ [])
unfolding expand_all_groups expand_layers layers next_layer
expand_records = refl

expand_all_groups-OpensFirst_example :
    (ids : List String) × (expand_all_groups tree ≡ some ids) × OpensFirst tree ids
expand_all_groups-OpensFirst_example = expand_all_groups-OpensFirst tree

collapse_all_groups-ClosesLast_example :
    (ids : List String) × (collapse_all_groups tree ≡ some ids) × ClosesLast (keep is_open tree) ids
collapse_all_groups-ClosesLast_example = collapse_all_groups-ClosesLast tree
