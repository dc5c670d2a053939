-- ===== src/HumanDomain/Examples.antt =====
-- The theorem about the texts of domains, at a condition that shall not hold.
use playground_azure_user_sy.Prelude.{Option, none, some, [], ◌∷◌, ◌≡◌, refl}
use playground_azure_user_sy.HumanDomain.{
  Text, all_of, none_of, text_value, SelectorLeaf, DomainNodes, leaf_node, tree_node, no_nodes,
  more_nodes, domain_leaf, domain_node, get_human_domain,
}
use playground_azure_user_sy.HumanDomain.Joins.{get_human_domain-without_single, without_single}

abbrev no_operator_texts : Text → Option Text
no_operator_texts operator = none

-- The condition `a = "x"`, on the field "A".
abbrev condition : SelectorLeaf
condition = record {
  chain = 97 ∷ [];
  pages = (record { name = 97 ∷ []; string = 65 ∷ [] } ∷ []) ∷ [];
  operator = 61 ∷ [];
  value = text_value (120 ∷ []);
}

abbrev negated : DomainNodes
negated =
    more_nodes (tree_node none_of (more_nodes (leaf_node condition) no_nodes))
      (more_nodes (leaf_node condition) no_nodes)

get_human_domain-without_single_example :
    get_human_domain no_operator_texts all_of negated
    ≡ get_human_domain no_operator_texts all_of (
        more_nodes
          (tree_node all_of (more_nodes (leaf_node condition) no_nodes))
          (more_nodes (leaf_node condition) no_nodes))
unfolding without_single
get_human_domain-without_single_example =
    get_human_domain-without_single no_operator_texts all_of negated

-- The text of "not a" is that of "a": A = "x".
negated_text :
    get_human_domain no_operator_texts none_of (more_nodes (leaf_node condition) no_nodes)
    ≡ some (65 ∷ 32 ∷ 61 ∷ 32 ∷ 34 ∷ 120 ∷ 34 ∷ [])
unfolding get_human_domain domain_node domain_leaf
negated_text = refl
