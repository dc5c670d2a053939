-- ===== src/HumanDomain/Joins.antt =====
-- Which operators of the tree the text shows.
use playground_azure_user_sy.Prelude.{Option, none, some, [], ◌≡◌, refl, ap, ap₂, ◌∙◌}
use playground_azure_user_sy.HumanDomain.{
  Text, JoinOperator, all_of, DomainNode, leaf_node, tree_node, DomainNodes, no_nodes, more_nodes,
  add_text, tree_text, domain_node, domain_nodes, sliced, get_human_domain,
}

-- The operator of a tree that has at most one child is replaced by "and".
abbrev join_of : JoinOperator → DomainNodes → JoinOperator
join_of o no_nodes = all_of
join_of o (more_nodes n no_nodes) = all_of
join_of o (more_nodes n (more_nodes m nodes)) = o

unfoldable mutual
  pub without_single : DomainNode → DomainNode
  without_single (leaf_node l) = leaf_node l
  without_single (tree_node o nodes) = tree_node (join_of o nodes) (all_without_single nodes)

  pub all_without_single : DomainNodes → DomainNodes
  all_without_single no_nodes = no_nodes
  all_without_single (more_nodes n nodes) = more_nodes (without_single n) (all_without_single nodes)

module _ (operator_mapping : Text → Option Text) where
  add_text-single :
      (o : JoinOperator) (t : Option Text)
      → tree_text operator_mapping o (add_text t (some []))
        ≡ tree_text operator_mapping all_of (add_text t (some []))
  add_text-single o none = refl
  add_text-single o (some t) = refl

  tree_text-join_of :
      (o : JoinOperator) (nodes : DomainNodes)
      → tree_text operator_mapping o (domain_nodes operator_mapping nodes)
        ≡ tree_text operator_mapping (join_of o nodes) (domain_nodes operator_mapping nodes)
  unfolding domain_node domain_nodes
  tree_text-join_of o no_nodes = refl
  tree_text-join_of o (more_nodes n no_nodes) = add_text-single o (domain_node operator_mapping n)
  tree_text-join_of o (more_nodes n (more_nodes m nodes)) = refl

  mutual
    unfolding domain_node domain_nodes without_single all_without_single

    node-without_single :
        (n : DomainNode)
        → domain_node operator_mapping n ≡ domain_node operator_mapping (without_single n)
    node-without_single (leaf_node l) = refl
    node-without_single (tree_node o nodes) =
        tree_text-join_of o nodes
        ∙ ap (tree_text operator_mapping (join_of o nodes)) (nodes-without_single nodes)

    nodes-without_single :
        (nodes : DomainNodes)
        → domain_nodes operator_mapping nodes
          ≡ domain_nodes operator_mapping (all_without_single nodes)
    nodes-without_single no_nodes = refl
    nodes-without_single (more_nodes n nodes) =
        ap₂ add_text (node-without_single n) (nodes-without_single nodes)

  -- For every tree of conditions: the text stays the same when, at the top and wherever below, the
  -- operator of each part with one child, or none, is replaced by "and". A part that asks that its
  -- one child does not hold is shown like one that asks that it holds.
  pub get_human_domain-without_single :
      (o : JoinOperator) (nodes : DomainNodes)
      → get_human_domain operator_mapping o nodes
        ≡ get_human_domain operator_mapping (join_of o nodes) (all_without_single nodes)
  unfolding get_human_domain without_single
  get_human_domain-without_single o nodes =
      ap (sliced operator_mapping) (node-without_single (tree_node o nodes))
