-- ===== src/HumanDomain.antt =====
-- addons_OCA/web/web_advanced_search/static/src/js/human_domain.js: the text of a domain that the
-- domain selector shows. A text is the list of its code units.
pub mod Joins
mod Examples
use playground_azure_user_sy.Prelude.{
  ℕ, zero, suc, Bool, true, false, ◌&&◌, ◌||◌, Option, none, some, List, [], ◌∷◌, ◌++◌, leb,
  if◌then◌else◌, ◌==◌, ℕ_eq,
}

abbrev pub Text : Type 0
Text = List ℕ

-- `join` of an array.
abbrev join_texts : Text → List Text → Text
join_texts sep [] = []
join_texts sep (t ∷ []) = t
join_texts sep (t ∷ u ∷ ts) = t ++ sep ++ join_texts sep (u ∷ ts)

abbrev add_first : ℕ → List Text → List Text
add_first c [] = (c ∷ []) ∷ []
add_first c (part ∷ parts) = (c ∷ part) ∷ parts

-- `split(".")`
abbrev split_dots : Text → List Text
split_dots [] = [] ∷ []
split_dots (c ∷ t) = let rest = split_dots t in if c == 46 then [] ∷ rest else add_first c rest

-- The white space that `trim` removes.
abbrev is_white_space : ℕ → Bool
is_white_space c =
    leb 9 c && leb c 13
    || c == 32
    || c == 160
    || c == 5760
    || leb 8192 c && leb c 8202
    || c == 8232
    || c == 8233
    || c == 8239
    || c == 8287
    || c == 12288
    || c == 65279

abbrev trim_start : Text → Text
trim_start [] = []
trim_start (c ∷ t) = let rest = trim_start t in if is_white_space c then rest else c ∷ t

abbrev trim_end : Text → Text
trim_end [] = []
trim_end (c ∷ t) = elim (trim_end t) [
  | [] ↦ if is_white_space c then [] else c ∷ []
  | d ∷ u ↦ c ∷ d ∷ u
]

abbrev trim_text : Text → Text
trim_text t = trim_end (trim_start t)

pub data JoinOperator : Type 0 where
  all_of : JoinOperator
  any_of : JoinOperator
  none_of : JoinOperator

-- `join_mapping`: " and ", " or ", " is not ".
abbrev join_mapping : JoinOperator → Text
join_mapping all_of = 32 ∷ 97 ∷ 110 ∷ 100 ∷ 32 ∷ []
join_mapping any_of = 32 ∷ 111 ∷ 114 ∷ 32 ∷ []
join_mapping none_of = 32 ∷ 105 ∷ 115 ∷ 32 ∷ 110 ∷ 111 ∷ 116 ∷ 32 ∷ []

-- The value of a condition: a boolean, an array of texts, or a value with its text.
pub data LeafValue : Type 0 where
  bool_value : Bool → LeafValue
  list_value : List Text → LeafValue
  text_value : Text → LeafValue

pub record PageField : Type 0 where
  pub name : Text
  pub string : Text

-- A condition: `fieldSelector.pages` are the fields of each step of its chain.
pub record SelectorLeaf : Type 0 where
  pub chain : Text
  pub pages : List (List PageField)
  pub operator : Text
  pub value : LeafValue

mutual
  pub data DomainNode : Type 0 where
    leaf_node : SelectorLeaf → DomainNode
    tree_node : JoinOperator → DomainNodes → DomainNode

  pub data DomainNodes : Type 0 where
    no_nodes : DomainNodes
    more_nodes : DomainNode → DomainNodes → DomainNodes

abbrev is_text : Text → Text → Bool
is_text [] [] = true
is_text [] (c ∷ t) = false
is_text (c ∷ s) [] = false
is_text (c ∷ s) (d ∷ t) = c == d && is_text s t

-- `_.findWhere(page, {name: element})`
abbrev find_where : List PageField → Text → Option PageField
find_where [] element = none
find_where (f ∷ fs) element =
    let rest = find_where fs element in if is_text f.name element then some f else rest

-- `.string || element`, `none` for the exception where no field is found.
abbrev chain_text : Option PageField → Text → Option Text
chain_text none element = none
chain_text (some f) element = some (elim f.string [ [] ↦ element | c ∷ t ↦ c ∷ t ])

abbrev pub add_text : Option Text → Option (List Text) → Option (List Text)
add_text (some t) (some ts) = some (t ∷ ts)
add_text (some t) none = none
add_text none ts = none

-- The loop over the elements of the chain.
abbrev chain_texts : List (List PageField) → List Text → Option (List Text)
chain_texts pages [] = some []
chain_texts [] (element ∷ elements) = none
chain_texts (page ∷ pages) (element ∷ elements) =
    add_text (chain_text (find_where page element) element) (chain_texts pages elements)

-- `'", "'` joins the texts of an array.
abbrev list_separator : Text
list_separator = 34 ∷ 44 ∷ 32 ∷ 34 ∷ []

abbrev bool_text : Bool → Text
bool_text true = 116 ∷ 114 ∷ 117 ∷ 101 ∷ []
bool_text false = 102 ∷ 97 ∷ 108 ∷ 115 ∷ 101 ∷ []

-- `operator_mapping` of the web client gives an operator its text, if it has one.
module _ (operator_mapping : Text → Option Text) where
  -- `operator || this.operator`
  abbrev operator_or : Option Text → Text → Text
  operator_or none operator = operator
  operator_or (some []) operator = operator
  operator_or (some (c ∷ t)) operator = c ∷ t

  -- "set" and "not set".
  abbrev set_operator : Bool → Text
  set_operator true = 115 ∷ 101 ∷ 116 ∷ []
  set_operator false = 110 ∷ 111 ∷ 116 ∷ 32 ∷ 115 ∷ 101 ∷ 116 ∷ []

  -- The texts of the operator and the value.
  abbrev value_texts : Text → LeafValue → Text × Text
  value_texts operator (bool_value b) =
      if is_text operator (61 ∷ [])
      then (operator_or (operator_mapping (set_operator b)) operator, [])
      else (operator_or (operator_mapping operator) operator, 34 ∷ bool_text b ++ 34 ∷ [])
  value_texts operator (list_value ts) = (
    operator_or (operator_mapping operator) operator,
    91 ∷ 34 ∷ join_texts list_separator ts ++ 34 ∷ 93 ∷ [],
  )
  value_texts operator (text_value t) =
      (operator_or (operator_mapping operator) operator, 34 ∷ t ++ 34 ∷ [])

  abbrev leaf_text : Option (List Text) → Text × Text → Option Text
  leaf_text none w = none
  leaf_text (some ts) w = some (trim_text (join_texts (8594 ∷ []) ts ++ 32 ∷ w.0 ++ 32 ∷ w.1))

  -- `DomainLeaf`
  unfoldable pub domain_leaf : SelectorLeaf → Option Text
  domain_leaf l =
      leaf_text (chain_texts l.pages (split_dots l.chain)) (value_texts l.operator l.value)

  -- The text between parentheses.
  abbrev pub tree_text : JoinOperator → Option (List Text) → Option Text
  tree_text o none = none
  tree_text o (some ts) = some (40 ∷ join_texts (join_mapping o) ts ++ 41 ∷ [])

  -- `DomainTree`, and the texts of the children.
  unfoldable mutual
    unfolding domain_leaf

    pub domain_node : DomainNode → Option Text
    domain_node (leaf_node l) = domain_leaf l
    domain_node (tree_node o nodes) = tree_text o (domain_nodes nodes)

    pub domain_nodes : DomainNodes → Option (List Text)
    domain_nodes no_nodes = some []
    domain_nodes (more_nodes n nodes) = add_text (domain_node n) (domain_nodes nodes)

  abbrev drop_last : Text → Text
  drop_last [] = []
  drop_last (c ∷ []) = []
  drop_last (c ∷ d ∷ t) = c ∷ drop_last (d ∷ t)

  -- `slice(1, -1)`
  abbrev slice_ends : Text → Text
  slice_ends [] = []
  slice_ends (c ∷ t) = drop_last t

  abbrev pub sliced : Option Text → Option Text
  sliced none = none
  sliced (some t) = some (slice_ends t)

  -- `getHumanDomain` of the selector, which is the tree at the top.
  unfoldable pub get_human_domain : JoinOperator → DomainNodes → Option Text
  unfolding domain_node domain_nodes
  get_human_domain o nodes = sliced (domain_node (tree_node o nodes))
