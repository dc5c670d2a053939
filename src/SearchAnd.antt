-- ===== src/SearchAnd.antt =====
-- addons_OCA/web/web_search_with_and/static/src/js: a completion that is chosen with the shift key
-- is added to the search by "and". Here: control_panel_model_extension.js, the query.
pub mod SearchBar
pub mod Query
pub mod Domain
pub mod Widening
pub mod Keys
mod Examples
use playground_azure_user_sy.Prelude.{
  ℕ, String, Bool, true, false, ◌&&◌, ◌||◌, Option, none, some, List, [], ◌∷◌, ◌++◌, ◌==◌, ℕ_eq,
  String_eq, if◌then◌else◌,
}

-- The id of a group: that of a filter, or a number that `Math.random` drew, which is no such id.
pub data GroupId : Type 0 where
  filter_group : ℕ → GroupId
  drawn_group : ℕ → GroupId

abbrev pub same_group_id : GroupId → GroupId → Bool
same_group_id (filter_group m) (filter_group n) = m == n
same_group_id (drawn_group m) (drawn_group n) = m == n
same_group_id (filter_group m) (drawn_group n) = false
same_group_id (drawn_group m) (filter_group n) = false

-- An element of the query.
pub record QueryElem : Type 0 where
  pub filter_id : ℕ
  pub group_id : GroupId
  pub label : String
  pub value : String
  pub operator : String

-- What is passed to `addAutoCompletionValues`.
pub record Completion : Type 0 where
  pub filter_id : ℕ
  pub label : String
  pub value : String
  pub operator : String
  pub is_shift_key : Bool

-- An element is known by its filter, its value and its operator.
abbrev pub is_elem : ℕ → String → String → QueryElem → Bool
is_elem filter_id value operator e =
    e.filter_id == filter_id && e.value == value && e.operator == operator

-- `this.state.query.find(…)`, as a test, and the assignment of the label to what it finds.
unfoldable pub has_elem : ℕ → String → String → List QueryElem → Bool
has_elem filter_id value operator [] = false
has_elem filter_id value operator (e ∷ es) =
    is_elem filter_id value operator e || has_elem filter_id value operator es

abbrev pub has_completion : Completion → List QueryElem → Bool
has_completion c query = has_elem c.filter_id c.value c.operator query

unfoldable pub relabel : Completion → List QueryElem → List QueryElem
relabel c [] = []
relabel c (e ∷ es) =
    let rest = relabel c es in
    if is_elem c.filter_id c.value c.operator e then record e { label = c.label } ∷ es else e ∷ rest

-- `groups` gives the group of a filter, and `drawn` is what `Math.random` draws.
abbrev pub elem_of : (ℕ → ℕ) → ℕ → Completion → QueryElem
elem_of groups drawn c = record {
  filter_id = c.filter_id;
  group_id = if c.is_shift_key then drawn_group drawn else filter_group (groups c.filter_id);
  label = c.label;
  value = c.value;
  operator = c.operator;
}

unfoldable pub add_auto_completion_values :
    (ℕ → ℕ) → ℕ → List QueryElem → Completion → List QueryElem
unfolding has_elem relabel
add_auto_completion_values groups drawn query c =
    if has_completion c query then relabel c query else query ++ elem_of groups drawn c ∷ []
