-- ===== src/SearchAnd/Examples.antt =====
-- The theorems about the search at concrete sources and queries.
use playground_azure_user_sy.Prelude.{
  ℕ, String, Bool, true, false, ◌&&◌, ◌||◌, none, List, [], ◌∷◌, ◌==◌, ℕ_eq, String_eq, ◌≡◌, refl,
}
use playground_azure_user_sy.Prelude.Int.{pos}
use playground_azure_user_sy.SearchAnd.{
  filter_group, drawn_group, QueryElem, Completion, has_completion, has_elem,
}
use playground_azure_user_sy.SearchAnd.SearchBar.{Source, SearchBar, enter}
use playground_azure_user_sy.SearchAnd.Query.{IsUnique}
use playground_azure_user_sy.SearchAnd.Domain.{query_holds}
use playground_azure_user_sy.SearchAnd.Keys.{press, apply_effects, press_enter-narrows}

-- A filter on the name, in the query for "deco" and, with the shift key, for "gem".
abbrev deco_and_gem : List QueryElem
deco_and_gem =
    record {
      filter_id = 1;
      group_id = filter_group 7;
      label = "deco";
      value = "deco";
      operator = "ilike";
    }
    ∷ record {
      filter_id = 1;
      group_id = drawn_group 42;
      label = "gem";
      value = "gem";
      operator = "ilike";
    }
    ∷ []

abbrev groups : ℕ → ℕ
groups filter_id = 7

abbrev azure : Bool → Completion
azure shift = record {
  filter_id = 1;
  label = "azure";
  value = "azure";
  operator = "ilike";
  is_shift_key = shift;
}

-- A record whose name has "deco" and "gem" in it.
abbrev holds : ℕ → String → String → Bool
holds filter_id value operator = value == "deco" || value == "gem"

deco_and_gem-IsUnique : IsUnique deco_and_gem
unfolding has_elem
deco_and_gem-IsUnique = (refl, (refl, tt))

abbrev name_source : Source
name_source = record {
  active = true;
  label = "";
  value = none;
  filter_id = 1;
  filter_operator = "";
  operator = "ilike";
  expand = false;
  expanded = false;
  parent = none;
}

abbrev bar : SearchBar
bar = record {
  sources = name_source ∷ name_source ∷ [];
  focused_item = pos 1;
  input_value = "azure";
  is_shift_key = false;
  facets = 1;
}

abbrev parse : String → Source → String
parse label source = label

abbrev five : String → ℕ
five text = 5

press_enter-narrows_example :
    query_holds holds (apply_effects groups 43 deco_and_gem (press parse five bar enter true 5).1)
    ≡ (query_holds holds deco_and_gem
        && (has_completion (azure true) deco_and_gem || holds 1 "azure" "ilike"))
press_enter-narrows_example =
    press_enter-narrows parse five holds groups 43 deco_and_gem bar name_source 5 refl refl refl
      refl
