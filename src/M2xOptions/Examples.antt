-- ===== src/M2xOptions/Examples.antt =====
-- A many2one over two partners, with a limit of one record.
use playground_azure_user_sy.Prelude.{
  ℕ, ◌≤◌, ◌<◌, String, true, ◌≡◌, ◌↔◌, refl, none, some, List, [], ◌∷◌, length, ℕ_eq, String_eq,
}
use playground_azure_user_sy.Prelude.Int.{pos}
use playground_azure_user_sy.M2xOptions.{
  text, NodeOptions, no_options, IrOptions, parse_int, is_option_set,
}
use playground_azure_user_sy.M2xOptions.Limit.{set_limit, set_limit_idem, slice_to, exceeds}
use playground_azure_user_sy.M2xOptions.Dropdown.{
  Web, search_more, quick_create, create_and_edit, Found, Field, Request, record_item, dropdown,
  shows_search_more, shows_quick_create, shows_create_edit, search, search_request,
}
use playground_azure_user_sy.M2xOptions.Dropdown.Colors.{ids_of, actions_of}
use playground_azure_user_sy.M2xOptions.Dropdown.Sections.{
  id_list, shown_found, expected_actions, search-entries,
}
use playground_azure_user_sy.M2xOptions.Dropdown.Options.{search-default, search_off-overflow}

parse_limit : parse_int "  80 records" ≡ some (pos 80)
unfolding parse_int
parse_limit = refl

parse_no_digits : parse_int "all" ≡ none
unfolding parse_int
parse_no_digits = refl

abbrev web : Web
web = record {
  display_name = λ s. s;
  escape_html = λ s. s;
  trim = λ s. s;
  no_display_content = "-";
  search_more_label = "Search More...";
  create_label = λ s. s;
  create_edit_label = "Create and Edit...";
  no_results_label = "No results to show...";
  colored = λ c s. c;
}

abbrev no_params : IrOptions
no_params = record {
  ir_create = none;
  ir_create_edit = none;
  ir_limit = some "1";
  ir_search_more = none;
  ir_m2o_dialog = none;
  ir_field_limit_entries = none;
}

abbrev field : NodeOptions → Field
field node = record {
  node = node;
  ir = no_params;
  can_create = true;
  limit = some (pos 7);
  domain = [];
  blacklist = 9 ∷ [];
}

abbrev partners : List Found
partners = (1, "Azure") ∷ (2, "Deco") ∷ []

abbrev server : Request → List Found
server r = partners

abbrev colors : String → List ℕ → List Found
colors name ids = []

search_azure :
    let items = (search web server colors (field no_options) "A").1 in
    (ids_of items ≡ 1 ∷ [])
    × (actions_of items ≡ search_more ∷ quick_create "A" ∷ create_and_edit "A" ∷ [])
unfolding search dropdown shows_search_more shows_quick_create shows_create_edit set_limit parse_int
    exceeds slice_to record_item search_request is_option_set
search_azure = (refl, refl)

abbrev search_off : NodeOptions
search_off = record no_options { search_more = text "False" }

set_limit_twice :
    set_limit no_params no_options (set_limit no_params no_options none)
    ≡ set_limit no_params no_options none
set_limit_twice = set_limit_idem no_params no_options none

search-entries_example :
    let items = (search web server colors (field no_options) "A").1 in
    (ids_of items ≡ id_list (shown_found (field no_options) partners))
    × (actions_of items ≡ expected_actions web (field no_options) "A" partners)
search-entries_example = search-entries web server colors (field no_options) "A"

search-default_example :
    (length (ids_of (search web server colors (field no_options) "A").1) ≤ 1)
    × ((shows_search_more (field no_options) 2 ≡ true) ↔ (1 < 2))
search-default_example =
    search-default web server colors (field no_options) "A" 1 refl refl
      (unfold set_limit parse_int in refl)

search_off-overflow_example :
    ((search_request (field search_off) "A").limit ≡ some (pos 2))
    × (length (ids_of (search web server colors (field search_off) "A").1) ≡ 2)
search_off-overflow_example =
    search_off-overflow web server colors (field search_off) "A" 1 refl
      (unfold is_option_set in refl) (unfold set_limit parse_int in refl)
