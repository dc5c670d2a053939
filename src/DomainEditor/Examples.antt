-- ===== src/DomainEditor/Examples.antt =====
-- The theorems about selected records and groups at partners grouped by country.
use playground_azure_user_sy.Prelude.{
  ℕ, String, Bool, true, false, List, [], ◌∷◌, map, ◌==◌, String_eq, ◌≡◌, refl,
}
use playground_azure_user_sy.DomainEditor.{
  text_operand, bool_operand, Leaf, leaf, DialogState, get_domain,
}
use playground_azure_user_sy.DomainEditor.Meaning.{
  DomainExpr, term, either, print_all, domain_holds,
}
use playground_azure_user_sy.DomainEditor.Groups.{Term, any_term}
use playground_azure_user_sy.DomainEditor.Selection.{single, with_records, get_domain-groups}
use playground_azure_user_sy.DomainEditor.Narrowed.{NarrowGroup, narrow_group, get_domain-narrow}

abbrev active : Leaf
active = record { field = "active"; operator = "="; operand = bool_operand true }

abbrev country : String → Leaf
country code = record { field = "country"; operator = "="; operand = text_operand code }

abbrev countries : List (Term × List ℕ)
countries =
    ((1, country "AT"), 4 ∷ 5 ∷ []) ∷ ((2, country "BE"), []) ∷ ((3, country "DE"), 6 ∷ []) ∷ []

-- A record that is active, in Spain.
abbrev holds : Leaf → Bool
holds a = a.field == "active"

abbrev all_countries : DialogState
all_countries = record {
  domain = [];
  is_grouped = true;
  groups = map single countries;
  all_checked = true;
}

get_domain-groups_example :
    domain_holds holds (get_domain 9 all_countries []) ≡ any_term holds (with_records countries)
get_domain-groups_example =
    get_domain-groups holds 9 all_countries [] countries (1, country "AT") ((3, country "DE") ∷ [])
      refl refl refl refl refl

abbrev austria : NarrowGroup
austria = record { base_ref = 1; own = (2, country "AT"); first_id = 4; more_ids = 5 ∷ [] }

abbrev germany : NarrowGroup
germany = record { base_ref = 3; own = (4, country "DE"); first_id = 6; more_ids = [] }

abbrev active_countries : DialogState
active_countries = record {
  domain = leaf 0 active ∷ [];
  is_grouped = true;
  groups = map (narrow_group active) (austria ∷ germany ∷ []);
  all_checked = true;
}

-- The record in Spain is among those of the two other countries.
get_domain-narrow_example : domain_holds holds (get_domain 9 active_countries []) ≡ holds active
get_domain-narrow_example =
    get_domain-narrow holds 9 0 active_countries [] active austria (germany ∷ []) refl refl refl
      refl refl refl

abbrev two_countries : List DomainExpr
two_countries = either (term 1 (country "AT")) (term 2 (country "DE")) ∷ term 3 active ∷ []

abbrev some_records : DialogState
some_records = record {
  domain = print_all two_countries;
  is_grouped = false;
  groups = [];
  all_checked = false;
}
