-- ===== src/Many2OneSimple/Examples.antt =====
-- A field that finds a product by its code, over a server's answers given as lists.
use playground_azure_user_sy.Prelude.{
  String, true, false, ◌≡◌, refl, Option, none, some, [], ◌∷◌, if◌then◌else◌, ◌==◌, String_eq,
}
use playground_azure_user_sy.Many2OneSimple.{
  init_config, SearchTerm, prefix_operator, term, SimpleField, request, FoundRecord, FieldValue,
  WebClient, run_events,
}
use playground_azure_user_sy.Many2OneSimple.Search.{search_events, search-found}

abbrev stored : Option FieldValue → Option FoundRecord → Option FieldValue
stored old none = none
stored old (some r) = some (record { id = "p"; res_id = r.id; display_name = r.display_name })

abbrev shown : Option FieldValue → String
shown none = ""
shown (some v) = v.display_name

abbrev saleable : SearchTerm
saleable = record { field = "sale_ok"; oper = "="; operand = "true" }

abbrev purchasable : SearchTerm
purchasable = record { field = "purchase_ok"; oper = "="; operand = "true" }

abbrev rentable : SearchTerm
rentable = record { field = "rent_ok"; oper = "="; operand = "true" }

abbrev client : WebClient
client = record {
  set_value = stored;
  format_value = shown;
  matches = λ r s. s == r;
  domain =
      prefix_operator "|"
      ∷ prefix_operator "|"
      ∷ term saleable
      ∷ term purchasable
      ∷ term rentable
      ∷ [];
  context = [];
  formview_id = λ n. n;
  append = λ s t. if t == "code" then "default_code" else s;
}

-- A field with the attribute `regex`, searched by the code.
abbrev product : SimpleField
product = record {
  config = record {
    can_create = true;
    can_write = false;
    regex = some "A7";
    no_open = false;
    search = record { field = "code"; oper = "=" };
  };
  is_dirty = false;
  input = "";
  value = none;
  pending = 0;
}

abbrev desk : FoundRecord
desk = record { id = 7; display_name = "Desk" }

abbrev desk_value : FieldValue
desk_value = record { id = "p"; res_id = 7; display_name = "Desk" }

-- The domain asks for one of three terms. Of its two operators the request has only one, so that
-- it asks for one of the first two terms, and for the third.
search-found_example : run_events client product (search_events "A7" (desk ∷ [])) ≡ (
  record product { is_dirty = false; value = some desk_value; input = "Desk" },
  request (record {
    domain =
        prefix_operator "|"
        ∷ term saleable
        ∷ term purchasable
        ∷ term rentable
        ∷ term (record { field = "code"; oper = "="; operand = "A7" })
        ∷ [];
    limit = 1;
  })
      ∷ [],
)
search-found_example = search-found client product "A7" desk [] (refl, refl)

-- Creation needs the attribute, or none, and no option against it; the search is by id by default.
product_init :
    init_config
      (record { can_create = none; can_write = some false; regex = some "A7" })
      (record {
        no_create = false;
        no_regex = false;
        no_open = false;
        search = some (record { field = "code"; oper = "=" });
      })
      (record { no_open = none; search = none })
    ≡ product.config
unfolding init_config
product_init = refl
