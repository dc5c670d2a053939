-- ===== src/AdvancedSearch/Examples.antt =====
-- The theorems about custom filters at a date, a name and two relational fields.
use playground_azure_user_sy.Prelude.{
  String, true, none, some, List, [], ◌∷◌, ◌==◌, ℕ_eq, if◌then◌else◌, ◌≡◌, refl,
}
use playground_azure_user_sy.AdvancedSearch.{
  SearchField, FieldType, relational, timed, other_type, SearchOperator, Condition, FilterItem,
  index_of_field, on_m2x_data_changed,
}
use playground_azure_user_sy.AdvancedSearch.Conditions.{
  with_value, on_m2x_data_changed-selected, AllValid,
}

abbrev fields : List SearchField
fields =
    record { name = "partner_id"; label = "Customer"; type = relational }
    ∷ record { name = "user_id"; label = "Salesperson"; type = relational }
    ∷ record { name = "date"; label = "Date"; type = timed }
    ∷ []

abbrev operators : FieldType → List SearchOperator
operators relational = record { symbol = "="; description = "is equal to"; value = none } ∷ []
operators timed = record { symbol = "between"; description = "is between"; value = none } ∷ []
operators other_type = []

abbrev customer : Condition
customer = record { field = 0; operator = 0; values = "" ∷ []; displayed_value = ""; index = 0 }

abbrev salesperson : Condition
salesperson = record { field = 1; operator = 0; values = "" ∷ []; displayed_value = ""; index = 1 }

abbrev period : Condition
period = record {
  field = 2;
  operator = 0;
  values = "01/01" ∷ "31/01" ∷ [];
  displayed_value = "";
  index = 2;
}

-- A field was selected last in the second condition.
abbrev item : FilterItem
item = record {
  is_open = true;
  conditions = customer ∷ salesperson ∷ period ∷ [];
  condition_index = some 1;
  next_id = 3;
}

abbrev unchanged : Condition → Condition
unchanged c = c

abbrev same_date : String → String
same_date s = s

-- A customer is chosen in the first condition, and no condition gets it.
on_m2x_data_changed-selected_example :
    (on_m2x_data_changed fields item "partner_id" "7" "Azure").conditions ≡ (
      if salesperson.field == 0
      then customer ∷ with_value "7" "Azure" salesperson ∷ period ∷ []
      else customer ∷ salesperson ∷ period ∷ [])
unfolding index_of_field
on_m2x_data_changed-selected_example =
    on_m2x_data_changed-selected fields item "partner_id" "7" "Azure" 0 salesperson (customer ∷ [])
      (period ∷ []) refl refl refl refl refl

item-AllValid :
    AllValid fields operators customer unchanged "and" same_date same_date item.conditions
item-AllValid = ((_, refl), ((_, refl), ((_, refl), tt)))
