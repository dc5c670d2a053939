-- ===== src/AdvancedSearch.antt =====
-- addons_OCA/web/web_advanced_search/static/src/js/control_panel/custom_filter_item.js: the
-- conditions of a custom filter, the values that a relational field reports, and the filters made
-- of the conditions.
pub mod Conditions
mod Examples
use Prim.Native.String.{◌++◌ as concat}
use playground_azure_user_sy.Prelude.{
  ℕ, zero, suc, ◌+◌, String, Bool, true, false, ◌&&◌, ◌||◌, Option, none, some, List, [], ◌∷◌, ◌++◌,
  map, get_elem?, if◌then◌else◌, ◌==◌, ℕ_eq, String_eq,
}

-- A field, with its generic type (`FIELD_TYPES`): `timed` is a date or a date with a time.
pub data FieldType : Type 0 where
  relational timed other_type : FieldType

pub record SearchField : Type 0 where
  pub name : String
  pub label : String
  pub type : FieldType

-- An operator, with the value that it brings along, if any, as a text of a domain.
pub record SearchOperator : Type 0 where
  pub symbol : String
  pub description : String
  pub value : Option String

-- A condition: the indices of its field and operator, its values as entered, the text shown for a
-- value, and the index that `_.uniqueId` gave it.
pub record Condition : Type 0 where
  pub field : ℕ
  pub operator : ℕ
  pub values : List String
  pub displayed_value : String
  pub index : ℕ

-- `condition_index` is none until a field is selected; `next_id` is the next unique id.
pub record FilterItem : Type 0 where
  pub is_open : Bool
  pub conditions : List Condition
  pub condition_index : Option ℕ
  pub next_id : ℕ

pub record DomainLeaf : Type 0 where
  pub field_name : String
  pub symbol : String
  pub operand : Option String

pub record PreFilter : Type 0 where
  pub description : String
  pub domain : List DomainLeaf

-- `this.fields.map(…).indexOf(name)`
unfoldable pub index_of_field : List SearchField → String → Option ℕ
index_of_field [] name = none
index_of_field (f ∷ fs) name =
    let rest = index_of_field fs name in
    if f.name == name then some 0 else elim rest [ none ↦ none | some i ↦ some (suc i) ]

abbrev is_at : Option ℕ → ℕ → Bool
is_at none i = false
is_at (some j) i = j == i

-- The rest of a handler, unless an exception has ended it.
infixl 5 ◌>>=◌
abbrev ◌>>=◌ {ℓ κ} : {A : Type ℓ} {B : Type κ} → Option A → (A → Option B) → Option B
none >>= f = none
some a >>= f = f a

-- The condition that the assignments of `_onM2xDataChanged` are made on: the first that has the
-- field and the index of the last selection.
unfoldable pub change_first : ℕ → Option ℕ → String → String → List Condition → List Condition
change_first field at id display_name [] = []
change_first field at id display_name (c ∷ cs) =
    let rest = change_first field at id display_name cs in
    if c.field == field && is_at at c.index
    then record c { values = id ∷ []; displayed_value = display_name } ∷ cs
    else c ∷ rest

-- `_onM2xDataChanged`, for the index of the field that reports a change, and for its name.
abbrev pub m2x_at : FilterItem → Option ℕ → String → String → FilterItem
m2x_at s none id display_name = s
m2x_at s (some i) id display_name = record s {
  conditions = change_first i s.condition_index id display_name s.conditions;
}

unfoldable pub on_m2x_data_changed :
    List SearchField → FilterItem → String → String → String → FilterItem
unfolding index_of_field change_first
on_m2x_data_changed fields s name id display_name =
    m2x_at s (index_of_field fields name) id display_name

-- `_addDefaultCondition`, with the condition that the web client adds.
unfoldable pub add_default_condition : Condition → FilterItem → FilterItem
add_default_condition default_condition s = record s {
  conditions = s.conditions ++ record default_condition { index = s.next_id } ∷ [];
  next_id = suc s.next_id;
}

-- Texts with a separator between them (`join`).
abbrev pub join : String → List String → String
join s [] = ""
join s (x ∷ xs) = elim xs [ [] ↦ x | y ∷ ys ↦ concat x (concat s (join s xs)) ]

abbrev text_of : Option String → String
text_of none = "undefined"
text_of (some s) = s

abbrev shown_value : Condition → String
shown_value c =
    if c.displayed_value == "" then text_of (get_elem? c.values 0) else c.displayed_value

abbrev quoted : String → String
quoted s = concat "\"" (concat s "\"")

-- `fields` and `operators` are those of the web client, `default_condition` the one that it adds,
-- `default_value` what it does to a condition whose field is not relational, `and_label` the
-- translation of "and", `parse` and `format` those of dates.
module _ (fields : List SearchField) (operators : FieldType → List SearchOperator)
    (default_condition : Condition) (default_value : Condition → Condition) (and_label : String)
    (parse : String → String) (format : String → String) where
  -- `_setDefaultValue`, where there is such a field.
  unfoldable set_default_value : Condition → Condition
  set_default_value c = elim (get_elem? fields c.field) [
    | none ↦ c
    | some f ↦ elim f.type [
      | relational ↦ record c { displayed_value = "" }
      | timed ↦ default_value c
      | other_type ↦ default_value c
    ]
  ]

  -- What `_onFieldSelect` does to the condition of that index: the web client sets the field, the
  -- first operator and the default value.
  unfoldable select_field : ℕ → ℕ → List Condition → List Condition
  unfolding set_default_value
  select_field index field [] = []
  select_field index field (c ∷ cs) =
      let rest = select_field index field cs in
      if c.index == index
      then set_default_value (record c { field = field; operator = 0 }) ∷ rest
      else c ∷ rest

  unfoldable on_field_select : FilterItem → ℕ → ℕ → FilterItem
  unfolding select_field
  on_field_select s index field = record s {
    conditions = select_field index field s.conditions;
    condition_index = some index;
  }

  -- The values in the domain, and the part of the description for them.
  abbrev pub domain_values : SearchOperator → FieldType → Condition → List (Option String)
  domain_values o t c = elim o.value [
    | some v ↦ some v ∷ []
    | none ↦ elim t [
      | timed ↦ map (λ v. some (parse v)) c.values
      | relational ↦ get_elem? c.values 0 ∷ []
      | other_type ↦ get_elem? c.values 0 ∷ []
    ]
  ]

  abbrev value_description : SearchOperator → FieldType → Condition → List String
  value_description o t c = elim o.value [
    | some v ↦ []
    | none ↦ elim t [
      | timed ↦ quoted (join (concat " " (concat and_label " ")) (map format c.values)) ∷ []
      | relational ↦ quoted (shown_value c) ∷ []
      | other_type ↦ quoted (shown_value c) ∷ []
    ]
  ]

  abbrev pub at : List (Option String) → ℕ → Option String
  at vs i = elim (get_elem? vs i) [ none ↦ none | some v ↦ v ]

  abbrev domain_of : SearchField → SearchOperator → List (Option String) → List DomainLeaf
  domain_of f o vs =
      let leaf : String → ℕ → DomainLeaf =
        λ symbol i. record { field_name = f.name; symbol = symbol; operand = at vs i } in
      if o.symbol == "between" then leaf ">=" 0 ∷ leaf "<=" 1 ∷ [] else leaf o.symbol 0 ∷ []

  abbrev pre_filter : SearchField → SearchOperator → Condition → PreFilter
  pre_filter f o c = record {
    description = join " " (f.label ∷ o.description ∷ value_description o f.type c);
    domain = domain_of f o (domain_values o f.type c);
  }

  -- The filters of `_onApply`: none where a condition has no such field or operator, which ends the
  -- handler with an exception.
  abbrev pub filter_of : Condition → Option PreFilter
  filter_of c = do
    f ← get_elem? fields c.field
    o ← get_elem? (operators f.type) c.operator
    some (pre_filter f o c)

  unfoldable pub pre_filters : List Condition → Option (List PreFilter)
  pre_filters [] = some []
  pre_filters (c ∷ cs) = do p ← filter_of c; ps ← pre_filters cs; some (p ∷ ps)

  -- `_onApply`, with the filters that it dispatches.
  unfoldable pub on_apply : FilterItem → Option (FilterItem × List PreFilter)
  unfolding add_default_condition pre_filters
  on_apply s = do
    ps ← pre_filters s.conditions
    some (
      add_default_condition default_condition (record s { is_open = false; conditions = [] }),
      ps,
    )
