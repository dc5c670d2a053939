-- ===== src/M2xOptions/Dropdown.antt =====
-- form.js: `FieldMany2One._search`, the entries of a many2one's drop-down.
pub mod Sections
pub mod Colors
pub mod Options
use playground_azure_user_sy.Prelude.{
  ℕ, zero, suc, ◌+◌, String, Bool, true, false, not, ◌&&◌, ◌||◌, Option, none, some, List, [], ◌∷◌,
  ◌++◌, map, length, contains, ◌==◌, String_eq, ℕ_eq, if◌then◌else◌,
}
use playground_azure_user_sy.Prelude.Int.{ℤ}
use playground_azure_user_sy.M2xOptions.{
  Value, is_undefined, truthy, is_option_set, NodeOptions, IrOptions, ir_value,
}
use playground_azure_user_sy.M2xOptions.Limit.{set_limit, limit_plus_one, exceeds, slice_to}

-- What the web client supplies: `_getDisplayName`, `_.str.escapeHTML`, `trim`, the translations,
-- `data.noDisplayContent`, and the HTML of a text.
pub record Web : Type 0 where
  pub display_name : String → String
  pub escape_html : String → String
  pub trim : String → String
  pub no_display_content : String
  pub search_more_label : String
  pub create_label : String → String
  pub create_edit_label : String
  pub no_results_label : String
  pub colored : String → String → String

-- The parts of a domain: those of the record, and the ones that this file adds.
pub data Term : Type 0 where
  given : String → Term
  id_in : List ℕ → Term
  id_not_in : List ℕ → Term

pub record Request : Type 0 where
  pub name : String
  pub domain : List Term
  pub limit : Option ℤ

-- A row of `name_search`: the id and the name.
abbrev pub Found : Type 0
Found = ℕ × String

pub data Action : Type 0 where
  search_more : Action
  quick_create : String → Action
  create_and_edit : String → Action

-- An entry of the drop-down: a record (`id`, `name`), an action, or neither.
pub record Item : Type 0 where
  pub label : String
  pub id : Option ℕ
  pub name : Option String
  pub action : Option Action

-- The widget, as far as `_search` reads it.
pub record Field : Type 0 where
  pub node : NodeOptions
  pub ir : IrOptions
  pub can_create : Bool
  pub limit : Option ℤ
  pub domain : List Term
  pub blacklist : List ℕ

abbrev pub text_or : String → String → String
text_or s default = if s == "" then default else s

-- The call of `name_search`.
unfoldable pub search_request : Field → String → Request
search_request f val = record {
  name = val;
  domain = elim f.blacklist [ [] ↦ f.domain | i ∷ is ↦ f.domain ++ id_not_in (i ∷ is) ∷ [] ];
  limit = limit_plus_one (set_limit f.ir f.node f.limit);
}

module _ (w : Web) where
  open w use {
    display_name, escape_html, trim, no_display_content, search_more_label, create_label,
    create_edit_label, no_results_label, colored,
  }

  unfoldable pub record_item : Found → Item
  record_item (id, name) =
      let shown = display_name name in
      record {
        label = text_or (escape_html (trim shown)) no_display_content;
        id = some id;
        name = some shown;
        action = none;
      }

  abbrev pub action_item : String → Action → Item
  action_item label action = record { label = label; id = none; name = none; action = some action }

  abbrev no_results : Item
  no_results = record { label = no_results_label; id = none; name = none; action = none }

-- Whether "Search More..." is shown, after `n` records are found.
unfoldable pub shows_search_more : Field → ℕ → Bool
shows_search_more f n =
    if not (is_undefined f.node.search_more)
    then is_option_set f.node.search_more
    else if not (is_undefined (ir_value f.ir.ir_search_more))
    then is_option_set (ir_value f.ir.ir_search_more)
    else exceeds n (set_limit f.ir f.node f.limit)

-- A create option: the node's own value `set`, if the node has one, or else the system parameter,
-- which counts as set where it is missing.
abbrev pub allowed : Bool → Bool → Value → Bool
allowed set undef param = set || (undef && (is_undefined param || is_option_set param))

abbrev create_enabled : Field → Bool
create_enabled f = f.can_create && not (truthy f.node.no_create)

unfoldable pub shows_quick_create : Field → List String → String → Bool
shows_quick_create f raw_result val =
    create_enabled f
    && not (truthy f.node.no_quick_create)
    && not (val == "")
    && not (contains raw_result val)
    && allowed (is_option_set f.node.create) (is_undefined f.node.create) (ir_value f.ir.ir_create)

unfoldable pub shows_create_edit : Field → Bool
shows_create_edit f =
    create_enabled f
    && not (truthy f.node.no_create_edit)
    && allowed (is_option_set f.node.create || is_option_set f.node.create_edit)
        (is_undefined f.node.create && is_undefined f.node.create_edit)
        (ir_value f.ir.ir_create_edit)

module _ (w : Web) (f : Field) (val : String) (result : List Found) where
  -- The records among the entries.
  unfoldable pub record_items : List Item
  record_items =
      let values = map (record_item w) result in
      if shows_search_more f (length values)
      then slice_to (set_limit f.ir f.node f.limit) values
      else values

  unfoldable pub search_more_items : List Item
  search_more_items =
      if shows_search_more f (length (map (record_item w) result))
      then action_item w w.search_more_label search_more ∷ []
      else []

  -- `raw_result` is read after the names in `result` were replaced by the display names.
  unfoldable pub quick_create_items : List Item
  quick_create_items =
      if shows_quick_create f (map (λ (x : Found). w.display_name x.1) result) val
      then action_item w (w.create_label val) (quick_create val) ∷ []
      else []

  -- "Create and Edit...", or "No results to show..." if there is nothing else.
  unfoldable pub last_items : List Item → List Item
  last_items values =
      if shows_create_edit f
      then values ++ action_item w w.create_edit_label (create_and_edit val) ∷ []
      else elim values [ [] ↦ no_results w ∷ [] | v ∷ vs ↦ v ∷ vs ]

  unfoldable pub dropdown : List Item
  unfolding record_items search_more_items quick_create_items last_items
  dropdown = last_items ((record_items ++ search_more_items) ++ quick_create_items)

-- `self.colors[key] || "black"`
unfoldable pub lookup_color : List (String × String) → String → String
lookup_color [] key = "black"
lookup_color ((k, c) ∷ m) key = if k == key then text_or c "black" else lookup_color m key

module _ (w : Web) (colors : List (String × String)) where
  -- The inner loop over `values`: the first value with the object's id is colored.
  unfoldable pub color_object : Found → List Item → List Item
  unfolding lookup_color
  color_object (i, key) [] = []
  color_object (i, key) (v ∷ vs) =
      let rest = v ∷ color_object (i, key) vs in
      let painted = record v { label = w.colored (lookup_color colors key) v.label } ∷ vs in
      elim v.id [ none ↦ rest | some j ↦ if j == i then painted else rest ]

  unfoldable pub color_items : List Found → List Item → List Item
  color_items [] values = values
  color_items (o ∷ os) values = color_items os (color_object o values)

-- `self.colors && self.field_color`
abbrev pub coloring : NodeOptions → Option (List (String × String))
coloring node = elim node.colors [
  | none ↦ none
  | some m ↦ elim node.field_color [ none ↦ none | some c ↦ if c == "" then none else some m ]
]

abbrev field_color_of : Option String → String
field_color_of none = ""
field_color_of (some c) = c

-- The call of `search_read` for the color field of the records found.
abbrev pub read_objects : (String → List ℕ → List Found) → Field → List Found → List Found
read_objects read_colors f result =
    read_colors (field_color_of f.node.field_color) (map (λ (x : Found). x.0) result)

-- `_search`: the calls to the server are `name_search` and, if the options ask for colors,
-- `search_read`, which gives the color field of the records with the given ids. The result is what
-- the promise resolves to, with the widget's limit as it is left.
module _ (w : Web) (name_search : Request → List Found)
    (read_colors : String → List ℕ → List Found) where
  unfoldable pub search : Field → String → Field × List Item
  search f val =
      let result = name_search (search_request f val) in
      let values = dropdown w f val result in
      (
        record f { limit = set_limit f.ir f.node f.limit },
        elim (coloring f.node) [
          | none ↦ values
          | some m ↦ color_items w m (read_objects read_colors f result) values
        ],
      )

-- The action of "Search More...": the ids of the dynamic filter of the dialog, if it has one.
-- `name_search` stands for the call with the larger limit, which is made for a search text only.
unfoldable search_more_filter : (String → List Found) → String → Option (List ℕ)
search_more_filter name_search val =
    if val == "" then none else some (map (λ (x : Found). x.0) (name_search val))
