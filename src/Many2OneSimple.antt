-- ===== src/Many2OneSimple.antt =====
-- addons_OCA/web/web_widget_many2one_simple/static/src/js/many2one_simple_field.js: a many2one whose
-- value is found by one field of the related records, when the user leaves the input.
pub mod Union
pub mod Search
pub mod Opening
mod Examples
use playground_azure_user_sy.Prelude.{
  ℕ, zero, suc, ◌+◌, ◌-◌, String, Bool, true, false, not, ◌&&◌, ◌||◌, Option, none, some, List, [],
  ◌∷◌, ◌++◌, ◌==◌, ℕ_eq, String_eq, if◌then◌else◌,
}

-- The related records are searched by `field` with the operator `oper`.
pub record SearchBy : Type 0 where
  pub field : String
  pub oper : String

-- The node's attributes, the first two after `JSON.parse`; its options; and the argument `options`.
pub record SimpleAttrs : Type 0 where
  pub can_create : Option Bool
  pub can_write : Option Bool
  pub regex : Option String

pub record SimpleOptions : Type 0 where
  pub no_create : Bool
  pub no_regex : Bool
  pub no_open : Bool
  pub search : Option SearchBy

pub record InitOptions : Type 0 where
  pub no_open : Option Bool
  pub search : Option SearchBy

-- What `init` stores.
pub record SimpleConfig : Type 0 where
  pub can_create : Bool
  pub can_write : Bool
  pub regex : Option String
  pub no_open : Bool
  pub search : SearchBy

abbrev given_or {ℓ} : {A : Type ℓ} → Option A → A → A
given_or none d = d
given_or (some a) d = a

-- What `_.defaults` fills in.
abbrev search_by_id : SearchBy
search_by_id = record { field = "id"; oper = "=" }

unfoldable pub init_config : SimpleAttrs → SimpleOptions → InitOptions → SimpleConfig
init_config attrs node options = record {
  can_create = given_or attrs.can_create true && not node.no_create;
  can_write = given_or attrs.can_write true;
  regex = if node.no_regex then none else attrs.regex;
  no_open = given_or options.no_open node.no_open;
  search = given_or options.search (given_or node.search search_by_id);
}

-- `this.value`, and a record as `search_read` returns it.
pub record FieldValue : Type 0 where
  pub id : String
  pub res_id : ℕ
  pub display_name : String

pub record FoundRecord : Type 0 where
  pub id : ℕ
  pub display_name : String

-- The field. `pending` counts the searches that the server has not answered.
pub record SimpleField : Type 0 where
  pub config : SimpleConfig
  pub is_dirty : Bool
  pub input : String
  pub value : Option FieldValue
  pub pending : ℕ

-- A term of a domain.
pub record SearchTerm : Type 0 where
  pub field : String
  pub oper : String
  pub operand : String

-- An element of a domain: an operator, "&", "|" or "!", or a term, which is an array of its own.
pub data DomainElement : Type 0 where
  prefix_operator : String → DomainElement
  term : SearchTerm → DomainElement

-- A call of `search_read`, and the dialogs.
pub record SearchRead : Type 0 where
  pub domain : List DomainElement
  pub limit : ℕ

pub record CreatePopup : Type 0 where
  pub context : List (String × String)
  initial_view : String
  disable_multiple_selection : Bool
  pub no_create : Bool

pub record FormDialog : Type 0 where
  pub res_id : ℕ
  view_id : ℕ
  pub readonly : Bool

-- What the field does to the world around it. `formview_action` asks for the action that opens the
-- record with the id, which is undefined if there is no value, and runs it.
pub data Effect : Type 0 where
  request : SearchRead → Effect
  alert_invalid alert_not_found : Effect
  popup : CreatePopup → Effect
  activate : Effect
  form_dialog : FormDialog → Effect
  formview_action : Option ℕ → Effect
  reload : String → Effect

pub data KeyUp : Type 0 where
  enter tab : KeyUp
  typed : String → KeyUp  -- another key, and what the input then shows

-- The related record's dialogs report a selection, and that the record was saved.
pub data SimpleEvent : Type 0 where
  input_keyup : KeyUp → SimpleEvent
  input_focusout : SimpleEvent
  answer : List FoundRecord → SimpleEvent
  selected : FoundRecord → SimpleEvent
  closed : SimpleEvent
  field_changed : String → SimpleEvent
  external_button_click : SimpleEvent
  saved : Bool → SimpleEvent
  click : Bool → SimpleEvent  -- whether the mode is "readonly"

-- `_getDomain`
abbrev search_term : SimpleField → SearchTerm
search_term f = record {
  field = f.config.search.field;
  oper = f.config.search.oper;
  operand = f.input;
}

-- `===`: two arrays are never the same.
abbrev pub same_element : DomainElement → DomainElement → Bool
same_element (prefix_operator s) (prefix_operator t) = s == t
same_element (prefix_operator s) (term t) = false
same_element (term s) (prefix_operator t) = false
same_element (term s) (term t) = false

abbrev pub has_element : List DomainElement → DomainElement → Bool
has_element [] e = false
has_element (d ∷ ds) e = same_element d e || has_element ds e

-- `_.union`: the elements in their order, each put into the result unless it is there.
abbrev add_element : List DomainElement → DomainElement → List DomainElement
add_element seen e = if has_element seen e then seen else seen ++ e ∷ []

unfoldable pub union_after : List DomainElement → List DomainElement → List DomainElement
union_after seen [] = seen
union_after seen (e ∷ es) = union_after (add_element seen e) es

unfoldable pub union_domains : List DomainElement → List DomainElement → List DomainElement
unfolding union_after
union_domains ds es = union_after [] (ds ++ es)

-- The web client: what `_setValue` makes of the value, `_formatValue`, whether a text matches a
-- regular expression, the record's domain, the node's context, and the form view of a record.
pub record WebClient : Type 0 where
  pub set_value : Option FieldValue → Option FoundRecord → Option FieldValue
  pub format_value : Option FieldValue → String
  pub matches : String → String → Bool
  pub domain : List DomainElement
  pub context : List (String × String)
  pub formview_id : ℕ → ℕ
  pub append : String → String → String  -- `+` on texts

module _ (w : WebClient) where
  unfoldable pub reinitialize : SimpleField → Option FoundRecord → SimpleField
  reinitialize f found =
      let value' = w.set_value f.value found in
      record f { is_dirty = false; value = value'; input = w.format_value value' }

  -- `this.regex && !this.regex.test(search_value)`
  abbrev pub is_refused : SimpleField → Bool
  is_refused f = elim f.config.regex [ none ↦ false | some r ↦ not (w.matches r f.input) ]

  unfoldable pub search_read : SimpleField → SearchRead
  unfolding union_domains
  search_read f = record { domain = union_domains w.domain (term (search_term f) ∷ []); limit = 1 }

  -- `_search` up to the call of the server.
  unfoldable pub simple_search : SimpleField → SimpleField × List Effect
  unfolding reinitialize
  simple_search f =
      if not f.is_dirty
      then (f, [])
      else if f.input == ""
      then (reinitialize f none, [])
      else if is_refused f
      then (reinitialize f none, alert_invalid ∷ [])
      else (record f { pending = suc f.pending }, request (search_read f) ∷ [])

  -- The context of a new record, from what the input shows by then.
  unfoldable create_context : SimpleField → List (String × String)
  create_context f =
      if f.config.search.field == "id"
      then w.context
      else w.context ++ (w.append "default_" f.config.search.field, f.input) ∷ []

  -- `_getCreatePopupOptions` and `_createPopup`.
  unfoldable pub create_popup : SimpleField → Effect
  unfolding create_context
  create_popup f = popup (record {
    context = create_context f;
    initial_view = "form";
    disable_multiple_selection = true;
    no_create = not f.config.can_create;
  })

  -- `_search` at the answer of the server.
  unfoldable pub on_results : SimpleField → List FoundRecord → SimpleField × List Effect
  unfolding reinitialize create_popup
  on_results f [] =
      (reinitialize f none, (if f.config.can_create then create_popup f else alert_not_found) ∷ [])
  on_results f (r ∷ rs) = (reinitialize f (some r), [])

  unfoldable pub on_input_keyup : SimpleField → KeyUp → SimpleField × List Effect
  unfolding simple_search
  on_input_keyup f enter = simple_search f
  on_input_keyup f tab = simple_search f
  on_input_keyup f (typed s) = (record f { input = s; is_dirty = true }, [])

  unfoldable pub on_external_button_click : SimpleField → List Effect
  on_external_button_click f = elim f.value [
    | none ↦ activate ∷ []
    | some v ↦
        form_dialog (record {
          res_id = v.res_id;
          view_id = w.formview_id v.res_id;
          readonly = not f.config.can_write;
        })
        ∷ []
  ]

  -- `on_saved` of the dialog, which is opened where there is a value.
  unfoldable pub on_saved : SimpleField → Bool → List Effect
  on_saved f changed = elim f.value [
    | none ↦ []
    | some v ↦ if changed then reload v.id ∷ [] else []
  ]

  unfoldable pub on_click : SimpleField → Bool → List Effect
  on_click f readonly =
      if readonly && not f.config.no_open
      then formview_action (elim f.value [ none ↦ none | some v ↦ some v.res_id ]) ∷ []
      else []

  unfoldable pub handle_event : SimpleField → SimpleEvent → SimpleField × List Effect
  unfolding on_input_keyup simple_search on_results reinitialize
  handle_event f (input_keyup k) = on_input_keyup f k
  handle_event f input_focusout = simple_search f
  handle_event f (answer rs) = elim f.pending [
    | zero ↦ (f, [])
    | suc n ↦ on_results (record f { pending = n }) rs
  ]
  handle_event f (selected r) = (reinitialize f (some r), [])
  handle_event f closed = (f, activate ∷ [])
  handle_event f (field_changed name) = (record f { input = name }, [])
  handle_event f external_button_click = (f, on_external_button_click f)
  handle_event f (saved changed) = (f, on_saved f changed)
  handle_event f (click readonly) = (f, on_click f readonly)

  -- The events one after the other, with all that they do.
  unfoldable pub run_events : SimpleField → List SimpleEvent → SimpleField × List Effect
  unfolding handle_event
  run_events f [] = (f, [])
  run_events f (e ∷ es) =
      let (f', here) = handle_event f e in let (g, later) = run_events f' es in (g, here ++ later)

-- Where `_renderReadonly` links to, and whether `_updateExternalButton` shows the button of a field
-- (`isSet`: there is a value).
unfoldable pub readonly_link : SimpleField → Option ℕ
readonly_link f = elim f.value [
  | none ↦ none
  | some v ↦ if f.config.no_open then none else some v.res_id
]

unfoldable has_external_button : SimpleField → Bool → Bool
has_external_button f floating =
    not f.config.no_open && not floating && (elim f.value [ none ↦ false | some v ↦ true ])
