-- ===== src/M2xOptions/Badge.antt =====
-- form.js: clicks on the badges of many2many tags and on the lines of a one2many.
use playground_azure_user_sy.Prelude.{
  ℕ, String, Bool, true, false, not, ◌&&◌, ◌||◌, ◌≡◌, Option, none, some, List, [], ◌∷◌, ◌++◌,
  arith, ◌==◌, ℕ_eq, String_eq, if◌then◌else◌, ==_self,
}
use playground_azure_user_sy.M2xOptions.{text, is_option_set, truthy, NodeOptions}

pub data Mode : Type 0 where
  readonly edit : Mode

-- What the handlers do, in order. `saved_reload` stands for the dialog's `on_saved` with a change.
pub data Effect : Type 0 where
  prevent_default stop_propagation : Effect
  super_call : Effect
  open_action : ℕ → Effect  -- `get_formview_action`, then `do_action`
  open_dialog : ℕ → Bool → Effect  -- the record's id, and `readonly`
  open_color_picker : Effect
  set_value reload : Effect

-- The rights of a many2many tag: the attribute `can_write`, if any, and the server's answer.
pub record Rights : Type 0 where
  pub can_write : Option Bool
  write_access : Bool

abbrev can_write_or_true : Option Bool → Bool
can_write_or_true none = true
can_write_or_true (some b) = b

-- `FieldMany2ManyTags._onDeleteTag`
unfoldable on_delete_tag : List Effect
on_delete_tag = super_call ∷ stop_propagation ∷ []

-- `FieldMany2ManyTags._onOpenBadge`
unfoldable on_open_badge : NodeOptions → Mode → Rights → ℕ → List Effect
on_open_badge node mode rights id =
    if is_option_set node.open_record
    then (elim mode [
      | readonly ↦ prevent_default ∷ stop_propagation ∷ open_action id ∷ []
      | edit ↦
          open_dialog id (not (can_write_or_true rights.can_write) || not rights.write_access) ∷ []
    ])
    else []

-- `on_saved` of that dialog
unfoldable pub on_saved : Bool → List Effect
on_saved changed = if changed then set_value ∷ reload ∷ [] else []

-- `FormFieldMany2ManyTags._onOpenBadge`, whose super call is the handler above.
unfoldable on_open_form_badge : NodeOptions → Mode → Rights → ℕ → List Effect
unfolding on_open_badge
on_open_form_badge node mode rights id =
    on_open_badge node mode rights id
    ++ (if not (is_option_set node.open_record) && not (is_option_set node.no_color_picker)
        then open_color_picker ∷ []
        else prevent_default ∷ stop_propagation ∷ [])

-- A line of a one2many: its datapoint's id, and its record's.
record Line : Type 0 where
  pub id : String
  pub res_id : ℕ

-- `lines.filter(line => line.id === id)[0].res_id`; `none` where no line has the id, which throws.
unfoldable find_res_id : String → List Line → Option ℕ
find_res_id id [] = none
find_res_id id (l ∷ ls) = let rest = find_res_id id ls in if l.id == id then some l.res_id else rest

-- `FieldOne2Many._onOpenRecord`; the propagation stops before the lookup.
unfoldable on_open_record : NodeOptions → Mode → List Line → String → List Effect
unfolding find_res_id
on_open_record node edit lines id = super_call ∷ []
on_open_record node readonly lines id =
    if truthy node.open_record
    then stop_propagation
      ∷ (elim (find_res_id id lines) [ none ↦ [] | some r ↦ open_action r ∷ [] ])
    else super_call ∷ []

-- Whether a dialog is opened, for writing or for reading.
abbrev has_dialog : Bool → List Effect → Bool
has_dialog writable [] = false
has_dialog writable (open_dialog id ro ∷ es) =
    (if writable then not ro else ro) || has_dialog writable es
has_dialog writable (_ ∷ es) = has_dialog writable es

abbrev has_picker : List Effect → Bool
has_picker [] = false
has_picker (open_color_picker ∷ es) = true
has_picker (_ ∷ es) = has_picker es

abbrev is_edit : Mode → Bool
is_edit edit = true
is_edit readonly = false

-- For every click on a badge of a form: the color picker opens exactly if neither `open` nor
-- `no_color_picker` is set; a dialog in which the record can be written opens exactly if `open` is
-- set, the form is in edit mode, the attribute `can_write` is missing or true, and the server
-- grants writing.
on_open_form_badge-opens :
    (node : NodeOptions) (mode : Mode) (rights : Rights) (id : ℕ)
    → (has_picker (on_open_form_badge node mode rights id)
        ≡ (not (is_option_set node.open_record) && not (is_option_set node.no_color_picker)))
      × (has_dialog true (on_open_form_badge node mode rights id) ≡ (
          is_option_set node.open_record
          && is_edit mode
          && can_write_or_true rights.can_write
          && rights.write_access))
unfolding on_open_form_badge
on_open_form_badge-opens node readonly rights id = ground arith
on_open_form_badge-opens node edit rights id = ground arith

-- Where the node's `open` is a text other than the empty one, "true" and "True", such as "False",
-- a click on a tag opens nothing, while a click on a line of a one2many opens its record.
open-differs :
    (node : NodeOptions) (s : String) (rights : Rights) (lines : List Line) (l : Line)
    → node.open_record ≡ text s
    → (s == "") ≡ false
    → (s == "true") ≡ false
    → (s == "True") ≡ false
    → (on_open_badge node readonly rights l.res_id ≡ [])
      × (on_open_record node readonly (l ∷ lines) l.id
          ≡ stop_propagation ∷ open_action l.res_id ∷ [])
unfolding on_open_badge on_open_record is_option_set
open-differs node s rights lines l o e t T = ground (arith, ==_self l.id)
