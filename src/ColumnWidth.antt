-- ===== src/ColumnWidth.antt =====
-- addons_OCA/web/web_remember_tree_column_width/static/src/js/list_renderer.js: the widths of the
-- columns of lists, which the storage of the browser keeps. A text is the list of its code units.
pub mod Keys
pub mod Resizes
mod Examples
use playground_azure_user_sy.Prelude.{
  ℕ, Bool, true, false, ◌&&◌, Option, none, some, List, [], ◌∷◌, ◌++◌, if◌then◌else◌, ◌==◌, ℕ_eq,
}

abbrev pub Text : Type 0
Text = List ℕ

abbrev pub is_key : Text → Text → Bool
is_key [] [] = true
is_key [] (c ∷ t) = false
is_key (c ∷ s) [] = false
is_key (c ∷ s) (d ∷ t) = c == d && is_key s t

-- `odoo.columnWidth.`
abbrev pub key_prefix : Text
key_prefix =
    111 ∷ 100 ∷ 111 ∷ 111 ∷ 46 ∷ 99 ∷ 111 ∷ 108 ∷ 117 ∷ 109 ∷ 110 ∷ 87 ∷ 105 ∷ 100 ∷ 116 ∷ 104 ∷ 46
    ∷ []

-- `_getLocalStorageWidthColumnName`
unfoldable pub get_local_storage_width_column_name : Text → Text → Text
get_local_storage_width_column_name model field = key_prefix ++ model ++ 46 ∷ field

-- `replace("px", "")`: the first "px", if there is one.
abbrev remove_px : Text → Text
remove_px [] = []
remove_px (c ∷ []) = c ∷ []
remove_px (c ∷ d ∷ t) = let rest = remove_px (d ∷ t) in if c == 112 && d == 120 then t else c ∷ rest

-- A header cell: the name of its field, not empty, if it has one, and the width in its style.
pub record Header : Type 0 where
  pub name : Option Text
  pub width : Text

-- `S` is the state of the storage, which keeps a number as its text. That text is not empty, so a
-- width that is kept is used, 0 too. `parse_int` is `parseInt`, with `none` for NaN.
module _ (S : Type 0) (get_item : S → Text → Option ℕ) (set_item : S → Text → ℕ → S)
    (parse_int : Text → Option ℕ) where
  abbrev width_or_zero : Option ℕ → ℕ
  width_or_zero none = 0
  width_or_zero (some n) = n

  -- 48 is the text of 0.
  unfoldable pub header_width : Header → ℕ
  header_width h = elim h.width [
    | [] ↦ width_or_zero (parse_int (remove_px (48 ∷ [])))
    | c ∷ t ↦ width_or_zero (parse_int (remove_px (c ∷ t)))
  ]

  -- The model has a name that is not empty.
  pub record ListRenderer : Type 0 where
    pub model : Text
    pub resize_in_progress : Bool
    pub storage : S

  unfoldable pub on_mouse_down_resize : ListRenderer → ListRenderer
  on_mouse_down_resize r = record r { resize_in_progress = true }

  abbrev pub keep_width : ListRenderer → Option Text → ℕ → ListRenderer
  keep_width r none width = r
  keep_width r (some name) width = record r {
    storage = set_item r.storage (get_local_storage_width_column_name r.model name) width;
  }

  abbrev keep_header : ListRenderer → Option Header → ListRenderer
  keep_header r none = r
  keep_header r (some h) = keep_width r h.name (header_width h)

  -- `target` is the header cell at the pointer, or around it, if there is one.
  unfoldable pub on_mouse_up_resize : ListRenderer → Option Header → ListRenderer
  unfolding header_width
  on_mouse_up_resize r target =
      if r.resize_in_progress
      then keep_header (record r { resize_in_progress = false }) target
      else r

  unfoldable pub stored_width : S → Text → Option Text → Option ℕ
  unfolding get_local_storage_width_column_name
  stored_width s model none = none
  stored_width s model (some name) = get_item s (get_local_storage_width_column_name model name)

  -- A write past the end of the array makes it longer, with holes.
  abbrev pub set_width : Option ℕ → Option (Option ℕ) → List (Option ℕ) → List (Option ℕ)
  set_width (some n) w rest = some n ∷ rest
  set_width none (some w) rest = w ∷ rest
  set_width none none [] = []
  set_width none none (w ∷ rest) = none ∷ w ∷ rest

  -- `_squeezeTable`, from the widths of the list renderer.
  unfoldable pub squeeze_table : S → Text → List Header → List (Option ℕ) → List (Option ℕ)
  unfolding stored_width
  squeeze_table s model [] ws = ws
  squeeze_table s model (h ∷ hs) [] =
      set_width (stored_width s model h.name) none (squeeze_table s model hs [])
  squeeze_table s model (h ∷ hs) (w ∷ ws) =
      set_width (stored_width s model h.name) (some w) (squeeze_table s model hs ws)

  pub data ResizeEvent : Type 0 where
    pointer_down : ResizeEvent
    mouse_up : Option Header → ResizeEvent

  unfoldable pub resize_event : ListRenderer → ResizeEvent → ListRenderer
  unfolding on_mouse_down_resize on_mouse_up_resize
  resize_event r pointer_down = on_mouse_down_resize r
  resize_event r (mouse_up target) = on_mouse_up_resize r target

  unfoldable pub resize_run : ListRenderer → List ResizeEvent → ListRenderer
  unfolding resize_event
  resize_run r [] = r
  resize_run r (e ∷ es) = resize_run (resize_event r e) es
