-- ===== src/DropTarget.antt =====
-- addons_OCA/web/web_drop_target/static/src/js/web_drop_target.js: files that are dropped on a form
-- become attachments of its record. Here: the mixin, with the methods that the form controller
-- gives it.
pub mod Overlay
pub mod Ready
pub mod Uploads
mod Examples
use playground_azure_user_sy.Prelude.{
  ℕ, zero, suc, ◌+◌, ◌-◌, String, Bool, true, false, not, ◌&&◌, ◌||◌, Option, none, some, List, [],
  ◌∷◌, ◌++◌, if◌then◌else◌, ◌==◌, ℕ_eq, String_eq,
}
use playground_azure_user_sy.Prelude.Int.{ℤ, pos, ltb_ℤ}

-- An item of `dataTransfer.files`, with whether it is a `Blob`.
pub record DroppedFile : Type 0 where
  pub name : String
  pub mime : String
  pub is_blob : Bool

-- A file that is being read, with the record that `_create_attachment` was bound to.
pub record Upload : Type 0 where
  pub file : DroppedFile
  pub res_model : String
  pub res_id : Option ℕ

-- The element of the overlay: whether the text in it asks for files or to save the record first,
-- whether it is shown, and whether it has the red background.
pub record DropOverlay : Type 0 where
  asks_for_files : Bool
  pub shown : Bool
  pub red : Bool

-- `elements` counts the overlays in the drop zone, `deferred` the calls of `_add_overlay` that wait,
-- and `uploads` are the files being read. `res_id` is none for a record that is not saved.
pub record DropTarget : Type 0 where
  pub listening : Bool
  pub overlay : Option DropOverlay
  pub elements : ℕ
  pub deferred : ℕ
  pub controller_id : ℕ
  pub has_chatter : Bool
  pub res_model : String
  pub res_id : Option ℕ
  pub uploads : List Upload

-- The arguments of the creation of an attachment.
pub record Attachment : Type 0 where
  pub name : String
  datas : String
  pub res_model : String
  pub res_id : Option ℕ

-- `type_error` is the exception where a member of `null` is read: it ends the handler.
pub data DropEffect : Type 0 where
  create : Attachment → DropEffect
  reload console_error type_error : DropEffect

abbrev pub has_record : DropTarget → Bool
has_record t = elim t.res_id [ none ↦ false | some id ↦ true ]

unfoldable pub add_overlay : DropTarget → DropTarget
add_overlay t = elim t.overlay [
  | some o ↦ t
  | none ↦ record t {
    overlay = some (record { asks_for_files = has_record t; shown = false; red = false });
    elements = suc t.elements;
  }
]

-- One of so many waiting calls of `_add_overlay`.
abbrev pub run_deferred : ℕ → DropTarget → DropTarget
run_deferred zero t = t
run_deferred (suc n) t = add_overlay (record t { deferred = n })

unfoldable pub remove_overlay : DropTarget → DropTarget
remove_overlay t = elim t.overlay [
  | none ↦ t
  | some o ↦ record t { overlay = none; elements = t.elements - 1 }
]

abbrev defer_overlay : DropTarget → DropTarget
defer_overlay t = record t { deferred = suc t.deferred }

unfoldable pub update_overlay : DropTarget → DropTarget
unfolding remove_overlay
update_overlay t = defer_overlay (remove_overlay t)

-- `this._drop_overlay.…`, with a change of the overlay.
abbrev on_overlay : (DropOverlay → DropOverlay) → DropTarget → DropTarget × List DropEffect
on_overlay change t = elim t.overlay [
  | none ↦ (t, type_error ∷ [])
  | some o ↦ (record t { overlay = some (change o) }, [])
]

abbrev pub hide : DropOverlay → DropOverlay
hide o = record o { shown = false }

-- The mouse has left the window, of that width and height.
abbrev is_outside : ℕ → ℕ → ℤ → ℤ → Bool
is_outside width height x y =
    not (ltb_ℤ (pos 0) x)
    || not (ltb_ℤ (pos 0) y)
    || not (ltb_ℤ x (pos width))
    || not (ltb_ℤ y (pos height))

abbrev pub is_empty {ℓ} : {A : Type ℓ} → List A → Bool
is_empty [] = true
is_empty (x ∷ xs) = false

abbrev pub contains : List String → String → Bool
contains [] s = false
contains (t ∷ ts) s = t == s || contains ts s

-- The filter of `_get_drop_items`, where no allowed types are all types.
unfoldable pub allowed_files : List String → List DroppedFile → List DroppedFile
allowed_files types [] = []
allowed_files types (f ∷ fs) =
    let rest = allowed_files types fs in
    if is_empty types || contains types f.mime then f ∷ rest else rest

unfoldable pub get_drop_items : List String → DropTarget → List DroppedFile → List DroppedFile
unfolding allowed_files
get_drop_items types t files = if has_record t then allowed_files types files else []

-- The current dialog is none, or the one of this controller.
abbrev is_own_dialog : DropTarget → Option ℕ → Bool
is_own_dialog t none = true
is_own_dialog t (some js_id) = js_id == t.controller_id

abbrev pub show : Bool → DropOverlay → DropOverlay
show unsaved o = record o { shown = true; red = unsaved || o.red }

unfoldable pub on_body_file_dragover :
    List String → DropTarget → List DroppedFile → Option ℕ → DropTarget × List DropEffect
unfolding get_drop_items
on_body_file_dragover types t files dialog =
    if is_empty (get_drop_items types t files) && t.has_chatter && is_own_dialog t dialog
    then on_overlay (show (not (has_record t))) t
    else (t, [])

-- `_handle_file_drop_attach` for each item: what is no `Blob` is left out.
unfoldable pub uploads_of : DropTarget → List DroppedFile → List Upload
uploads_of t [] = []
uploads_of t (f ∷ fs) =
    let rest = uploads_of t fs in
    if f.is_blob
    then record { file = f; res_model = t.res_model; res_id = t.res_id } ∷ rest
    else rest

unfoldable pub on_drop : List String → DropTarget → List DroppedFile → DropTarget
unfolding get_drop_items uploads_of
on_drop types t files = elim t.overlay [
  | none ↦ t
  | some o ↦ record t { uploads = t.uploads ++ uploads_of t (get_drop_items types t files) }
]

-- The upload at an index, and the others.
abbrev pub take_upload : List Upload → ℕ → Option Upload × List Upload
take_upload [] i = (none, [])
take_upload (u ∷ us) zero = (some u, us)
take_upload (u ∷ us) (suc i) = let (found, rest) = take_upload us i in (found, u ∷ rest)

-- The bytes of `reader.result`, which is `null` where the file could not be read.
abbrev bytes_of : Option (List ℕ) → List ℕ
bytes_of none = []
bytes_of (some bytes) = bytes

pub data DropEvent : Type 0 where
  start start_done deferred_add updated attachment_created reloaded destroy : DropEvent
  show_record : Option ℕ → DropEvent
  drag_leave : ℤ → ℤ → DropEvent
  drag_over : List DroppedFile → Option ℕ → DropEvent
  body_drop : DropEvent
  drop : List DroppedFile → DropEvent
  load_end : ℕ → Option (List ℕ) → DropEvent

-- `from_byte_array` is that of base64js, `types` are the allowed types, and `width` and `height` are
-- those of the window.
module _ (from_byte_array : List ℕ → String) (types : List String) (width height : ℕ) where
  abbrev create_attachment : Upload → Option (List ℕ) → Attachment
  create_attachment u result = record {
    name = u.file.name;
    datas = from_byte_array (bytes_of result);
    res_model = u.res_model;
    res_id = u.res_id;
  }

  -- The end of a read: `onloadend` runs also after `onerror`.
  unfoldable pub on_load_end : DropTarget → ℕ → Option (List ℕ) → DropTarget × List DropEffect
  on_load_end t i result =
      let (found, rest) = take_upload t.uploads i in
      elim found [
        | none ↦ (t, [])
        | some u ↦ (
          record t { uploads = rest },
          (elim result [ none ↦ console_error ∷ [] | some bytes ↦ [] ])
              ++ create (create_attachment u result) ∷ [],
        )
      ]

  -- An event of the body is for a widget that listens to it.
  abbrev if_listening : DropTarget → DropTarget × List DropEffect → DropTarget × List DropEffect
  if_listening t handled = if t.listening then handled else (t, [])

  unfoldable pub drop_event : DropTarget → DropEvent → DropTarget × List DropEffect
  unfolding add_overlay remove_overlay update_overlay on_body_file_dragover on_drop on_load_end
  drop_event t start = (record t { listening = true }, [])
  drop_event t start_done = (defer_overlay t, [])
  drop_event t deferred_add = (run_deferred t.deferred t, [])
  drop_event t updated = (update_overlay t, [])
  drop_event t attachment_created = (t, reload ∷ [])
  drop_event t reloaded = (update_overlay t, [])
  drop_event t destroy = (remove_overlay (record t { listening = false }), [])
  drop_event t (show_record id) = (record t { res_id = id }, [])
  drop_event t (drag_leave x y) =
      if_listening t (if is_outside width height x y then on_overlay hide t else (t, []))
  drop_event t (drag_over files dialog) =
      if_listening t (on_body_file_dragover types t files dialog)
  drop_event t body_drop = if_listening t (on_overlay hide t)
  drop_event t (drop files) = (on_drop types t files, [])
  drop_event t (load_end i result) = on_load_end t i result

  unfoldable pub drop_run : DropTarget → List DropEvent → DropTarget × List DropEffect
  unfolding drop_event
  drop_run t [] = (t, [])
  drop_run t (e ∷ es) =
      let (t₁, effects) = drop_event t e in let (t₂, rest) = drop_run t₁ es in (t₂, effects ++ rest)
