-- ===== src/Webcam.antt =====
-- addons_OCA/web/web_widget_image_webcam/static/src/js/webcam_widget.js: the dialog that takes a
-- picture for an image field. A text is the list of its code units.
pub mod Size
pub mod Saving
mod Examples
use playground_azure_user_sy.Prelude.{
  ℕ, zero, suc, ◌-◌, ◌*◌, Bool, true, false, not, ◌&&◌, Option, none, some, List, [], ◌∷◌, ◌++◌,
  if◌then◌else◌, ◌==◌, ℕ_eq, length,
}
use playground_azure_user_sy.Prelude.Int.{ℤ, pos, sub_ℕ}

abbrev pub Text : Type 0
Text = List ℕ

-- The part of a text before its first comma, and the one after it, if it has a comma.
abbrev pub before_comma : Text → Text
before_comma [] = []
before_comma (c ∷ t) = let rest = before_comma t in if c == 44 then [] else c ∷ rest

abbrev pub after_comma : Text → Option Text
after_comma [] = none
after_comma (c ∷ t) = let rest = after_comma t in if c == 44 then some t else rest

abbrev first_part : Option Text → Option Text
first_part none = none
first_part (some t) = some (before_comma t)

-- `split(",")[1]`.
unfoldable pub second_part : Text → Option Text
second_part t = first_part (after_comma t)

-- The number of matches of `/[=]+$/g`: one for all the signs at the end, 61 each.
abbrev pub sign_matches : Text → ℕ
sign_matches [] = 0
sign_matches (c ∷ []) = if c == 61 then 1 else 0
sign_matches (c ∷ d ∷ t) = sign_matches (d ∷ t)

-- `approx_img_size`, counted in quarters.
unfoldable pub approx_quarters : Text → ℤ
approx_quarters t = sub_ℕ (3 * length t) (4 * sign_matches t)

-- The dialog of one rendering of the field: `img_data`, `false` at first, which outlives a dialog;
-- the snapshots whose pictures are to come; and the button "Save & Close".
pub record WebcamField : Type 0 where
  pub img_data : Option Text
  pub waiting : ℕ
  pub is_open : Bool
  pub is_opened : Bool
  pub save_enabled : Bool
  pub result : Option Text  -- the picture in the dialog, `none` for the placeholder

pub data WebcamEffect : Type 0 where
  file_uploaded : ℤ → Text → WebcamEffect
  type_error : WebcamEffect

unfoldable pub new_field : WebcamField
new_field = record {
  img_data = none;
  waiting = 0;
  is_open = false;
  is_opened = false;
  save_enabled = false;
  result = none;
}

-- A click on the camera. The buttons of the new dialog are enabled.
unfoldable pub open_webcam : WebcamField → WebcamField
open_webcam s = record s { is_open = true; is_opened = false; save_enabled = true }

-- `dialog.opened()`.
unfoldable pub dialog_opened : WebcamField → WebcamField
dialog_opened s = record s { is_opened = true; save_enabled = false; result = none }

-- What the library knows of the camera: `snap` calls back only where it is loaded.
pub data Camera : Type 0 where
  not_loaded loaded live : Camera

-- "Take Snapshot".
unfoldable pub take_snapshot : WebcamField → Camera → WebcamField
take_snapshot s not_loaded = s
take_snapshot s loaded = record s { waiting = suc s.waiting }
take_snapshot s live = record s { waiting = suc s.waiting; save_enabled = true }

-- The library calls back with a picture.
unfoldable pub snapped : WebcamField → Text → WebcamField
snapped s data_uri = record s {
  img_data = some data_uri;
  waiting = s.waiting - 1;
  result = some data_uri;
}

abbrev pub upload : Option Text → WebcamEffect
unfolding approx_quarters
upload none = type_error
upload (some base64) = file_uploaded (approx_quarters base64) base64

abbrev pub save_picture : Option Text → WebcamEffect
unfolding second_part
save_picture none = type_error
save_picture (some data_uri) = upload (second_part data_uri)

-- An exception ends the handler before the dialog is closed.
abbrev pub close_after : WebcamField → WebcamEffect → WebcamField × List WebcamEffect
close_after s type_error = (s, type_error ∷ [])
close_after s (file_uploaded size base64) =
    (record s { is_open = false; is_opened = false }, file_uploaded size base64 ∷ [])

-- "Save & Close".
unfoldable pub save_and_close : WebcamField → WebcamField × List WebcamEffect
unfolding save_picture
save_and_close s = close_after s (save_picture s.img_data)

pub data WebcamEvent : Type 0 where
  camera_clicked : WebcamEvent
  opened : WebcamEvent
  snapshot_clicked : Camera → WebcamEvent
  picture : Text → WebcamEvent
  save_clicked : WebcamEvent
  close_clicked : WebcamEvent

-- The buttons are there in an open dialog. A picture may come at any time.
unfoldable pub webcam_event : WebcamField → WebcamEvent → WebcamField × List WebcamEffect
unfolding open_webcam dialog_opened take_snapshot snapped save_and_close
webcam_event s camera_clicked = if s.is_open then (s, []) else (open_webcam s, [])
webcam_event s opened = if s.is_open && not s.is_opened then (dialog_opened s, []) else (s, [])
webcam_event s (snapshot_clicked camera) =
    if s.is_open then (take_snapshot s camera, []) else (s, [])
webcam_event s (picture data_uri) = (snapped s data_uri, [])
webcam_event s save_clicked = if s.is_open && s.save_enabled then save_and_close s else (s, [])
webcam_event s close_clicked =
    if s.is_open then (record s { is_open = false; is_opened = false }, []) else (s, [])

unfoldable pub webcam_run : WebcamField → List WebcamEvent → WebcamField × List WebcamEffect
unfolding webcam_event
webcam_run s [] = (s, [])
webcam_run s (e ∷ es) =
    let (s', effects) = webcam_event s e in
    let (s'', later) = webcam_run s' es in (s'', effects ++ later)
