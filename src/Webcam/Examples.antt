-- ===== src/Webcam/Examples.antt =====
-- The theorems about the webcam field, at a picture of four bytes.
use playground_azure_user_sy.Prelude.{
  ℕ, ◌+◌, true, false, none, some, List, [], ◌∷◌, ◌++◌, ◌==◌, ℕ_eq, ◌≡◌, refl, arith,
}
use playground_azure_user_sy.Prelude.Int.{pos}
use playground_azure_user_sy.Webcam.{
  Text, WebcamField, file_uploaded, type_error, new_field, open_webcam, dialog_opened, not_loaded,
  loaded, live, take_snapshot, snapped, save_picture, save_and_close, WebcamEvent, camera_clicked,
  opened, snapshot_clicked, picture, save_clicked, webcam_event, webcam_run,
}
use playground_azure_user_sy.Webcam.Size.{encode, reported, save_and_close-size}
use playground_azure_user_sy.Webcam.Saving.{last_picture, webcam_run-saves}

-- Digits that are neither a comma nor the sign "=".
abbrev code : ℕ → ℕ
code n = n + 62

code-no_comma : (n : ℕ) → code n == 44 ≡ false
code-no_comma n = ground arith

code-no_sign : (n : ℕ) → code n == 61 ≡ false
code-no_sign n = ground arith

abbrev header : Text
header = 100 ∷ 97 ∷ 116 ∷ 97 ∷ []

abbrev four_bytes : List ℕ
four_bytes = 1 ∷ 2 ∷ 3 ∷ 4 ∷ []

abbrev ready_field : WebcamField
ready_field = record {
  img_data = some (header ++ 44 ∷ encode code four_bytes);
  waiting = 0;
  is_open = true;
  is_opened = true;
  save_enabled = true;
  result = none;
}

-- Four bytes are reported as five.
save_and_close-size_example :
    (save_and_close ready_field).1
    ≡ file_uploaded (pos 20) (62 ∷ 78 ∷ 70 ∷ 65 ∷ 63 ∷ 62 ∷ 61 ∷ 61 ∷ []) ∷ []
unfolding save_and_close encode reported
save_and_close-size_example =
    save_and_close-size code code-no_comma code-no_sign ready_field header four_bytes refl refl

abbrev session : List WebcamEvent
session =
    camera_clicked
    ∷ opened
    ∷ snapshot_clicked not_loaded
    ∷ snapshot_clicked loaded
    ∷ picture (1 ∷ [])
    ∷ snapshot_clicked live
    ∷ picture (2 ∷ 44 ∷ 3 ∷ [])
    ∷ []

webcam_run-saves_example :
    (p : Text) × (last_picture none session ≡ some p)
    × ((webcam_event (webcam_run new_field session).0 save_clicked).1 ≡ save_picture (some p) ∷ [])
unfolding webcam_run webcam_event new_field open_webcam dialog_opened take_snapshot snapped
webcam_run-saves_example =
    webcam_run-saves session (webcam_run new_field session).0 refl refl refl refl

-- A click on the button before the dialog has opened.
early_save : (webcam_run new_field (camera_clicked ∷ save_clicked ∷ [])).1 ≡ type_error ∷ []
unfolding webcam_run webcam_event new_field open_webcam save_and_close
early_save = refl
