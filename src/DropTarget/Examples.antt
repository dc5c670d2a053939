-- ===== src/DropTarget/Examples.antt =====
-- The theorems about dropped files at a form with a record, and two files.
use playground_azure_user_sy.Prelude.{
  ℕ, zero, suc, ◌+◌, String, Bool, true, false, Option, none, some, List, [], ◌∷◌, String_eq, ◌≡◌,
  refl,
}
use playground_azure_user_sy.DropTarget.{
  DroppedFile, DropTarget, DropEvent, deferred_add, updated, show_record, drag_over, body_drop,
  drop, load_end, drop_event, drop_run, add_overlay, remove_overlay, update_overlay,
  on_body_file_dragover, on_drop, on_load_end, get_drop_items, allowed_files, uploads_of,
}
use playground_azure_user_sy.DropTarget.Ready.{has_type_error, drop_run_safe}
use playground_azure_user_sy.DropTarget.Uploads.{
  count_created, count_uploads, count_dropped, drop_run-created,
}

abbrev form : DropTarget
form = record {
  listening = true;
  overlay = none;
  elements = 0;
  deferred = 1;
  controller_id = 3;
  has_chatter = true;
  res_model = "res.partner";
  res_id = some 7;
  uploads = [];
}

abbrev photo : DroppedFile
photo = record { name = "photo.png"; mime = "image/png"; is_blob = true }

abbrev letter : DroppedFile
letter = record { name = "letter.pdf"; mime = "application/pdf"; is_blob = true }

-- Two files are dropped; another record is shown before the second is read.
abbrev session : List DropEvent
session =
    deferred_add
    ∷ drag_over [] none
    ∷ drop (photo ∷ letter ∷ [])
    ∷ body_drop
    ∷ load_end 0 (some (1 ∷ []))
    ∷ show_record (some 8)
    ∷ updated
    ∷ deferred_add
    ∷ load_end 0 none
    ∷ []

abbrev no_text : List ℕ → String
no_text bytes = ""

abbrev of_partner_7 : String → String → Option ℕ → Bool
of_partner_7 name model none = false
of_partner_7 name model (some zero) = false
of_partner_7 name model (some (suc n)) = true

drop_run_safe_example :
    has_type_error
      (drop_event no_text [] 1024 768 (drop_run no_text [] 1024 768 form session).0 body_drop).1
    ≡ false
unfolding drop_run drop_event add_overlay remove_overlay update_overlay on_body_file_dragover
    on_drop on_load_end get_drop_items allowed_files uploads_of
drop_run_safe_example = drop_run_safe no_text [] 1024 768 form session body_drop refl refl refl

drop_run-created_example :
    count_created of_partner_7 (drop_run no_text [] 1024 768 form session).1
      + count_uploads of_partner_7 (drop_run no_text [] 1024 768 form session).0.uploads
    ≡ 0 + count_dropped of_partner_7 no_text [] 1024 768 form session
drop_run-created_example = drop_run-created of_partner_7 no_text [] 1024 768 form session

-- Both files become attachments, though the second could not be read.
two_created : count_created of_partner_7 (drop_run no_text [] 1024 768 form session).1 ≡ 2
unfolding drop_run drop_event add_overlay remove_overlay update_overlay on_body_file_dragover
    on_drop on_load_end get_drop_items allowed_files uploads_of
two_created = refl
