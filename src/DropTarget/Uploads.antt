-- ===== src/DropTarget/Uploads.antt =====
-- From the drop to the attachment: which files are uploaded, and to which record.
use playground_azure_user_sy.Prelude.{
  ℕ, zero, suc, ◌+◌, String, Bool, true, false, ◌&&◌, ◌||◌, Option, none, some, List, [], ◌∷◌, ◌++◌,
  ◌≡◌, refl, ap, ◌∙◌, if◌then◌else◌, arith, Bool-cases, Option-cases, inl, inr,
}
use playground_azure_user_sy.DropTarget.{
  DroppedFile, Upload, DropTarget, DropEffect, create, reload, console_error, type_error,
  has_record, contains, is_empty, allowed_files, get_drop_items, uploads_of, on_drop, take_upload,
  on_load_end, on_body_file_dragover, add_overlay, remove_overlay, update_overlay, run_deferred,
  DropEvent, start, start_done, deferred_add, updated, attachment_created, reloaded, destroy,
  show_record, drag_leave, drag_over, body_drop, drop, load_end, drop_event, drop_run,
}

run_deferred-uploads : (n : ℕ) (t : DropTarget) → (run_deferred n t).uploads ≡ t.uploads
unfolding add_overlay
run_deferred-uploads zero t = refl
run_deferred-uploads (suc n) t = ground arith

-- `p` is any test of a file's name, a model and the id of a record, by which uploads are counted.
module _ (p : String → String → Option ℕ → Bool) where
  abbrev pub one_if : Bool → ℕ
  one_if true = 1
  one_if false = 0

  abbrev pub count_uploads : List Upload → ℕ
  count_uploads [] = 0
  count_uploads (u ∷ us) = one_if (p u.file.name u.res_model u.res_id) + count_uploads us

  abbrev pub count_created : List DropEffect → ℕ
  count_created [] = 0
  count_created (create a ∷ es) = one_if (p a.name a.res_model a.res_id) + count_created es
  count_created (reload ∷ es) = count_created es
  count_created (console_error ∷ es) = count_created es
  count_created (type_error ∷ es) = count_created es

  -- The files of a drop that are to be uploaded: files, of the allowed types, on the overlay of a
  -- record that is saved.
  abbrev count_files : List String → DropTarget → List DroppedFile → ℕ
  count_files types t [] = 0
  count_files types t (f ∷ fs) =
      one_if
        ((is_empty types || contains types f.mime) && f.is_blob && p f.name t.res_model t.res_id)
      + count_files types t fs

  abbrev count_drop : List String → DropTarget → List DroppedFile → ℕ
  count_drop types t files = elim t.overlay [
    | none ↦ 0
    | some o ↦ if has_record t then count_files types t files else 0
  ]

  count_uploads-append :
      (us vs : List Upload) → count_uploads (us ++ vs) ≡ count_uploads us + count_uploads vs
  count_uploads-append [] vs = omega arith
  count_uploads-append (u ∷ us) vs = omega (arith, count_uploads-append us vs)

  count_created-append :
      (es ds : List DropEffect) → count_created (es ++ ds) ≡ count_created es + count_created ds
  count_created-append [] ds = omega arith
  count_created-append (create a ∷ es) ds = omega (arith, count_created-append es ds)
  count_created-append (reload ∷ es) ds = count_created-append es ds
  count_created-append (console_error ∷ es) ds = count_created-append es ds
  count_created-append (type_error ∷ es) ds = count_created-append es ds

  count_uploads_of :
      (types : List String) (t : DropTarget) (fs : List DroppedFile)
      → count_uploads (uploads_of t (allowed_files types fs)) ≡ count_files types t fs
  unfolding uploads_of allowed_files
  count_uploads_of types t [] = refl
  count_uploads_of types t (f ∷ fs) = ground (arith, count_uploads_of types t fs)

  count_drop_items :
      (types : List String) (t : DropTarget) (fs : List DroppedFile)
      → count_uploads (uploads_of t (get_drop_items types t fs))
        ≡ (if has_record t then count_files types t fs else 0)
  unfolding get_drop_items uploads_of
  count_drop_items types t fs = elim (Bool-cases (has_record t)) [
    | inl h ↦ rw (h, count_uploads_of types t fs)
    | inr h ↦ rw (h)
  ]

  count-on_drop :
      (types : List String) (t : DropTarget) (fs : List DroppedFile)
      → count_uploads (on_drop types t fs).uploads ≡ count_uploads t.uploads + count_drop types t fs
  unfolding on_drop
  count-on_drop types t fs = elim (Option-cases t.overlay) [
    | inl h ↦ rw (h) (omega arith)
    | inr (o, h) ↦ rw (h) (
        count_uploads-append t.uploads (uploads_of t (get_drop_items types t fs))
        ∙ ap (λ n. count_uploads t.uploads + n) (count_drop_items types t fs))
  ]

  abbrev count_found : Option Upload → ℕ
  count_found none = 0
  count_found (some u) = one_if (p u.file.name u.res_model u.res_id)

  count-take_upload :
      (us : List Upload) (i : ℕ)
      → count_found (take_upload us i).0 + count_uploads (take_upload us i).1 ≡ count_uploads us
  count-take_upload [] i = refl
  count-take_upload (u ∷ us) zero = refl
  count-take_upload (u ∷ us) (suc i) = omega (arith, count-take_upload us i)

  -- The drops among the events that a run handles, counted by their files.
  module _ (from_byte_array : List ℕ → String) (types : List String) (width height : ℕ) where
    abbrev dropped_by : DropTarget → DropEvent → ℕ
    dropped_by t (drop files) = count_drop types t files
    dropped_by t start = 0
    dropped_by t start_done = 0
    dropped_by t deferred_add = 0
    dropped_by t updated = 0
    dropped_by t attachment_created = 0
    dropped_by t reloaded = 0
    dropped_by t destroy = 0
    dropped_by t (show_record id) = 0
    dropped_by t (drag_leave x y) = 0
    dropped_by t (drag_over files dialog) = 0
    dropped_by t body_drop = 0
    dropped_by t (load_end i result) = 0

    abbrev pub count_dropped : DropTarget → List DropEvent → ℕ
    count_dropped t [] = 0
    count_dropped t (e ∷ es) =
        dropped_by t e + count_dropped (drop_event from_byte_array types width height t e).0 es

    count-load_end :
        (t : DropTarget) (i : ℕ) (result : Option (List ℕ))
        → let r = on_load_end from_byte_array types width height t i result in
          count_created r.1 + count_uploads r.0.uploads ≡ count_uploads t.uploads
    unfolding on_load_end
    count-load_end t i result = ground (arith, count-take_upload t.uploads i)

    count-drop_event :
        (t : DropTarget) (e : DropEvent)
        → let r = drop_event from_byte_array types width height t e in
          count_created r.1 + count_uploads r.0.uploads ≡ count_uploads t.uploads + dropped_by t e
    unfolding drop_event add_overlay update_overlay remove_overlay on_body_file_dragover
    count-drop_event t start = omega arith
    count-drop_event t start_done = omega arith
    count-drop_event t deferred_add =
        omega (arith, ap count_uploads (run_deferred-uploads t.deferred t))
    count-drop_event t updated = ground arith
    count-drop_event t attachment_created = omega arith
    count-drop_event t reloaded = ground arith
    count-drop_event t destroy = ground arith
    count-drop_event t (show_record id) = omega arith
    count-drop_event t (drag_leave x y) = ground arith
    count-drop_event t (drag_over files dialog) = ground arith
    count-drop_event t body_drop = ground arith
    count-drop_event t (drop files) = omega (arith, count-on_drop types t files)
    count-drop_event t (load_end i result) = omega (arith, count-load_end t i result)

    -- After any events, in any order, for any test of a name, a model and an id: the attachments
    -- created, with the files still being read, are as many as the files being read at the start
    -- with those that were dropped since, on an overlay that was there and a saved record, of an
    -- allowed type, counted with the model and the id of the record that was shown at the drop.
    pub drop_run-created :
        (t : DropTarget) (es : List DropEvent)
        → let r = drop_run from_byte_array types width height t es in
          count_created r.1 + count_uploads r.0.uploads
          ≡ count_uploads t.uploads + count_dropped t es
    unfolding drop_run
    drop_run-created t [] = omega arith
    drop_run-created t (e ∷ es) =
        let one = drop_event from_byte_array types width height t e in
        let rest = drop_run from_byte_array types width height one.0 es in
        omega (
          arith,
          count-drop_event t e,
          drop_run-created one.0 es,
          count_created-append one.1 rest.1,
        )
