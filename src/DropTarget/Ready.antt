-- ===== src/DropTarget/Ready.antt =====
-- When a handler finds no overlay: only before a deferred call has made it.
use playground_azure_user_sy.Prelude.{
  ℕ, zero, suc, String, Bool, true, false, not, ◌&&◌, ◌||◌, Option, none, some, List, [], ◌∷◌, ◌≡◌,
  refl, ℕ_eq, arith,
}
use playground_azure_user_sy.DropTarget.{
  DropOverlay, DropTarget, DropEffect, type_error, add_overlay, run_deferred, remove_overlay,
  update_overlay, on_body_file_dragover, on_drop, on_load_end, DropEvent, start, start_done,
  deferred_add, updated, attachment_created, reloaded, destroy, show_record, drag_leave, drag_over,
  body_drop, drop, load_end, drop_event, drop_run,
}

abbrev has_overlay : Option DropOverlay → Bool
has_overlay none = false
has_overlay (some o) = true

abbrev pub waits : ℕ → Bool
waits zero = false
waits (suc n) = true

-- The widget does not listen, or it has its overlay, or a call that makes it waits.
abbrev pub IsReady : DropTarget → Type 0
IsReady t = (not t.listening || (has_overlay t.overlay || waits t.deferred)) ≡ true

abbrev is_start : DropEvent → Bool
is_start start = true
is_start e = false

abbrev no_start : List DropEvent → Bool
no_start [] = true
no_start (e ∷ es) = not (is_start e) && no_start es

abbrev pub has_type_error : List DropEffect → Bool
has_type_error [] = false
has_type_error (type_error ∷ es) = true
has_type_error (e ∷ es) = has_type_error es

run_deferred-IsReady :
    (n : ℕ) (t : DropTarget) → IsReady t → t.deferred ≡ n → IsReady (run_deferred n t)
unfolding add_overlay
run_deferred-IsReady zero t h k = h
run_deferred-IsReady (suc n) t h k = ground arith

defers-IsReady : (t : DropTarget) → IsReady (update_overlay t)
unfolding update_overlay remove_overlay
defers-IsReady t = ground arith

module _ (from_byte_array : List ℕ → String) (types : List String) (width height : ℕ) where
  drop_event-IsReady :
      (t : DropTarget) (e : DropEvent)
      → is_start e ≡ false
      → IsReady t
      → IsReady (drop_event from_byte_array types width height t e).0
  unfolding drop_event on_body_file_dragover on_drop on_load_end remove_overlay
  drop_event-IsReady t start k h = ground arith
  drop_event-IsReady t start_done k h = ground arith
  drop_event-IsReady t deferred_add k h = run_deferred-IsReady t.deferred t h refl
  drop_event-IsReady t updated k h = defers-IsReady t
  drop_event-IsReady t attachment_created k h = h
  drop_event-IsReady t reloaded k h = defers-IsReady t
  drop_event-IsReady t destroy k h = ground arith
  drop_event-IsReady t (show_record id) k h = h
  drop_event-IsReady t (drag_leave x y) k h = ground arith
  drop_event-IsReady t (drag_over files dialog) k h = ground arith
  drop_event-IsReady t body_drop k h = ground arith
  drop_event-IsReady t (drop files) k h = ground arith
  drop_event-IsReady t (load_end i result) k h = ground arith

  -- With the overlay there, or without listening, no handler reads a member of `null`.
  drop_event_safe :
      (t : DropTarget) (e : DropEvent)
      → IsReady t
      → t.deferred ≡ 0
      → has_type_error (drop_event from_byte_array types width height t e).1 ≡ false
  unfolding drop_event on_body_file_dragover on_drop on_load_end remove_overlay
  drop_event_safe t start h k = refl
  drop_event_safe t start_done h k = refl
  drop_event_safe t deferred_add h k = refl
  drop_event_safe t updated h k = refl
  drop_event_safe t attachment_created h k = refl
  drop_event_safe t reloaded h k = refl
  drop_event_safe t destroy h k = refl
  drop_event_safe t (show_record id) h k = refl
  drop_event_safe t (drag_leave x y) h k = ground arith
  drop_event_safe t (drag_over files dialog) h k = ground arith
  drop_event_safe t body_drop h k = ground arith
  drop_event_safe t (drop files) h k = refl
  drop_event_safe t (load_end i result) h k = ground arith

  drop_run-IsReady :
      (t : DropTarget) (es : List DropEvent)
      → no_start es ≡ true
      → IsReady t
      → IsReady (drop_run from_byte_array types width height t es).0
  unfolding drop_run
  drop_run-IsReady t [] k h = h
  drop_run-IsReady t (e ∷ es) k h =
      drop_run-IsReady (drop_event from_byte_array types width height t e).0 es (ground arith)
        (drop_event-IsReady t e (ground arith) h)

  -- A widget that is ready, and does not start again: after any events, in any order, if no call of
  -- `_add_overlay` waits, then no handler of whatever event comes next reads a member of `null`.
  pub drop_run_safe :
      (t : DropTarget) (es : List DropEvent) (e : DropEvent)
      → IsReady t
      → no_start es ≡ true
      → (drop_run from_byte_array types width height t es).0.deferred ≡ 0
      → let after = (drop_run from_byte_array types width height t es).0 in
        has_type_error (drop_event from_byte_array types width height after e).1 ≡ false
  drop_run_safe t es e h k d =
      drop_event_safe (drop_run from_byte_array types width height t es).0 e
        (drop_run-IsReady t es k h) d
