-- ===== src/DropTarget/Overlay.antt =====
-- The overlay in the course of the events: how many there are, and when a handler misses it.
use playground_azure_user_sy.Prelude.{
  ℕ, zero, suc, String, false, Option, none, some, List, [], ◌∷◌, ◌≡◌, arith,
}
use playground_azure_user_sy.DropTarget.{
  DropOverlay, DropTarget, add_overlay, run_deferred, remove_overlay, update_overlay,
  on_body_file_dragover, on_drop, on_load_end, DropEvent, start, start_done, deferred_add, updated,
  attachment_created, reloaded, destroy, show_record, drag_leave, drag_over, body_drop, drop,
  load_end, drop_event, drop_run,
}

abbrev overlay_count : Option DropOverlay → ℕ
overlay_count none = 0
overlay_count (some o) = 1

-- The drop zone holds the overlay that the widget knows, and no other.
abbrev IsSingle : DropTarget → Type 0
IsSingle t = t.elements ≡ overlay_count t.overlay

add_overlay-IsSingle : (t : DropTarget) → IsSingle t → IsSingle (add_overlay t)
unfolding add_overlay
add_overlay-IsSingle t h = ground arith

run_deferred-IsSingle : (n : ℕ) (t : DropTarget) → IsSingle t → IsSingle (run_deferred n t)
run_deferred-IsSingle zero t h = h
run_deferred-IsSingle (suc n) t h = add_overlay-IsSingle (record t { deferred = n }) h

remove_overlay-IsSingle : (t : DropTarget) → IsSingle t → IsSingle (remove_overlay t)
unfolding remove_overlay
remove_overlay-IsSingle t h = ground arith

module _ (from_byte_array : List ℕ → String) (types : List String) (width height : ℕ) where
  drop_event-IsSingle :
      (t : DropTarget) (e : DropEvent)
      → IsSingle t
      → IsSingle (drop_event from_byte_array types width height t e).0
  unfolding drop_event update_overlay on_body_file_dragover on_drop on_load_end
  drop_event-IsSingle t start h = h
  drop_event-IsSingle t start_done h = h
  drop_event-IsSingle t deferred_add h = run_deferred-IsSingle t.deferred t h
  drop_event-IsSingle t updated h = remove_overlay-IsSingle t h
  drop_event-IsSingle t attachment_created h = h
  drop_event-IsSingle t reloaded h = remove_overlay-IsSingle t h
  drop_event-IsSingle t destroy h = remove_overlay-IsSingle (record t { listening = false }) h
  drop_event-IsSingle t (show_record id) h = h
  drop_event-IsSingle t (drag_leave x y) h = ground arith
  drop_event-IsSingle t (drag_over files dialog) h = ground arith
  drop_event-IsSingle t body_drop h = ground arith
  drop_event-IsSingle t (drop files) h = ground arith
  drop_event-IsSingle t (load_end i result) h = ground arith

  -- After any events, in any order, there is one overlay in the drop zone or none, as the widget
  -- has it, if it was so at the start.
  drop_run-IsSingle :
      (t : DropTarget) (es : List DropEvent)
      → IsSingle t
      → IsSingle (drop_run from_byte_array types width height t es).0
  unfolding drop_run
  drop_run-IsSingle t [] h = h
  drop_run-IsSingle t (e ∷ es) h =
      drop_run-IsSingle (drop_event from_byte_array types width height t e).0 es
        (drop_event-IsSingle t e h)
