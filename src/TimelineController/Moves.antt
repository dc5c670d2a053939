-- ===== src/TimelineController/Moves.antt =====
-- The writes of moves: the queue, and its writing to the server.
use playground_azure_user_sy.Prelude.{
  ℕ, suc, String, Bool, true, false, ◌≡◌, refl, sym, ap, ap₂, ◌∙◌, List, [], ◌∷◌, ◌++◌,
  append_assoc, append-nil, if◌then◌else◌, arith, Bool-cases, inl, inr,
}
use playground_azure_user_sy.TimelineController.{
  WriteData, QueuedMove, ControllerView, Controller, move_data, on_move, ControllerEffect, write,
  moved_callback, reload, unlink, removed_callback, form_dialog, switch_view, writes, callbacks,
  all_done, internal_move, remove_completed, on_remove, on_update, ControllerEvent, item_moved,
  moves_due, item_removed, item_opened, controller_event, controller_run,
}

-- A write, as the server sees it.
abbrev Write : Type 0
Write = ℕ × WriteData

abbrev pub queued_writes : List QueuedMove → List Write
queued_writes [] = []
queued_writes (m ∷ ms) = (m.item.id, m.data_) ∷ queued_writes ms

-- The writes among the effects.
abbrev pub writes_of : List ControllerEffect → List Write
writes_of [] = []
writes_of (write id d ∷ es) = (id, d) ∷ writes_of es
writes_of (moved_callback id ∷ es) = writes_of es
writes_of (reload adjust ∷ es) = writes_of es
writes_of (unlink id ∷ es) = writes_of es
writes_of (removed_callback id ∷ es) = writes_of es
writes_of (form_dialog id action ∷ es) = writes_of es
writes_of (switch_view id edit ∷ es) = writes_of es

writes_of-append :
    (es ds : List ControllerEffect) → writes_of (es ++ ds) ≡ writes_of es ++ writes_of ds
writes_of-append [] ds = refl
writes_of-append (write id d ∷ es) ds = ap (λ ws. (id, d) ∷ ws) (writes_of-append es ds)
writes_of-append (moved_callback id ∷ es) ds = writes_of-append es ds
writes_of-append (reload adjust ∷ es) ds = writes_of-append es ds
writes_of-append (unlink id ∷ es) ds = writes_of-append es ds
writes_of-append (removed_callback id ∷ es) ds = writes_of-append es ds
writes_of-append (form_dialog id action ∷ es) ds = writes_of-append es ds
writes_of-append (switch_view id edit ∷ es) ds = writes_of-append es ds

queued_writes-append :
    (ms ns : List QueuedMove) → queued_writes (ms ++ ns) ≡ queued_writes ms ++ queued_writes ns
queued_writes-append [] ns = refl
queued_writes-append (m ∷ ms) ns = ap (λ ws. (m.item.id, m.data_) ∷ ws) (queued_writes-append ms ns)

writes_of-writes : (ms : List QueuedMove) → writes_of (writes ms) ≡ queued_writes ms
unfolding writes
writes_of-writes [] = refl
writes_of-writes (m ∷ ms) = ap (λ ws. (m.item.id, m.data_) ∷ ws) (writes_of-writes ms)

writes_of-callbacks :
    (answers : ℕ → Bool) (ms : List QueuedMove) (i : ℕ) → writes_of (callbacks answers ms i) ≡ []
unfolding callbacks
writes_of-callbacks answers [] i = refl
writes_of-callbacks answers (m ∷ ms) i = ground (arith, writes_of-callbacks answers ms (suc i))

writes_of-internal_move :
    (answers : ℕ → Bool) (c : Controller)
    → writes_of (internal_move answers c).1 ≡ queued_writes c.move_queue
unfolding internal_move
writes_of-internal_move answers c =
    writes_of-append (writes c.move_queue) _
    ∙ (ap₂ (◌++◌) (writes_of-writes c.move_queue) (
          writes_of-append (callbacks answers c.move_queue 0) _
          ∙ ap₂ (◌++◌) (writes_of-callbacks answers c.move_queue 0)
              (reload_no_write (all_done answers c.move_queue 0)))
        ∙ append-nil (queued_writes c.move_queue))
  where
    reload_no_write : (b : Bool) → writes_of (if b then reload false ∷ [] else []) ≡ []
    reload_no_write true = refl
    reload_no_write false = refl

writes_of-on_update :
    (c : Controller) (id : ℕ) (can_write : Bool) → writes_of (on_update c id can_write) ≡ []
unfolding on_update
writes_of-on_update c id can_write = ground arith

module _ (auto_date_to_str : String → ℕ → String) where
  -- The writes that the moves among the events ask for.
  abbrev pub moved_writes : ControllerView → List ControllerEvent → List Write
  moved_writes v [] = []
  moved_writes v (item_moved item ∷ es) =
      (item.id, move_data auto_date_to_str v item) ∷ moved_writes v es
  moved_writes v (moves_due answers ∷ es) = moved_writes v es
  moved_writes v (item_removed id confirmed ∷ es) = moved_writes v es
  moved_writes v (item_opened id can_write ∷ es) = moved_writes v es

  -- What an event adds to the writes sent and still queued.
  abbrev asked : ControllerView → ControllerEvent → List Write
  asked v e = moved_writes v (e ∷ [])

  event-view :
      (c : Controller) (e : ControllerEvent)
      → (controller_event auto_date_to_str c e).0.view ≡ c.view
  unfolding controller_event on_move internal_move on_remove remove_completed
  event-view c (item_moved item) = refl
  event-view c (moves_due answers) = ground arith
  event-view c (item_removed id confirmed) = ground arith
  event-view c (item_opened id can_write) = refl

  event-writes :
      (c : Controller) (e : ControllerEvent)
      → let (c', effects) = controller_event auto_date_to_str c e in
        writes_of effects ++ queued_writes c'.move_queue
        ≡ queued_writes c.move_queue ++ asked c.view e
  unfolding controller_event internal_move on_remove remove_completed
  event-writes c (item_moved item) = queued_writes-append c.move_queue _
  event-writes c (moves_due answers) = elim (Bool-cases c.internal_move_due) [
    | inl e ↦ rw e (ap (λ ws. ws ++ []) (writes_of-internal_move answers c))
    | inr e ↦ rw e (sym (append-nil (queued_writes c.move_queue)))
  ]
  event-writes c (item_removed id true) = sym (append-nil (queued_writes c.move_queue))
  event-writes c (item_removed id false) = sym (append-nil (queued_writes c.move_queue))
  event-writes c (item_opened id can_write) =
      ap (λ ws. ws ++ queued_writes c.move_queue) (writes_of-on_update c id can_write)
      ∙ sym (append-nil (queued_writes c.move_queue))

  asked-cons :
      (v : ControllerView) (e : ControllerEvent) (es : List ControllerEvent)
      → asked v e ++ moved_writes v es ≡ moved_writes v (e ∷ es)
  asked-cons v (item_moved item) es = refl
  asked-cons v (moves_due answers) es = refl
  asked-cons v (item_removed id confirmed) es = refl
  asked-cons v (item_opened id can_write) es = refl

  -- After any events, in any order: the writes sent, followed by those still queued, are those that
  -- were queued at the start, followed by one for each move, in the order of the moves, with the
  -- data of its item. None is lost, doubled or overtaken, whatever the server answers.
  pub controller_run-writes :
      (c : Controller) (es : List ControllerEvent)
      → let (d, effects) = controller_run auto_date_to_str c es in
        writes_of effects ++ queued_writes d.move_queue
        ≡ queued_writes c.move_queue ++ moved_writes c.view es
  unfolding controller_run
  controller_run-writes c [] = sym (append-nil (queued_writes c.move_queue))
  controller_run-writes c (e ∷ es) =
      let (c', here) = controller_event auto_date_to_str c e in
      let (d, later) = controller_run auto_date_to_str c' es in
      ap (λ ws. ws ++ queued_writes d.move_queue) (writes_of-append here later)
      ∙ (append_assoc (writes_of here) (writes_of later) (queued_writes d.move_queue)
          ∙ (ap (λ ws. writes_of here ++ ws)
                (controller_run-writes c' es
                  ∙ ap (λ v. queued_writes c'.move_queue ++ moved_writes v es) (event-view c e))
              ∙ (sym (
                    append_assoc (writes_of here) (queued_writes c'.move_queue)
                      (moved_writes c.view es))
                  ∙ (ap (λ ws. ws ++ moved_writes c.view es) (event-writes c e)
                      ∙ (append_assoc (queued_writes c.move_queue) (asked c.view e)
                            (moved_writes c.view es)
                          ∙ ap (λ ws. queued_writes c.move_queue ++ ws)
                              (asked-cons c.view e es))))))

  -- Where no call is due, the queue is empty.
  abbrev IsDue : Controller → Type 0
  IsDue c = c.internal_move_due ≡ false → c.move_queue ≡ []

  event-IsDue :
      (c : Controller) (e : ControllerEvent)
      → IsDue c
      → IsDue (controller_event auto_date_to_str c e).0
  unfolding controller_event on_move internal_move on_remove remove_completed
  event-IsDue c (item_moved item) h = λ e. cc
  event-IsDue c (moves_due answers) h = elim (Bool-cases c.internal_move_due) [
    | inl e ↦ rw e (λ q. refl)
    | inr e ↦ rw e (λ q. h e)
  ]
  event-IsDue c (item_removed id true) h = h
  event-IsDue c (item_removed id false) h = h
  event-IsDue c (item_opened id can_write) h = h

  due-empties :
      (c : Controller) (answers : ℕ → Bool)
      → IsDue c
      → (controller_event auto_date_to_str c (moves_due answers)).0.move_queue ≡ []
  unfolding controller_event internal_move
  due-empties c answers h = elim (Bool-cases c.internal_move_due) [
    | inl e ↦ rw e refl
    | inr e ↦ rw e (h e)
  ]

  run-empties :
      (c : Controller) (es : List ControllerEvent) (answers : ℕ → Bool)
      → IsDue c
      → (controller_run auto_date_to_str c (es ++ moves_due answers ∷ [])).0.move_queue ≡ []
  unfolding controller_run
  run-empties c [] answers h = due-empties c answers h
  run-empties c (e ∷ es) answers h =
      run-empties (controller_event auto_date_to_str c e).0 es answers (event-IsDue c e h)

  moved_writes-due :
      (v : ControllerView) (es : List ControllerEvent) (answers : ℕ → Bool)
      → moved_writes v (es ++ moves_due answers ∷ []) ≡ moved_writes v es
  moved_writes-due v [] answers = refl
  moved_writes-due v (item_moved item ∷ es) answers =
      ap (λ ws. (item.id, move_data auto_date_to_str v item) ∷ ws) (moved_writes-due v es answers)
  moved_writes-due v (moves_due other ∷ es) answers = moved_writes-due v es answers
  moved_writes-due v (item_removed id confirmed ∷ es) answers = moved_writes-due v es answers
  moved_writes-due v (item_opened id can_write ∷ es) answers = moved_writes-due v es answers

  -- For every controller whose queue is empty where no call is due, and after any events: once the
  -- debounced call has run, nothing is queued, and the writes sent are those that were queued at
  -- the start and those of all moves, in their order.
  controller_run-flushes :
      (c : Controller) (es : List ControllerEvent) (answers : ℕ → Bool)
      → IsDue c
      → let (d, effects) = controller_run auto_date_to_str c (es ++ moves_due answers ∷ []) in
        (d.move_queue ≡ [])
        × (writes_of effects ≡ queued_writes c.move_queue ++ moved_writes c.view es)
  controller_run-flushes c es answers h =
      let all = es ++ moves_due answers ∷ [] in
      let (d, effects) = controller_run auto_date_to_str c all in
      let empty = run-empties c es answers h in
      (
        empty,
        sym (append-nil (writes_of effects))
            ∙ (ap (λ ms. writes_of effects ++ queued_writes ms) (sym empty)
                ∙ (controller_run-writes c all
                    ∙ ap (λ ws. queued_writes c.move_queue ++ ws)
                        (moved_writes-due c.view es answers))),
      )
