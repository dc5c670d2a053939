-- ===== src/TimelineController.antt =====
-- addons_OCA/web/web_timeline/static/src/js/timeline_controller.js: what the controller does when
-- items are moved, opened, added or removed. Times are numbers of milliseconds.
pub mod Moves
pub mod Data
pub mod Removal
mod Examples
use Prim.Native.String.{◌++◌ as concat}
use playground_azure_user_sy.Prelude.{
  ℕ, zero, suc, ◌+◌, ◌-◌, ◌/◌, String, Bool, true, false, not, ◌&&◌, Option, none, some, List, [],
  ◌∷◌, ◌++◌, ltb, leb, if◌then◌else◌, ◌==◌, ℕ_eq, String_eq, drop,
}
use playground_azure_user_sy.Prelude.Int.{ℤ, pos, negsuc}
use playground_azure_user_sy.Prelude.Maps.{put}

-- What is written to a field: a date as text, hours, a group's id, or `false`. Hours are counted
-- here in seconds, which the source divides by 3600.
pub data WriteValue : Type 0 where
  date_text : String → WriteValue
  seconds : ℤ → WriteValue
  group_id : ℕ → WriteValue
  false_value : WriteValue

abbrev pub WriteData : Type 0
WriteData = List (String × WriteValue)

-- An item as vis-timeline hands it over; no group stands for -1.
pub record MovedItem : Type 0 where
  pub id : ℕ
  pub start : ℕ
  pub end : Option ℕ
  pub group : Option ℕ

-- An element of `moveQueue`; its event is the item.
pub record QueuedMove : Type 0 where
  pub item : MovedItem
  pub data_ : WriteData

-- The names of the view's date fields, the first field of the last grouping, and the view of the
-- dialogs.
pub record ControllerView : Type 0 where
  pub date_start : String
  pub date_stop : Option String
  pub date_delay : Option String
  pub last_group_by : Option String
  pub open_popup_action : Option String

-- The state: the queue, whether the debounced call of `internalMove` is due, and the ids in the
-- model's data.
pub record Controller : Type 0 where
  pub view : ControllerView
  pub move_queue : List QueuedMove
  pub internal_move_due : Bool
  pub model_ids : List ℕ

-- `Math.round((end - start) / 1000)`
unfoldable pub diff_seconds : ℕ → ℕ → ℤ
diff_seconds start end =
    if leb start end
    then pos ((end - start + 500) / 1000)
    else (elim ((start - end + 499) / 1000) [ zero ↦ pos 0 | suc n ↦ negsuc n ])

-- `time.auto_date_to_str` at the type of a field, by the field's name.
module _ (auto_date_to_str : String → ℕ → String) where
  abbrev start_text : ControllerView → MovedItem → WriteValue
  start_text c item = date_text (auto_date_to_str c.date_start item.start)

  -- The steps of `_onMove` that fill `data`.
  abbrev with_stop : ControllerView → MovedItem → WriteData → WriteData
  with_stop c item d = elim c.date_stop [
    | none ↦ d
    | some stop ↦ elim item.end [
      | none ↦ put stop (start_text c item) d
      | some e ↦ put stop (date_text (auto_date_to_str stop e)) d
    ]
  ]

  abbrev with_delay : ControllerView → MovedItem → WriteData → WriteData
  with_delay c item d = elim c.date_delay [
    | none ↦ d
    | some delay ↦ elim item.end [
      | none ↦ d
      | some e ↦ put delay (seconds (diff_seconds item.start e)) d
    ]
  ]

  abbrev with_group : ControllerView → MovedItem → WriteData → WriteData
  with_group c item d = elim c.last_group_by [
    | none ↦ d
    | some field ↦ elim item.group [
      | none ↦ put field false_value d
      | some g ↦ put field (group_id g) d
    ]
  ]

  unfoldable pub move_data : ControllerView → MovedItem → WriteData
  unfolding diff_seconds put
  move_data c item =
      with_group c item
        (with_delay c item (with_stop c item (put c.date_start (start_text c item) [])))

  -- `_onMove`
  unfoldable pub on_move : Controller → MovedItem → Controller
  unfolding move_data
  on_move c item = record c {
    move_queue = c.move_queue ++ record { item = item; data_ = move_data c.view item } ∷ [];
    internal_move_due = true;
  }

-- What the controller asks of the server and of the view. `write` is the call for a move;
-- `moved_callback` tells vis-timeline that the move holds; `reload` is `write_completed`, with
-- `adjust_window`.
pub data ControllerEffect : Type 0 where
  write : ℕ → WriteData → ControllerEffect
  moved_callback : ℕ → ControllerEffect
  reload : Bool → ControllerEffect
  unlink : ℕ → ControllerEffect
  removed_callback : ℕ → ControllerEffect
  form_dialog : ℕ → String → ControllerEffect
  switch_view : ℕ → Bool → ControllerEffect  -- whether the mode is "edit"

unfoldable pub writes : List QueuedMove → List ControllerEffect
writes [] = []
writes (m ∷ ms) = write m.item.id m.data_ ∷ writes ms

-- What follows the writes, whose answers `answers` gives, `true` for a write that is done: the
-- callbacks of those, and whether all are done.
unfoldable pub callbacks : (ℕ → Bool) → List QueuedMove → ℕ → List ControllerEffect
callbacks answers [] i = []
callbacks answers (m ∷ ms) i =
    let rest = callbacks answers ms (suc i) in
    if answers i then moved_callback m.item.id ∷ rest else rest

unfoldable pub all_done : (ℕ → Bool) → List QueuedMove → ℕ → Bool
all_done answers [] i = true
all_done answers (m ∷ ms) i = answers i && all_done answers ms (suc i)

-- `internalMove`, to the end of its calls.
unfoldable pub internal_move : (ℕ → Bool) → Controller → Controller × List ControllerEffect
unfolding writes callbacks all_done
internal_move answers c = (
  record c { move_queue = []; internal_move_due = false },
  writes c.move_queue
      ++ (callbacks answers c.move_queue 0
          ++ (if all_done answers c.move_queue 0 then reload false ∷ [] else [])),
)

-- The loop of `remove_completed` that looks for the id, from index `i` on: the last index found.
unfoldable pub unlink_index : ℕ → ℕ → List ℕ → Option ℕ → Option ℕ
unlink_index id i [] found = found
unlink_index id i (x ∷ xs) found = unlink_index id (suc i) xs (if x == id then some i else found)

-- `splice(index, 1)`, where `false` counts as 0.
unfoldable pub splice_one : ℕ → List ℕ → List ℕ
splice_one i [] = []
splice_one zero (x ∷ xs) = xs
splice_one (suc i) (x ∷ xs) = x ∷ splice_one i xs

abbrev pub index_or_zero : Option ℕ → ℕ
index_or_zero none = 0
index_or_zero (some i) = i

-- `remove_completed`, once the server has unlinked the record. `!isNaN(unlink_index)` holds of
-- `false` too.
unfoldable pub remove_completed : Controller → ℕ → Controller × List ControllerEffect
unfolding unlink_index splice_one
remove_completed c id = (
  record c {
    model_ids = splice_one (index_or_zero (unlink_index id 0 c.model_ids none)) c.model_ids;
  },
  unlink id ∷ removed_callback id ∷ [],
)

-- `_onRemove`, with the user's answer.
unfoldable pub on_remove : Controller → ℕ → Bool → Controller × List ControllerEffect
unfolding remove_completed
on_remove c id confirmed = if confirmed then remove_completed c id else (c, [])

-- `_onUpdate`, where the rights to write are given.
unfoldable pub on_update : Controller → ℕ → Bool → List ControllerEffect
on_update c id can_write = elim c.view.open_popup_action [
  | none ↦ switch_view id can_write ∷ []
  | some action ↦ form_dialog id action ∷ []
]

-- `_.extend`
unfoldable extend_data : WriteData → WriteData → WriteData
unfolding put
extend_data d [] = d
extend_data d ((k, v) ∷ more) = extend_data (put k v d) more

abbrev default_key : String → String
default_key field = concat "default_" field

-- The context of `_onAdd`, with the one of the action: `next_hour` is an hour after a time, as text,
-- and `plain` the time itself.
module _ (plain next_hour : ℕ → String) where
  abbrev added_start : ControllerView → MovedItem → WriteData
  added_start c item =
      let d = put (default_key c.date_start) (date_text (plain item.start)) [] in
      let d' : WriteData = elim c.date_delay [
        | none ↦ d
        | some delay ↦ put (default_key delay) (seconds (pos 3600)) d
      ] in
      put (default_key c.date_start) (date_text (next_hour item.start)) d'

  abbrev added_stop : ControllerView → MovedItem → WriteData → WriteData
  added_stop c item d = elim c.date_stop [
    | none ↦ d
    | some stop ↦ elim item.end [
      | none ↦ d
      | some e ↦ put (default_key stop) (date_text (next_hour e)) d
    ]
  ]

  abbrev added_group : ControllerView → MovedItem → WriteData → WriteData
  added_group c item d = elim item.group [
    | none ↦ d
    | some g ↦ elim c.last_group_by [
      | none ↦ d
      | some field ↦ if g == 0 then d else put (default_key field) (group_id g) d
    ]
  ]

  unfoldable add_context : ControllerView → MovedItem → WriteData → WriteData
  unfolding put extend_data
  add_context c item action_context =
      extend_data (added_group c item (added_stop c item (added_start c item))) action_context

pub data ControllerEvent : Type 0 where
  item_moved : MovedItem → ControllerEvent
  moves_due : (ℕ → Bool) → ControllerEvent
  item_removed : ℕ → Bool → ControllerEvent
  item_opened : ℕ → Bool → ControllerEvent

module _ (auto_date_to_str : String → ℕ → String) where
  unfoldable pub controller_event :
      Controller → ControllerEvent → Controller × List ControllerEffect
  unfolding on_move internal_move on_remove on_update
  controller_event c (item_moved item) = (on_move auto_date_to_str c item, [])
  controller_event c (moves_due answers) =
      if c.internal_move_due then internal_move answers c else (c, [])
  controller_event c (item_removed id confirmed) = on_remove c id confirmed
  controller_event c (item_opened id can_write) = (c, on_update c id can_write)

  unfoldable pub controller_run :
      Controller → List ControllerEvent → Controller × List ControllerEffect
  unfolding controller_event
  controller_run c [] = (c, [])
  controller_run c (e ∷ es) =
      let (c', here) = controller_event c e in
      let (d, later) = controller_run c' es in (d, here ++ later)
