-- ===== src/ContextWarning.antt =====
-- addons_OCA/web/web_switch_context_warning/static/src/js: the banner in a tab when another tab has
-- switched to another user or database. Here: switch_context_warning_worker.js, the shared worker,
-- and the widget of a tab, switch_context_warning.js. A text is the list of its code units.
pub mod Signature
pub mod Tabs
pub mod Banner
mod Examples
use playground_azure_user_sy.Prelude.{
  ℕ, zero, suc, Bool, true, false, not, ◌&&◌, Option, none, some, List, [], ◌∷◌, ◌++◌, map,
  get_elem?, if◌then◌else◌, ◌==◌, ℕ_eq,
}

abbrev pub Text : Type 0
Text = List ℕ

abbrev pub same_signature : Text → Text → Bool
same_signature [] [] = true
same_signature [] (c ∷ t) = false
same_signature (c ∷ s) [] = false
same_signature (c ∷ s) (d ∷ t) = c == d && same_signature s t

-- The session of a tab: the id of its user, as text, and its database.
pub record Session : Type 0 where
  pub uid : Text
  pub db : Text

-- 44 is the comma of `join`.
unfoldable pub generate_signature : Session → Text
generate_signature s = s.uid ++ 44 ∷ s.db

-- A tab: whether the worker has still to handle its message, the messages on the way to it, and
-- whether its banner is shown.
pub record Tab : Type 0 where
  pub session : Session
  pub pending : Bool
  pub messages : List Text
  pub shown : Bool

-- The worker: the last context that it was told, and the tabs that are connected.
pub record Worker : Type 0 where
  pub last_ctx : Option Text
  pub con : List Tab

-- The handler of a message, in a tab with a signature.
abbrev pub is_other_ctx : Text → Text → Bool
is_other_ctx signature new_ctx = not (same_signature new_ctx signature)

unfoldable pub deliver : Tab → Tab
deliver t = elim t.messages [
  | [] ↦ t
  | new_ctx ∷ rest ↦ record t {
    messages = rest;
    shown = is_other_ctx (generate_signature t.session) new_ctx;
  }
]

abbrev pub post_message : Text → Tab → Tab
post_message new_ctx t = record t { messages = t.messages ++ new_ctx ∷ [] }

-- `window.lastCtx && newCtx !== window.lastCtx`
abbrev pub has_changed : Option Text → Text → Bool
has_changed none new_ctx = false
has_changed (some []) new_ctx = false
has_changed (some (c ∷ s)) new_ctx = not (same_signature new_ctx (c ∷ s))

-- `port.onmessage`
unfoldable pub on_message : Worker → Text → Worker
on_message w new_ctx = record {
  last_ctx = some new_ctx;
  con = if has_changed w.last_ctx new_ctx then map (post_message new_ctx) w.con else w.con;
}

-- A change of the tab at an index.
unfoldable pub change_tab : (Tab → Tab) → ℕ → List Tab → List Tab
change_tab f i [] = []
change_tab f zero (t ∷ ts) = f t ∷ ts
change_tab f (suc i) (t ∷ ts) = t ∷ change_tab f i ts

abbrev pub handled : Tab → Tab
handled t = record t { pending = false }

-- The worker handles the message of a tab, that it has not handled yet.
abbrev pub handle_message : Worker → ℕ → Option Tab → Worker
handle_message w i none = w
handle_message w i (some t) =
    if t.pending
    then on_message (record w { con = change_tab handled i w.con }) (generate_signature t.session)
    else w

pub data WarningEvent : Type 0 where
  connect : Session → WarningEvent
  message : ℕ → WarningEvent
  delivery : ℕ → WarningEvent

-- A tab that opens connects, and posts its signature.
abbrev pub new_tab : Session → Tab
new_tab s = record { session = s; pending = true; messages = []; shown = false }

unfoldable pub warning_event : Worker → WarningEvent → Worker
unfolding deliver on_message change_tab
warning_event w (connect s) = record w { con = w.con ++ new_tab s ∷ [] }
warning_event w (message i) = handle_message w i (get_elem? w.con i)
warning_event w (delivery i) = record w { con = change_tab deliver i w.con }

unfoldable pub warning_run : Worker → List WarningEvent → Worker
unfolding warning_event
warning_run w [] = w
warning_run w (e ∷ es) = warning_run (warning_event w e) es

-- `window.con = []` and `window.lastCtx = null`
abbrev pub started : Worker
started = record { last_ctx = none; con = [] }
