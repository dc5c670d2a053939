-- ===== src/RangeSelect.antt =====
-- addons_OCA/web/web_listview_range_select/static/src/js/web_listview_range_select.js: shift-click
-- on the selector of a list's row selects the rows between the last two rows that were checked.
pub mod Range
mod Ends
pub mod Handler
pub mod History
mod Examples
use playground_azure_user_sy.Prelude.{
  ℕ, zero, suc, ◌-◌, String, Bool, true, false, not, ◌&&◌, Option, none, some, List, [], ◌∷◌, ◌++◌,
  map, leb, ◌==◌, contains, ℕ_eq, String_eq, length, get_elem?, set, if◌then◌else◌,
}

-- A table row with a selector: the `data-id` of its record, and its check box.
pub record Row : Type 0 where
  pub id : String
  pub checked : Bool

-- A list renderer. `own` is the renderer's own `_range_history`, which it has from the first time
-- that `_pushRangeHistory` assigns one; before, the name means the array of the prototype.
pub record Renderer : Type 0 where
  pub rows : List Row
  pub own : Option (List String)
  pub selection : List String
  -- a range of text is selected in the window
  pub text_selected : Bool

-- A renderer together with the prototype's `_range_history: []`, which all renderers share.
pub record State : Type 0 where
  pub renderer : Renderer
  pub open renderer use *
  pub shared : List String

abbrev pub history_of : Option (List String) → List String → List String
history_of none shared = shared
history_of (some h) shared = h

-- `this._range_history`
unfoldable pub range_history : State → List String
range_history s = history_of s.own s.shared

-- `this._range_history.push(id)` changes the array that the name means.
push_onto : Option (List String) → State → String → State
push_onto none s id = record s { shared = s.shared ++ id ∷ [] }
push_onto (some h) s id = record s { renderer = record (s.renderer) { own = some (h ++ id ∷ []) } }

unfoldable pub push_range_history : State → String → State
unfolding push_onto range_history
push_range_history s id =
    if length (range_history s) == 2 then push_onto (some []) s id else push_onto s.own s id

-- The rows that bound the range: `start` and `end`, or `null`.
pub record Bounds : Type 0 where
  pub start : Option ℕ
  pub end : Option ℕ

abbrev pub note_bound : Bounds → ℕ → Bounds
note_bound b i = elim b.start [
  | none ↦ record b { start = some i }
  | some _ ↦ record b { end = some i }
]

-- The first loop of `_getRangeSelection`, from row `i` on.
unfoldable pub find_bounds : List String → ℕ → List Row → Bounds → Bounds
find_bounds history i [] b = b
find_bounds history i (r ∷ rs) b =
    find_bounds history (suc i) rs
      (if contains history r.id && r.checked then note_bound b i else b)

-- The test of the loop in `_getSelectionByRange`, at row `i`.
unfoldable pub within : Option ℕ → Option ℕ → ℕ → Bool
within (some s) (some e) i = leb s i && leb i e
within (some s) none i = s == i
within none e i = false

unfoldable pub select_from : Option ℕ → Option ℕ → ℕ → List Row → List String
unfolding within
select_from start end i [] = []
select_from start end i (r ∷ rs) =
    let rest = select_from start end (suc i) rs in if within start end i then r.id ∷ rest else rest

unfoldable pub get_selection_by_range : List Row → Option ℕ → Option ℕ → List String
unfolding select_from
get_selection_by_range rows start end = select_from start end 0 rows

abbrev no_bounds : Bounds
no_bounds = record { start = none; end = none }

unfoldable pub range_bounds : State → Bounds
unfolding find_bounds range_history
range_bounds s = find_bounds (range_history s) 0 s.rows no_bounds

-- `$rows.each(…)` of the click handler: check the rows whose record is in the selection.
unfoldable pub check_rows : List String → List Row → List Row
check_rows selection [] = []
check_rows selection (r ∷ rs) =
    (if contains selection r.id then record r { checked = true } else r) ∷ check_rows selection rs

-- A click on the selector of row `row`.
pub record Click : Type 0 where
  pub row : ℕ
  pub shift_key : Bool
  pub firefox : Bool

abbrev toggle : Row → Row
toggle r = record r { checked = not r.checked }

-- The clicked row, with its check box as the browser left it, after the Firefox fix.
abbrev pub clicked : Click → Row → Row
clicked c r = if c.firefox && c.shift_key then toggle r else r

-- The handler up to the test of the shift key: the fix, and the history if the row is checked.
unfoldable pub after_check : State → Click → Row → State
after_check s c r =
    let s' = record s {
      renderer = record (s.renderer) { rows = set s.rows c.row (clicked c r) };
    } in
    if (clicked c r).checked then push_range_history s' r.id else s'

-- `uniq` is Underscore's `_.uniq`.
module _ (uniq : List String → List String) where
  unfoldable pub get_range_selection : State → List String
  unfolding range_bounds get_selection_by_range
  get_range_selection s =
      let b = range_bounds s in uniq (s.selection ++ get_selection_by_range s.rows b.start b.end)

-- `update_selection` is the list renderer's `_updateSelection`, which reads the check boxes.
module _ (uniq : List String → List String) (update_selection : List Row → List String) where
  -- The branch of a click with the shift key.
  unfoldable pub select_range : State → State
  unfolding get_range_selection check_rows
  select_range s =
      let rows' = check_rows (get_range_selection uniq s) s.rows in
      record s {
        renderer = record (s.renderer) {
          rows = rows';
          selection = update_selection rows';
          text_selected = false;
        };
      }

  -- The handler once the clicked row is known.
  unfoldable pub click_row : State → Click → Row → State
  click_row s c r = let s' = after_check s c r in if c.shift_key then select_range s' else s'

  -- `_onClickSelectRecord`. The event comes from a row of the table: no other row is handled.
  unfoldable pub on_click_select_record : State → Click → State
  unfolding click_row
  on_click_select_record s c = elim (get_elem? s.rows c.row) [ none ↦ s | some r ↦ click_row s c r ]
