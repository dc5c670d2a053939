-- ===== src/RangeSelect/Handler.antt =====
-- What a click on a row's selector does to the table.
use playground_azure_user_sy.Prelude.{
  ℕ, zero, suc, ◌+◌, ◌≤◌, String, true, false, ◌||◌, ◌≡◌, refl, ap, ◌∙◌, Option, none, some, List,
  [], ◌∷◌, ◌++◌, contains, contains-append, String_eq, ℕ_eq, ==_iff, get_elem?, set, arith,
  if◌then◌else◌,
}
use native.Mathlib.Nat.{add-zero, add-suc, suc-add, zero-add}
use playground_azure_user_sy.RangeSelect.{
  Row, State, within, select_from, get_selection_by_range, range_bounds, range_history, check_rows,
  Click, clicked, after_check, get_range_selection, select_range, click_row, on_click_select_record,
  push_range_history,
}
use playground_azure_user_sy.RangeSelect.Ends.{is_marked, range_bounds-Covers}

abbrev pub check : List String → Row → Row
check selection r = record r { checked = contains selection r.id || r.checked }

get_elem?-check_rows :
    (selection : List String) (rows : List Row) (j : ℕ) {x : Row}
    → get_elem? rows j ≡ some x
    → get_elem? (check_rows selection rows) j ≡ some (check selection x)
unfolding check_rows
get_elem?-check_rows selection [] j h = cc
get_elem?-check_rows selection (r ∷ rs) zero h = ground arith
get_elem?-check_rows selection (r ∷ rs) (suc j) h = get_elem?-check_rows selection rs j h

within-between :
    (s e : Option ℕ) (i j k : ℕ)
    → i ≤ j
    → j ≤ k
    → within s e i ≡ true
    → within s e k ≡ true
    → within s e j ≡ true
unfolding within
within-between none e i j k p q h h' = h
within-between (some s) none i j k p q h h' = ground arith
within-between (some s) (some e) i j k p q h h' = ground arith

select_from-contains :
    (s e : Option ℕ) (i j : ℕ) (rows : List Row) {x : Row}
    → get_elem? rows j ≡ some x
    → within s e (i + j) ≡ true
    → contains (select_from s e i rows) x.id ≡ true
unfolding select_from
select_from-contains s e i j [] h w = cc
select_from-contains s e i zero (r ∷ rs) {x} h w =
    let here : within s e i ≡ true = rw add-zero at w in rw here (ground (arith, ==_iff r.id x.id))
select_from-contains s e i (suc j) (r ∷ rs) {x} h w =
    let later : within s e (suc i + j) ≡ true = rw suc-add (rw add-suc at w) in
    ground (arith, select_from-contains s e (suc i) j rs h later)

set_self {ℓ} :
    {A : Type ℓ} (xs : List A) (i : ℕ) {x : A} → get_elem? xs i ≡ some x → set xs i x ≡ xs
set_self [] i h = refl
set_self (y ∷ xs) zero h = cc
set_self (y ∷ xs) (suc i) h = ap (λ r. y ∷ r) (set_self xs i h)

-- The history is all that `_pushRangeHistory` changes.
rows-push : (s : State) (id : String) → (push_range_history s id).rows ≡ s.rows
unfolding push_range_history
rows-push s id = ground arith

selection-push : (s : State) (id : String) → (push_range_history s id).selection ≡ s.selection
unfolding push_range_history
selection-push s id = ground arith

abbrev pub put_row : State → Click → Row → State
put_row s c r = record s {
  renderer = record (s.renderer) { rows = set s.rows c.row (clicked c r) };
}

rows-after_check :
    (s : State) (c : Click) (r : Row) → (after_check s c r).rows ≡ set s.rows c.row (clicked c r)
unfolding after_check
rows-after_check s c r =
    elim (clicked c r).checked
      as (λ b.
        (if b then push_range_history (put_row s c r) r.id else put_row s c r).rows
        ≡ set s.rows c.row (clicked c r)) [ true ↦ rows-push (put_row s c r) r.id | false ↦ refl ]

selection-after_check :
    (s : State) (c : Click) (r : Row) → (after_check s c r).selection ≡ s.selection
unfolding after_check
selection-after_check s c r =
    elim (clicked c r).checked
      as (λ b.
        (if b then push_range_history (put_row s c r) r.id else put_row s c r).selection
        ≡ s.selection) [ true ↦ selection-push (put_row s c r) r.id | false ↦ refl ]

select_range-contains :
    (s e : Option ℕ) (j : ℕ) (rows : List Row) {x : Row}
    → get_elem? rows j ≡ some x
    → within s e j ≡ true
    → contains (get_selection_by_range rows s e) x.id ≡ true
unfolding get_selection_by_range
select_range-contains s e j rows h w = select_from-contains s e 0 j rows h (rw zero-add w)

check-mem :
    (selection range : List String) (x : Row)
    → contains range x.id ≡ true
    → check (selection ++ range) x ≡ record x { checked = true }
check-mem selection range x h = ground (arith, contains-append selection range x.id)

module _ (uniq : List String → List String)
    (contains-uniq : (l : List String) (a : String) → contains (uniq l) a ≡ contains l a)
    (update_selection : List Row → List String) where
  -- For every state and every row `j` of the table, after the branch for the shift key that row is
  -- checked exactly if it was before, or its record is in the renderer's selection, or it is in the
  -- range between the two bounds; its record is the same.
  select_range-checked :
      (s : State) (j : ℕ) {x : Row}
      → get_elem? s.rows j ≡ some x
      → get_elem? (select_range uniq update_selection s).rows j
        ≡ some (
            check
              (s.selection
                ++ get_selection_by_range s.rows (range_bounds s).start (range_bounds s).end)
              x)
  unfolding select_range get_range_selection
  select_range-checked s j {x} h =
      get_elem?-check_rows _ s.rows j h
      ∙ ap (λ b. some (record x { checked = b || x.checked })) (contains-uniq _ x.id)

  click_shift :
      (s : State) (c : Click) {r : Row}
      → c.shift_key ≡ true
      → get_elem? s.rows c.row ≡ some r
      → on_click_select_record uniq update_selection s c
        ≡ select_range uniq update_selection (after_check s c r)
  unfolding on_click_select_record click_row
  click_shift s c shift here = ground arith

  click_plain :
      (s : State) (c : Click) {r : Row}
      → c.shift_key ≡ false
      → get_elem? s.rows c.row ≡ some r
      → on_click_select_record uniq update_selection s c ≡ after_check s c r
  unfolding on_click_select_record click_row
  click_plain s c plain here = ground arith

  -- For every shift-click on a row of the table, once the clicked row is entered in the history: a
  -- row that lies between two checked rows of the history, those two included, is checked in the
  -- end, and still shows its record.
  pub click-between :
      (s : State) (c : Click) {r : Row} (i j k : ℕ) {a b x : Row}
      → c.shift_key ≡ true
      → get_elem? s.rows c.row ≡ some r
      → i ≤ j
      → j ≤ k
      → get_elem? (after_check s c r).rows i ≡ some a
      → is_marked (range_history (after_check s c r)) a ≡ true
      → get_elem? (after_check s c r).rows k ≡ some b
      → is_marked (range_history (after_check s c r)) b ≡ true
      → get_elem? (after_check s c r).rows j ≡ some x
      → get_elem? (on_click_select_record uniq update_selection s c).rows j
        ≡ some (record x { checked = true })
  click-between s c i j k {x = x} shift here ij jk ai am bk bm xj =
      let s' = after_check s c _ in
      let b = range_bounds s' in
      let inside : within b.start b.end j ≡ true =
        within-between b.start b.end i j k ij jk (range_bounds-Covers s' i ai am)
          (range_bounds-Covers s' k bk bm) in
      let mem : contains (get_selection_by_range s'.rows b.start b.end) x.id ≡ true =
        select_range-contains b.start b.end j s'.rows xj inside in
      ap (λ (t : State). get_elem? t.rows j) (click_shift s c shift here)
      ∙ (select_range-checked s' j xj ∙ ap some (check-mem s'.selection _ x mem))
