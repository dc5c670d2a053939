-- ===== src/RangeSelect/Examples.antt =====
-- A table of four rows: a click on the second, then a shift-click on the fourth.
use playground_azure_user_sy.Prelude.{
  String, Bool, true, false, ◌≡◌, refl, Option, none, some, List, [], ◌∷◌, contains, String_eq,
  ==_iff, get_elem?, arith, if◌then◌else◌,
}
use playground_azure_user_sy.RangeSelect.{
  Row, State, Click, get_selection_by_range, range_history, after_check, select_range,
  push_range_history, on_click_select_record,
}
use playground_azure_user_sy.RangeSelect.Range.{get_selection_by_range-segment}
use playground_azure_user_sy.RangeSelect.Handler.{click-between}

-- Functions with what the handler relies on.
uniq : List String → List String
uniq [] = []
uniq (x ∷ xs) = let rest = uniq xs in if contains xs x then rest else x ∷ rest

contains-uniq : (l : List String) (a : String) → contains (uniq l) a ≡ contains l a
unfolding uniq
contains-uniq [] a = refl
contains-uniq (x ∷ xs) a = ground (arith, contains-uniq xs a, ==_iff x a)

checked_ids : List Row → List String
checked_ids [] = []
checked_ids (r ∷ rs) = let rest = checked_ids rs in if r.checked then r.id ∷ rest else rest

abbrev row : String → Bool → Row
row id checked = record { id = id; checked = checked }

abbrev second_checked : List Row
second_checked = row "a" false ∷ row "b" true ∷ row "c" false ∷ row "d" false ∷ []

abbrev fourth_checked : List Row
fourth_checked = row "a" false ∷ row "b" true ∷ row "c" false ∷ row "d" true ∷ []

abbrev table : List Row → Option (List String) → List String → State
table rows own shared = record {
  renderer = record { rows = rows; own = own; selection = []; text_selected = true };
  shared = shared;
}

abbrev click_second : Click
click_second = record { row = 1; shift_key = false; firefox = false }

abbrev shift_fourth : Click
shift_fourth = record { row = 3; shift_key = true; firefox = false }

abbrev before_shift : State
before_shift = table fourth_checked none ("b" ∷ [])

abbrev with_both : State
with_both = table fourth_checked (some ("b" ∷ "d" ∷ [])) []

range_of_rows : get_selection_by_range fourth_checked (some 1) (some 3) ≡ "b" ∷ "c" ∷ "d" ∷ []
unfolding get_selection_by_range
range_of_rows = refl

rows_after_shift :
    (on_click_select_record uniq checked_ids before_shift shift_fourth).rows
    ≡ row "a" false ∷ row "b" true ∷ row "c" true ∷ row "d" true ∷ []
unfolding on_click_select_record uniq checked_ids after_check select_range push_range_history
rows_after_shift = refl

get_selection_by_range-segment_example :
    (get_selection_by_range fourth_checked (some 1) (some 3) ≡ "b" ∷ "c" ∷ "d" ∷ [])
    × (get_selection_by_range fourth_checked (some 1) none ≡ "b" ∷ [])
    × (get_selection_by_range fourth_checked none none ≡ [])
get_selection_by_range-segment_example = get_selection_by_range-segment fourth_checked 1 3 none

click-between_example :
    get_elem? (on_click_select_record uniq checked_ids before_shift shift_fourth).rows 2
    ≡ some (row "c" true)
unfolding after_check push_range_history range_history
click-between_example =
    click-between uniq contains-uniq checked_ids before_shift shift_fourth 1 2 3 {a = row "b" true}
      {b = row "d" true} {x = row "c" false} refl refl (omega arith) (omega arith) refl refl refl
      refl refl
