-- ===== src/RangeSelect/History.antt =====
-- The range history, of a renderer or of the prototype that it starts from.
use playground_azure_user_sy.Prelude.{
  ◌≤◌, ◌<◌, String, true, false, ◌≡◌, none, some, List, [], ◌∷◌, length, length-append, contains,
  contains-append, String_eq, ℕ_eq, ==_self, get_elem?, arith, if◌then◌else◌,
}
use mathlib.Core.List.{foldl}
use playground_azure_user_sy.RangeSelect.Handler.{put_row}
use playground_azure_user_sy.RangeSelect.{
  Row, Renderer, State, Click, clicked, after_check, select_range, range_history,
  push_range_history, on_click_select_record, click_row, history_of,
}

-- Neither of the two histories has more than two records.
record IsShort (s : State) : Type 0 where
  own_short : length (history_of s.own []) ≤ 2
  shared_short : length s.shared ≤ 2

push-IsShort : (s : State) (id : String) → IsShort s → IsShort (push_range_history s id)
unfolding push_range_history range_history
push-IsShort s id h =
    elim s.own
        as (λ o.
          IsShort (record s { renderer = record (s.renderer) { own = o } })
          → IsShort
              (push_range_history (record s { renderer = record (s.renderer) { own = o } }) id)) [
                | none ↦ λ k. ground (arith, length-append s.shared (id ∷ []))
                | some l ↦ λ k. ground (arith, length-append l (id ∷ []))
              ]
      h

after_check-IsShort : (s : State) (c : Click) (r : Row) → IsShort s → IsShort (after_check s c r)
unfolding after_check
after_check-IsShort s c r h =
    let h' : IsShort (put_row s c r) = record {
      own_short = h.own_short;
      shared_short = h.shared_short;
    } in
    elim (clicked c r).checked
      as (λ b. IsShort (if b then push_range_history (put_row s c r) r.id else put_row s c r)) [
        | true ↦ push-IsShort (put_row s c r) r.id h'
        | false ↦ h'
      ]

-- A session on one table.
module _ (uniq : List String → List String) (update_selection : List Row → List String) where
  abbrev pub run : State → List Click → State
  run = foldl (on_click_select_record uniq update_selection)

  select_range-IsShort : (s : State) → IsShort s → IsShort (select_range uniq update_selection s)
  unfolding select_range
  select_range-IsShort s h = record { own_short = h.own_short; shared_short = h.shared_short }

  click-IsShort :
      (s : State) (c : Click)
      → IsShort s
      → IsShort (on_click_select_record uniq update_selection s c)
  unfolding on_click_select_record click_row
  click-IsShort s c h =
      elim (get_elem? s.rows c.row)
        as (λ o.
          IsShort (elim o as (λ _. State) [
            | none ↦ s
            | some r ↦ click_row uniq update_selection s c r
          ])) [
            | none ↦ h
            | some r ↦
                elim c.shift_key
                  as (λ b. IsShort (
                    if b
                    then select_range uniq update_selection (after_check s c r)
                    else after_check s c r)) [
                      | true ↦ select_range-IsShort _ (after_check-IsShort s c r h)
                      | false ↦ after_check-IsShort s c r h
                    ]
          ]

  -- After any clicks on a table, with or without the shift key, neither the renderer's own history
  -- nor the prototype's has more than two records, if neither had at the start.
  run-IsShort : (clicks : List Click) (s : State) → IsShort s → IsShort (run s clicks)
  run-IsShort [] s h = h
  run-IsShort (c ∷ cs) s h = run-IsShort cs _ (click-IsShort s c h)

  -- While two renderers have no history of their own and the prototype's is not full, a click that
  -- leaves a row of the one checked enters its record in the history of the other.
  click-shared :
      (s : State) (other : Renderer) (c : Click) {r : Row}
      → s.own ≡ none
      → other.own ≡ none
      → length s.shared < 2
      → get_elem? s.rows c.row ≡ some r
      → (clicked c r).checked ≡ true
      → contains
          (range_history (record {
            renderer = other;
            shared = (on_click_select_record uniq update_selection s c).shared;
          }))
          r.id
        ≡ true
  unfolding on_click_select_record click_row select_range after_check push_range_history
      range_history
  click-shared s other c {r} so oo n here ch =
      ground (arith, contains-append s.shared (r.id ∷ []) r.id, ==_self r.id)
