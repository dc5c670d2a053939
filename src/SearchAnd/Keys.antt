-- ===== src/SearchAnd/Keys.antt =====
-- The keys of the search bar together, and with the query.
use playground_azure_user_sy.Prelude.{
  ℕ, String, Bool, true, false, ◌&&◌, ◌||◌, some, List, [], ◌∷◌, length, ◌==◌, ℕ_eq, String_eq, ◌≡◌,
  refl, ap, ◌∙◌, ◌<◌, Bool-cases, inl, inr, arith,
}
use playground_azure_user_sy.Prelude.Int.{pos, ◌+ℤ◌, ◌-ℤ◌}
use playground_azure_user_sy.SearchAnd.{
  drawn_group, QueryElem, has_completion, add_auto_completion_values,
}
use playground_azure_user_sy.SearchAnd.Domain.{
  query_holds, is_unused, add_auto_completion_values_and,
}
use playground_azure_user_sy.SearchAnd.SearchBar.{
  Source, SearchBar, BarKey, BarEffect, prevent_default, close_auto_complete, add, arrow_down,
  arrow_up, enter, source_at, completion_of, select_source, next_index, previous_index, on_key,
  on_search_keydown,
}

previous_index-next_index : (n i : ℕ) → i < n → previous_index n (next_index n (pos i)) ≡ pos i
unfolding next_index previous_index ◌+ℤ◌ ◌-ℤ◌
previous_index-next_index n i h = ground arith

next_index-previous_index : (n i : ℕ) → i < n → next_index n (previous_index n (pos i)) ≡ pos i
unfolding next_index previous_index ◌+ℤ◌ ◌-ℤ◌
next_index-previous_index n i h = ground arith

-- The query after the effects, of which the completions change it.
abbrev pub apply_effects : (ℕ → ℕ) → ℕ → List QueryElem → List BarEffect → List QueryElem
apply_effects groups drawn query [] = query
apply_effects groups drawn query (add c ∷ effects) =
    apply_effects groups drawn (add_auto_completion_values groups drawn query c) effects
apply_effects groups drawn query (effect ∷ effects) = apply_effects groups drawn query effects

module _ (parse_with_source : String → Source → String) (text_length : String → ℕ) where
  -- A key press that is not part of a composition.
  abbrev pub press : SearchBar → BarKey → Bool → ℕ → SearchBar × List BarEffect
  press b key shift start =
      on_search_keydown parse_with_source text_length b
        (record { is_composing = false; shift_key = shift; key = key; selection_start = start })

  press_down :
      (b : SearchBar) (start : ℕ) (shift : Bool)
      → 0 < length b.sources
      → (press b arrow_down shift start).0 ≡ record b {
        focused_item = next_index (length b.sources) b.focused_item;
        is_shift_key = shift;
      }
  unfolding on_search_keydown on_key
  press_down b start shift h = elim (Bool-cases (length b.sources == 0)) [
    | inl e ↦ ground arith
    | inr e ↦ rw (e)
  ]

  press_up :
      (b : SearchBar) (start : ℕ) (shift : Bool)
      → (press b arrow_up shift start).0 ≡ record b {
        focused_item = previous_index (length b.sources) b.focused_item;
        is_shift_key = shift;
      }
  unfolding on_search_keydown on_key
  press_up b start shift = refl

  -- Down and then up, or up and then down, the focus is back on the source where it was.
  press-back :
      (b : SearchBar) (i start : ℕ) (shift : Bool)
      → b.focused_item ≡ pos i
      → i < length b.sources
      → let down = (press b arrow_down shift start).0 in
        let up = (press b arrow_up shift start).0 in
        ((press down arrow_up shift start).0.focused_item ≡ pos i)
        × ((press up arrow_down shift start).0.focused_item ≡ pos i)
  press-back b i start shift h k =
      let n = length b.sources in
      let up = (press b arrow_up shift start).0 in
      (
        ap (λ x. (press x arrow_up shift start).0.focused_item)
              (press_down b start shift (omega arith))
            ∙ ap SearchBar.focused_item (press_up _ start shift)
            ∙ ap (λ x. previous_index n (next_index n x)) h
            ∙ previous_index-next_index n i k,
        ap (λ x. (press x arrow_down shift start).0.focused_item) (press_up b start shift)
            ∙ ap SearchBar.focused_item (press_down _ start shift (omega arith))
            ∙ ap (λ x. next_index n (previous_index n x)) h
            ∙ next_index-previous_index n i k,
      )

  -- Enter, with a text in the bar, on a source that is active.
  press_enter :
      (b : SearchBar) (s : Source) (start : ℕ) (shift : Bool)
      → (b.input_value == "") ≡ false
      → source_at b.sources b.focused_item ≡ some s
      → s.active ≡ true
      → press b enter shift start ≡ (
        record b { is_shift_key = shift },
        prevent_default
            ∷ add
                (completion_of parse_with_source text_length (record b { is_shift_key = shift }) s)
            ∷ close_auto_complete
            ∷ [],
      )
  unfolding on_search_keydown on_key select_source
  press_enter b s start shift h k a = rw (h, k, a)

  -- Shift and Enter, with a text in the bar and on an active source, is one more condition: the
  -- records that meet the query then are those that met it before and meet the completion; they are
  -- the same as before where the query has its element. The number that is drawn is not in use.
  pub press_enter-narrows :
      (holds : ℕ → String → String → Bool) (groups : ℕ → ℕ) (drawn : ℕ) (q : List QueryElem)
      (b : SearchBar) (s : Source) (start : ℕ)
      → (b.input_value == "") ≡ false
      → source_at b.sources b.focused_item ≡ some s
      → s.active ≡ true
      → is_unused (drawn_group drawn) q ≡ true
      → let c = completion_of parse_with_source text_length (record b { is_shift_key = true }) s in
        query_holds holds (apply_effects groups drawn q (press b enter true start).1)
        ≡ (query_holds holds q && (has_completion c q || holds c.filter_id c.value c.operator))
  press_enter-narrows holds groups drawn q b s start h k a u =
      let c = completion_of parse_with_source text_length (record b { is_shift_key = true }) s in
      ap (λ p. query_holds holds (apply_effects groups drawn q p.1))
        (press_enter b s start true h k a)
      ∙ add_auto_completion_values_and holds groups drawn q c refl u
