-- ===== src/SearchAnd/SearchBar.antt =====
-- search_bar.js: the keys in the search bar, and the choice of a source.
use playground_azure_user_sy.Prelude.{
  ℕ, zero, suc, String, Bool, true, false, Option, none, some, List, [], ◌∷◌, length, get_elem?,
  ◌==◌, ℕ_eq, String_eq, if◌then◌else◌,
}
use playground_azure_user_sy.Prelude.Int.{ℤ, pos, negsuc, ◌+ℤ◌, ◌-ℤ◌, ltb_ℤ}
use playground_azure_user_sy.SearchAnd.{Completion}

-- A source of the completion: its text, if it has one of its own, its value, if it has one, the
-- filter, the operators, whether it can be expanded and is, and the index of its parent, −1 where
-- the parent is not among the sources.
pub record Source : Type 0 where
  pub active : Bool
  pub label : String
  pub value : Option String
  pub filter_id : ℕ
  pub filter_operator : String
  pub operator : String
  pub expand : Bool
  pub expanded : Bool
  pub parent : Option ℤ

-- The state of the bar; of the facets, only their number.
pub record SearchBar : Type 0 where
  pub sources : List Source
  pub focused_item : ℤ
  pub input_value : String
  pub is_shift_key : Bool
  pub facets : ℕ

pub data BarKey : Type 0 where
  arrow_down arrow_left arrow_right arrow_up backspace enter tab escape other : BarKey

pub record Keydown : Type 0 where
  pub is_composing : Bool
  pub shift_key : Bool
  pub key : BarKey
  pub selection_start : ℕ

-- What the handler asks of the web client: `add` is the dispatch of a completion.
pub data BarEffect : Type 0 where
  prevent_default focus_view close_auto_complete dispatch_search : BarEffect
  expand_source : Source → Bool → BarEffect
  focus_facet : ℤ → BarEffect
  remove_facet : ℕ → BarEffect
  add : Completion → BarEffect

abbrev pub text_or : String → String → String
text_or s t = if s == "" then t else s

-- `this.state.sources[this.state.focusedItem]`, if there is one.
abbrev pub source_at : List Source → ℤ → Option Source
source_at sources (pos i) = get_elem? sources i
source_at sources (negsuc i) = none

-- The next and the previous index among so many sources, around the ends.
unfoldable pub next_index : ℕ → ℤ → ℤ
next_index n i = if ltb_ℤ (i +ℤ pos 1) (pos n) then i +ℤ pos 1 else pos 0

unfoldable pub previous_index : ℕ → ℤ → ℤ
previous_index n i = if ltb_ℤ (i -ℤ pos 1) (pos 0) then pos n -ℤ pos 1 else i -ℤ pos 1

-- `parse_with_source` is `_parseWithSource`, and `text_length` the length of a text in JavaScript.
module _ (parse_with_source : String → Source → String) (text_length : String → ℕ) where
  abbrev pub completion_of : SearchBar → Source → Completion
  completion_of b s =
      let label = text_or s.label b.input_value in
      record {
        filter_id = s.filter_id;
        label = label;
        value = elim s.value [ none ↦ parse_with_source label s | some v ↦ v ];
        operator = text_or s.filter_operator s.operator;
        is_shift_key = b.is_shift_key;
      }

  -- `_selectSource`, where there may be no source.
  unfoldable pub select_source : SearchBar → Option Source → List BarEffect
  select_source b none = close_auto_complete ∷ []
  select_source b (some s) =
      if s.active
      then add (completion_of b s) ∷ close_auto_complete ∷ []
      else close_auto_complete ∷ []

  unfoldable on_arrow_left : SearchBar → Option Source → ℕ → SearchBar × List BarEffect
  on_arrow_left b current start =
      let facet : SearchBar × List BarEffect =
        if start == 0 then (b, focus_facet (pos b.facets -ℤ pos 1) ∷ []) else (b, []) in
      elim current [
        | none ↦ facet
        | some s ↦
            if s.expanded
            then (b, prevent_default ∷ expand_source s false ∷ [])
            else (elim s.parent [
              | none ↦ facet
              | some p ↦ (record b { focused_item = p }, prevent_default ∷ [])
            ])
      ]

  unfoldable on_arrow_right : SearchBar → Option Source → ℕ → SearchBar × List BarEffect
  on_arrow_right b current start =
      let facet : SearchBar × List BarEffect = (b, focus_facet (pos 0) ∷ []) in
      let moved : SearchBar × List BarEffect = elim current [
        | none ↦ facet
        | some s ↦
            if s.expand
            then (if s.expanded
                then (record b { focused_item = b.focused_item +ℤ pos 1 }, prevent_default ∷ [])
                else (b, prevent_default ∷ expand_source s true ∷ []))
            else facet
      ] in
      if start == text_length b.input_value then moved else (b, [])

  -- The keys, with the shift key noted. Enter falls through to Tab where there is a text.
  unfoldable pub on_key : SearchBar → Option Source → BarKey → ℕ → SearchBar × List BarEffect
  unfolding select_source on_arrow_left on_arrow_right
  on_key b current arrow_down start =
      if length b.sources == 0 then (b, prevent_default ∷ focus_view ∷ []) else (
        record b { focused_item = next_index (length b.sources) b.focused_item },
        prevent_default ∷ [],
      )
  on_key b current arrow_left start = on_arrow_left b current start
  on_key b current arrow_right start = on_arrow_right b current start
  on_key b current arrow_up start = (
    record b { focused_item = previous_index (length b.sources) b.focused_item },
    prevent_default ∷ [],
  )
  on_key b current backspace start = (
    b,
    if b.input_value == "" then (elim b.facets [ zero ↦ [] | suc n ↦ remove_facet n ∷ [] ]) else [],
  )
  on_key b current enter start = (
    b,
    if b.input_value == "" then dispatch_search ∷ [] else prevent_default ∷ select_source b current,
  )
  on_key b current tab start =
      (b, if b.input_value == "" then [] else prevent_default ∷ select_source b current)
  on_key b current escape start =
      (b, if length b.sources == 0 then [] else close_auto_complete ∷ [])
  on_key b current other start = (b, [])

  -- `_onSearchKeydown`
  unfoldable pub on_search_keydown : SearchBar → Keydown → SearchBar × List BarEffect
  unfolding on_key
  on_search_keydown b ev =
      let noted = record b { is_shift_key = ev.shift_key } in
      if ev.is_composing
      then (b, [])
      else on_key noted (source_at b.sources b.focused_item) ev.key ev.selection_start
