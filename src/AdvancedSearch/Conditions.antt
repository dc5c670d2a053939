-- ===== src/AdvancedSearch/Conditions.antt =====
-- Which condition a relational value reaches, and the filters that the conditions become.
use playground_azure_user_sy.Prelude.{
  ℕ, suc, ltb, String, Bool, true, false, Option, none, some, List, [], ◌∷◌, ◌++◌, if◌then◌else◌,
  ◌==◌, ℕ_eq, String_eq, ◌≡◌, refl, sym, ap, ◌∙◌, arith,
}
use playground_azure_user_sy.AdvancedSearch.{
  m2x_at, SearchField, FieldType, SearchOperator, Condition, FilterItem, PreFilter, index_of_field,
  change_first, add_default_condition, on_m2x_data_changed, filter_of, pre_filters, on_apply,
}

-- No condition has the index.
abbrev lacks_index : ℕ → List Condition → Bool
lacks_index i [] = true
lacks_index i (c ∷ cs) = if i == c.index then false else lacks_index i cs

change_first-none :
    (field : ℕ) (id display_name : String) (cs : List Condition)
    → change_first field none id display_name cs ≡ cs
unfolding change_first
change_first-none field id d [] = refl
change_first-none field id d (c ∷ cs) = ground (arith, change_first-none field id d cs)

-- Where no condition has the index, nothing is changed.
change_first-absent :
    (field i : ℕ) (id display_name : String) (cs : List Condition)
    → lacks_index i cs ≡ true
    → change_first field (some i) id display_name cs ≡ cs
unfolding change_first
change_first-absent field i id d [] h = refl
change_first-absent field i id d (c ∷ cs) h = ground (arith, change_first-absent field i id d cs)

abbrev pub with_value : String → String → Condition → Condition
with_value id display_name c = record c { values = id ∷ []; displayed_value = display_name }

if_cons :
    (b : Bool) (c : Condition) (xs ys : List Condition)
    → c ∷ (if b then xs else ys) ≡ (if b then c ∷ xs else c ∷ ys)
if_cons true c xs ys = refl
if_cons false c xs ys = refl

change_first-skips :
    (field i : ℕ) (id d : String) (x : Condition) (xs zs : List Condition)
    → lacks_index i (x ∷ xs) ≡ true
    → (change_first field (some i) id d (x ∷ zs) ≡ x ∷ change_first field (some i) id d zs)
      × (lacks_index i xs ≡ true)
unfolding change_first
change_first-skips field i id d x xs zs h = (ground arith, ground arith)

-- The condition with the index is changed if it has the field.
change_first-selected :
    (field : ℕ) (id d : String) (c : Condition) (xs ys : List Condition)
    → lacks_index c.index xs ≡ true
    → lacks_index c.index ys ≡ true
    → change_first field (some c.index) id d (xs ++ c ∷ ys)
      ≡ (if c.field == field then xs ++ with_value id d c ∷ ys else xs ++ c ∷ ys)
unfolding change_first
change_first-selected field id d c [] ys h k =
    ground (arith, change_first-absent field c.index id d ys)
change_first-selected field id d c (x ∷ xs) ys h k =
    let (e, h') = change_first-skips field c.index id d x xs (xs ++ c ∷ ys) h in
    e
    ∙ ap (λ zs. x ∷ zs) (change_first-selected field id d c xs ys h' k)
    ∙ if_cons (c.field == field) x (xs ++ with_value id d c ∷ ys) (xs ++ c ∷ ys)

-- A value that the field of a name reports, after a field was selected last in a condition that no
-- other shares its index with: that condition gets the value if it has the field, and else no
-- condition gets it.
pub on_m2x_data_changed-selected :
    (fields : List SearchField) (s : FilterItem) (name id d : String) (field : ℕ) (c : Condition)
    (xs ys : List Condition)
    → index_of_field fields name ≡ some field
    → s.conditions ≡ xs ++ c ∷ ys
    → s.condition_index ≡ some c.index
    → lacks_index c.index xs ≡ true
    → lacks_index c.index ys ≡ true
    → (on_m2x_data_changed fields s name id d).conditions
      ≡ (if c.field == field then xs ++ with_value id d c ∷ ys else xs ++ c ∷ ys)
unfolding on_m2x_data_changed
on_m2x_data_changed-selected fields s name id d field c xs ys n e i h k =
    ap (λ o. (m2x_at s o id d).conditions) n
    ∙ ap (λ o. change_first field o id d s.conditions) i
    ∙ ap (change_first field (some c.index) id d) e
    ∙ change_first-selected field id d c xs ys h k

-- The last selection, if there was one, was in a condition with an earlier index.
abbrev selection_before : Option ℕ → ℕ → Bool
selection_before none n = true
selection_before (some i) n = ltb i n

new_condition_missed :
    (o : Option ℕ) (field : ℕ) (id display_name : String) (c : Condition)
    → selection_before o c.index ≡ true
    → change_first field o id display_name (c ∷ []) ≡ c ∷ []
unfolding change_first
new_condition_missed none field id d c h = ground arith
new_condition_missed (some i) field id d c h = ground arith

m2x_at_missed :
    (s : FilterItem) (o : Option ℕ) (id display_name : String) (c : Condition)
    → s.conditions ≡ c ∷ []
    → selection_before s.condition_index c.index ≡ true
    → (m2x_at s o id display_name).conditions ≡ s.conditions
m2x_at_missed s none id d c e h = refl
m2x_at_missed s (some i) id d c e h =
    ap (change_first i s.condition_index id d) e
    ∙ new_condition_missed s.condition_index i id d c h
    ∙ sym e

module _ (fields : List SearchField) (operators : FieldType → List SearchOperator)
    (default_condition : Condition) (default_value : Condition → Condition) (and_label : String)
    (parse : String → String) (format : String → String) where
  -- What a condition becomes, and the filters of several.
  abbrev becomes : Condition → Option PreFilter
  becomes c = filter_of fields operators default_condition default_value and_label parse format c

  abbrev all_filters : List Condition → Option (List PreFilter)
  all_filters cs =
      pre_filters fields operators default_condition default_value and_label parse format cs

  abbrev apply : FilterItem → Option (FilterItem × List PreFilter)
  apply s = on_apply fields operators default_condition default_value and_label parse format s

  -- Each condition has a field and an operator that are there.
  abbrev pub AllValid : List Condition → Type 0
  AllValid [] = Unit {0}
  AllValid (c ∷ cs) = ((p : PreFilter) × (becomes c ≡ some p)) × AllValid cs

  -- The filter at an index is that of the condition there.
  abbrev AreFilters : List Condition → List PreFilter → Type 0
  AreFilters [] [] = Unit {0}
  AreFilters [] (p ∷ ps) = ⊥
  AreFilters (c ∷ cs) [] = ⊥
  AreFilters (c ∷ cs) (p ∷ ps) = (becomes c ≡ some p) × AreFilters cs ps

  all_filters_total :
      (cs : List Condition)
      → AllValid cs
      → (ps : List PreFilter) × (all_filters cs ≡ some ps) × AreFilters cs ps
  unfolding pre_filters
  all_filters_total [] v = ([], refl, tt)
  all_filters_total (c ∷ cs) ((p, e), v) =
      let (ps, e', a) = all_filters_total cs v in (p ∷ ps, rw (e, e'), (e, a))

  -- The item after `_onApply`: closed, with the default condition under a new index.
  abbrev applied : FilterItem → FilterItem
  applied s = record s {
    is_open = false;
    conditions = record default_condition { index = s.next_id } ∷ [];
    next_id = suc s.next_id;
  }

  apply_lem :
      (s : FilterItem) (ps : List PreFilter)
      → all_filters s.conditions ≡ some ps
      → apply s ≡ some (applied s, ps)
  unfolding on_apply add_default_condition
  apply_lem s ps e = rw (e)

  -- With a field and an operator in each condition: the filters dispatched are those of the
  -- conditions, one each and in their order, and the item is closed, with the default condition
  -- alone, under the next index.
  on_apply-filters :
      (s : FilterItem)
      → AllValid s.conditions
      → (ps : List PreFilter) × (apply s ≡ some (applied s, ps)) × AreFilters s.conditions ps
  on_apply-filters s v =
      let (ps, e, a) = all_filters_total s.conditions v in (ps, apply_lem s ps e, a)

  -- With a field and an operator in each condition, and a last selection, if any, in a condition
  -- that was there: a value that any field reports after `_onApply`, before a field is selected
  -- again, reaches no condition.
  on_apply-missed :
      (s : FilterItem) (name id display_name : String)
      → AllValid s.conditions
      → selection_before s.condition_index s.next_id ≡ true
      → (t : FilterItem) × (ps : List PreFilter) × (apply s ≡ some (t, ps))
        × ((on_m2x_data_changed fields t name id display_name).conditions ≡ t.conditions)
  unfolding on_m2x_data_changed
  on_apply-missed s name id display_name v h =
      let (ps, e, a) = all_filters_total s.conditions v in
      (
        applied s,
        ps,
        apply_lem s ps e,
        m2x_at_missed (applied s) (index_of_field fields name) id display_name
            (record default_condition { index = s.next_id }) refl h,
      )
