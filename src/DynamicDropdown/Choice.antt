-- ===== src/DynamicDropdown/Choice.antt =====
-- What the drop-down shows in its two modes, and what a choice stores.
use playground_azure_user_sy.Prelude.{
  ℕ, zero, suc, String, true, false, not, ◌≡◌, ◌≢◌, refl, ap, ◌∙◌, Option, none, some, List, [],
  ◌∷◌, if◌then◌else◌, get_elem?, map, ◌==◌, ==_iff, ==_self, String_eq, ℕ_eq, Bool-cases, inl, inr,
}
use playground_azure_user_sy.Prelude.Int.{ℤ, pos, negsuc}
use playground_azure_user_sy.DynamicDropdown.{
  OptionKey, no_key, text_key, number_key, same_number, same_key, DropdownOption, DynamicDropdown,
  is_required, placeholder_or_empty, set_values, is_set, find_option, Formatted, label_text, itself,
  dropdown_format, make_option, dropdown_render_edit, dropdown_on_change, key_text,
}

same_number→eq : (m n : ℤ) → same_number m n ≡ true → m ≡ n
same_number→eq (pos m) (pos n) h = ap pos ((==_iff m n).0 h)
same_number→eq (negsuc m) (negsuc n) h = ap negsuc ((==_iff m n).0 h)
same_number→eq (pos m) (negsuc n) h = absurd (cc)
same_number→eq (negsuc m) (pos n) h = absurd (cc)

same_key→eq : (a b : OptionKey) → same_key a b ≡ true → a ≡ b
same_key→eq no_key no_key h = refl
same_key→eq (text_key s) (text_key t) h = ap text_key ((==_iff s t).0 h)
same_key→eq (number_key m) (number_key n) h = ap number_key (same_number→eq m n h)
same_key→eq no_key (text_key t) h = absurd (cc)
same_key→eq no_key (number_key n) h = absurd (cc)
same_key→eq (text_key s) no_key h = absurd (cc)
same_key→eq (text_key s) (number_key n) h = absurd (cc)
same_key→eq (number_key m) no_key h = absurd (cc)
same_key→eq (number_key m) (text_key t) h = absurd (cc)

same_key_self : (a : OptionKey) → same_key a a ≡ true
same_key_self no_key = refl
same_key_self (text_key s) = ==_self s
same_key_self (number_key (pos n)) = ==_self n
same_key_self (number_key (negsuc n)) = ==_self n

abbrev pub one_later : Option ℕ → Option ℕ
one_later none = none
one_later (some i) = some (suc i)

-- No option has the key.
abbrev HasNone : OptionKey → List DropdownOption → Type 0
HasNone key [] = Unit {0}
HasNone key (o ∷ os) = (o.0 ≢ key) × HasNone key os

-- The option found has the key and is the one at the index, or no option has the key.
abbrev Agree : OptionKey → List DropdownOption → Option ℕ → Option DropdownOption → Type 0
Agree key os none none = HasNone key os
Agree key os (some i) (some o) = (get_elem? os i ≡ some o) × (o.0 ≡ key)
Agree key os none (some o) = ⊥
Agree key os (some i) none = ⊥

Agree-cons :
    (key : OptionKey) (o : DropdownOption) (os : List DropdownOption) (i : Option ℕ)
    (found : Option DropdownOption)
    → o.0 ≢ key
    → Agree key os i found
    → Agree key (o ∷ os) (one_later i) found
Agree-cons key o os none none ne h = (ne, h)
Agree-cons key o os none (some p) ne h = elim h [ ]
Agree-cons key o os (some i) none ne h = elim h [ ]
Agree-cons key o os (some i) (some p) ne h = h

-- The options and the one selected in edit mode go with what readonly mode shows: the option
-- selected is one of the field's value and shows the same label, or no option has the value and
-- the value itself is shown.
abbrev Selects :
    (OptionKey → String)
    → (String → String)
    → DynamicDropdown
    → List (String × String) × Option ℕ
    → Formatted
    → Type 0
Selects json_stringify html_escape f (options, none) shown =
    HasNone f.value f.values × (shown ≡ itself f.value)
Selects json_stringify html_escape f (options, some i) shown =
    (label : String) × (get_elem? f.values i ≡ some (f.value, label))
    × (get_elem? options i ≡ some (json_stringify f.value, label))
    × (shown ≡ label_text (if f.escape then html_escape label else label))

get_elem?-make_option :
    (json_stringify : OptionKey → String) (os : List DropdownOption) (i : ℕ) (o : DropdownOption)
    → get_elem? os i ≡ some o
    → get_elem? (map (make_option json_stringify) os) i ≡ some (make_option json_stringify o)
get_elem?-make_option json_stringify [] i o h = absurd (cc)
get_elem?-make_option json_stringify (p ∷ os) zero o h = cc
get_elem?-make_option json_stringify (p ∷ os) (suc i) o h =
    get_elem?-make_option json_stringify os i o h

Agree-Selects :
    (json_stringify : OptionKey → String) (html_escape : String → String) (f : DynamicDropdown)
    (i : Option ℕ) (found : Option DropdownOption)
    → Agree f.value f.values i found
    → Selects json_stringify html_escape f
        (map (make_option json_stringify) f.values, i)
        (elim found [
          | none ↦ itself f.value
          | some o ↦ label_text (if f.escape then html_escape o.1 else o.1)
        ])
Agree-Selects json_stringify html_escape f none none h = (h, refl)
Agree-Selects json_stringify html_escape f none (some o) h = elim h [ ]
Agree-Selects json_stringify html_escape f (some i) none h = elim h [ ]
Agree-Selects json_stringify html_escape f (some i) (some (key, label)) (at, same) =
    let at' : get_elem? f.values i ≡ some (f.value, label) = at ∙ ap (λ k. some (k, label)) same in
    (label, at', get_elem?-make_option json_stringify f.values i (f.value, label) at', refl)

-- `JSON.parse` reads back what `JSON.stringify` writes, and `val` selects the first of the options
-- that has the value it is given, or none.
module _ (json_stringify : OptionKey → String) (json_parse : String → Option OptionKey)
    (parse-stringify : (k : OptionKey) → json_parse (json_stringify k) ≡ some k)
    (select_val : List String → String → Option ℕ)
    (select-nil : (t : String) → select_val [] t ≡ none)
    (select-cons : (u : String) (us : List String) (t : String)
      → select_val (u ∷ us) t ≡ (if u == t then some 0 else one_later (select_val us t))) where
  stringify-injective : (a b : OptionKey) → json_stringify a ≡ json_stringify b → a ≡ b
  stringify-injective a b e = cc (ap json_parse e, parse-stringify a, parse-stringify b)

  select-find-Agree :
      (key : OptionKey) (os : List DropdownOption)
      → Agree key os
          (select_val (map (λ o. (make_option json_stringify o).0) os) (json_stringify key))
          (find_option key os)
  unfolding find_option
  select-find-Agree key [] = rw (select-nil (json_stringify key)) tt
  select-find-Agree key (o ∷ os) =
      let texts = map (λ o. (make_option json_stringify o).0) os in
      rw (select-cons (json_stringify o.0) texts (json_stringify key))
        (elim (Bool-cases (same_key o.0 key)) [
          | inl same ↦
              let e = same_key→eq o.0 key same in
              let e' : (json_stringify o.0 == json_stringify key) ≡ true =
                (==_iff (json_stringify o.0) (json_stringify key)).1 (ap json_stringify e) in
              rw (same, e') (refl, e)
          | inr other ↦
              let ne : o.0 ≢ key =
                λ e. absurd (cc (ap (λ k. same_key k key) e, same_key_self key, other)) in
              let ne' : (json_stringify o.0 == json_stringify key) ≡ false =
                elim (Bool-cases (json_stringify o.0 == json_stringify key)) [
                  | inl e ↦ absurd (
                      ne (
                        stringify-injective o.0 key
                          ((==_iff (json_stringify o.0) (json_stringify key)).0 e)))
                  | inr e ↦ e
                ] in
              rw (other, ne')
                (Agree-cons key o os (select_val texts (json_stringify key)) (find_option key os) ne
                  (select-find-Agree key os))
        ])

  -- For every field, whatever its options and its value, where `JSON.parse` reads back what
  -- `JSON.stringify` writes, and jQuery's `val` selects the first option with the text it is given:
  -- if an option is selected in edit mode, then it has the field's value as its JSON text, and
  -- readonly mode shows its label, escaped if asked for; if none is, no option has the field's
  -- value as its key, and readonly mode shows the value itself.
  pub render_edit-format :
      (html_escape : String → String) (f : DynamicDropdown)
      → Selects json_stringify html_escape f
          (dropdown_render_edit json_stringify select_val f)
          (dropdown_format html_escape f)
  unfolding dropdown_render_edit dropdown_format
  render_edit-format html_escape f =
      Agree-Selects json_stringify html_escape f
        (select_val (map (λ o. (make_option json_stringify o).0) f.values) (json_stringify f.value))
        (find_option f.value f.values) (select-find-Agree f.value f.values)

dropdown_on_change-reads :
    (json_parse : String → Option OptionKey) (number_text : ℤ → String)
    (parse_value : String → OptionKey) (f : DynamicDropdown) (val : String) {key : OptionKey}
    → json_parse val ≡ some key
    → (dropdown_on_change json_parse number_text parse_value f val).value
      ≡ parse_value (key_text number_text key)
unfolding dropdown_on_change
dropdown_on_change-reads json_parse number_text parse_value f val e =
    rw (e, dropdown_on_change) refl

-- For every field that is not required, over texts that are stored as they are: its first option
-- is the empty one, and choosing it stores the text "false", by which the field counts as set,
-- where the value of an empty field does not.
on_change-empty_option :
    (json_stringify : OptionKey → String) (json_parse : String → Option OptionKey)
    (number_text : ℤ → String) (parse_value : String → OptionKey) (f : DynamicDropdown)
    → json_parse (json_stringify no_key) ≡ some no_key
    → ((s : String) → parse_value s ≡ text_key s)
    → is_required f.required ≡ false
    → let g = set_values f in
      let g' = dropdown_on_change json_parse number_text parse_value g (json_stringify no_key) in
      (get_elem? g.values 0 ≡ some (no_key, placeholder_or_empty f.placeholder))
      × (g'.value ≡ text_key "false")
      × (is_set g' ≡ true)
      × (is_set (record f { value = no_key }) ≡ false)
unfolding set_values
on_change-empty_option json_stringify json_parse number_text parse_value f reads plain_text
      optional =
    let g = set_values f in
    let chosen : (dropdown_on_change json_parse number_text parse_value g
          (json_stringify no_key)).value
        ≡ text_key "false" =
      dropdown_on_change-reads json_parse number_text parse_value g (json_stringify no_key) reads
      ∙ plain_text "false" in
    (rw (optional) refl, chosen, ap (λ k. not (same_key k no_key)) chosen, refl)
