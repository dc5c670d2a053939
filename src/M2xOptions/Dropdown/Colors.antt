-- ===== src/M2xOptions/Dropdown/Colors.antt =====
-- What coloring leaves of the entries: all but the labels of records.
use playground_azure_user_sy.Prelude.{
  ℕ, String, false, ◌≡◌, refl, Option, none, some, List, [], ◌∷◌, ◌++◌, arith, ℕ_eq, String_eq, ◌∙◌,
  contains, ==_self,
}
use playground_azure_user_sy.M2xOptions.Dropdown.{
  Web, Item, Action, Found, color_object, color_items, lookup_color,
}

-- The records among some entries, the actions, and the labels of entries that are no records.
abbrev cons_some {ℓ} : {A : Type ℓ} → Option A → List A → List A
cons_some none l = l
cons_some (some a) l = a ∷ l

abbrev pub ids_of : List Item → List ℕ
ids_of [] = []
ids_of (v ∷ vs) = cons_some v.id (ids_of vs)

abbrev pub actions_of : List Item → List Action
actions_of [] = []
actions_of (v ∷ vs) = cons_some v.action (actions_of vs)

abbrev plain_labels : List Item → List String
plain_labels [] = []
plain_labels (v ∷ vs) = elim v.id [ none ↦ v.label ∷ plain_labels vs | some i ↦ plain_labels vs ]

pub ids_of-append : (xs ys : List Item) → ids_of (xs ++ ys) ≡ ids_of xs ++ ids_of ys
ids_of-append [] ys = refl
ids_of-append (x ∷ xs) ys = ground (arith, ids_of-append xs ys)

pub actions_of-append : (xs ys : List Item) → actions_of (xs ++ ys) ≡ actions_of xs ++ actions_of ys
actions_of-append [] ys = refl
actions_of-append (x ∷ xs) ys = ground (arith, actions_of-append xs ys)

contains-rest :
    (o : Option ℕ) (l : List ℕ) (i : ℕ) → contains (cons_some o l) i ≡ false → contains l i ≡ false
contains-rest none l i h = h
contains-rest (some j) l i h = ground arith

module _ (w : Web) (colors : List (String × String)) where
  -- Coloring one object's entry.
  color_object_keeps :
      (o : Found) (vs : List Item)
      → (ids_of (color_object w colors o vs) ≡ ids_of vs)
        × (actions_of (color_object w colors o vs) ≡ actions_of vs)
        × (plain_labels (color_object w colors o vs) ≡ plain_labels vs)
  unfolding color_object
  color_object_keeps (i, key) [] = (refl, refl, refl)
  color_object_keeps (i, key) (v ∷ vs) =
      let (a, b, c) = color_object_keeps (i, key) vs in ground arith

  pub color_items_keeps :
      (os : List Found) (vs : List Item)
      → (ids_of (color_items w colors os vs) ≡ ids_of vs)
        × (actions_of (color_items w colors os vs) ≡ actions_of vs)
        × (plain_labels (color_items w colors os vs) ≡ plain_labels vs)
  unfolding color_items
  color_items_keeps [] vs = (refl, refl, refl)
  color_items_keeps (o ∷ os) vs =
      let (a, b, c) = color_items_keeps os (color_object w colors o vs) in
      let (a', b', c') = color_object_keeps o vs in (a ∙ a', b ∙ b', c ∙ c')

  -- For every entry `v` of a record that stands first among the entries with that record, the
  -- object read for the record colors `v`, by the color that the options give to the object's
  -- field, and leaves all other entries as they are; an object of no entry changes nothing.
  color_object-first :
      (i : ℕ) (key : String) (xs ys : List Item) (v : Item)
      → contains (ids_of xs) i ≡ false
      → v.id ≡ some i
      → (color_object w colors (i, key) (xs ++ v ∷ ys)
          ≡ xs ++ record v { label = w.colored (lookup_color colors key) v.label } ∷ ys)
        × (color_object w colors (i, key) xs ≡ xs)
  unfolding color_object
  color_object-first i key [] ys v fresh here = (ground (arith, ==_self i), refl)
  color_object-first i key (x ∷ xs) ys v fresh here =
      let (p, q) = color_object-first i key xs ys v (contains-rest x.id (ids_of xs) i fresh) here in
      (ground arith, ground arith)
