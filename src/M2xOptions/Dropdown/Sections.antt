-- ===== src/M2xOptions/Dropdown/Sections.antt =====
-- Which entries the drop-down of `_search` has.
use playground_azure_user_sy.Prelude.{
  ℕ, zero, suc, ◌-◌, String, true, false, ◌≡◌, ◌≢◌, refl, ap, Option, none, some, List, [], ◌∷◌,
  ◌++◌, length, length-map, arith, ℕ_eq, String_eq, if◌then◌else◌, ◌∙◌, map, take, append_assoc,
  append-nil,
}
use playground_azure_user_sy.Prelude.Int.{ℤ, pos, negsuc}
use playground_azure_user_sy.M2xOptions.Limit.{set_limit, slice_to}
use playground_azure_user_sy.M2xOptions.Dropdown.{
  read_objects, Web, Item, Action, action_item, search_more, quick_create, create_and_edit, Found,
  Field, Request, record_item, record_items, search_more_items, quick_create_items, last_items,
  dropdown, shows_search_more, shows_quick_create, shows_create_edit, search, coloring, color_items,
  search_request,
}
use playground_azure_user_sy.M2xOptions.Dropdown.Colors.{
  ids_of, actions_of, ids_of-append, actions_of-append, color_items_keeps,
}

abbrev pub id_list : List Found → List ℕ
id_list = map (λ (x : Found). x.0)

take-map {ℓ κ} :
    {A : Type ℓ} {B : Type κ} (f : A → B) (n : ℕ) (xs : List A)
    → take n (map f xs) ≡ map f (take n xs)
take-map f zero xs = refl
take-map f (suc n) [] = refl
take-map f (suc n) (x ∷ xs) = ap (λ r. f x ∷ r) (take-map f n xs)

slice_to-map {ℓ κ} :
    {A : Type ℓ} {B : Type κ} (f : A → B) (limit : Option ℤ) (xs : List A)
    → slice_to limit (map f xs) ≡ map f (slice_to limit xs)
unfolding slice_to
slice_to-map f none xs = refl
slice_to-map f (some (pos n)) xs = take-map f n xs
slice_to-map f (some (negsuc n)) xs = rw length-map (take-map f (length xs - suc n) xs)

ids_of-record_items : (w : Web) (xs : List Found) → ids_of (map (record_item w) xs) ≡ id_list xs
unfolding record_item
ids_of-record_items w [] = refl
ids_of-record_items w (x ∷ xs) = ap (λ r. x.0 ∷ r) (ids_of-record_items w xs)

actions_of-record_items : (w : Web) (xs : List Found) → actions_of (map (record_item w) xs) ≡ []
unfolding record_item
actions_of-record_items w [] = refl
actions_of-record_items w (x ∷ xs) = actions_of-record_items w xs

-- The records that the drop-down shows, of those that the server found.
abbrev pub shown_found : Field → List Found → List Found
shown_found f result =
    if shows_search_more f (length result)
    then slice_to (set_limit f.ir f.node f.limit) result
    else result

module _ (w : Web) (f : Field) (val : String) (result : List Found) where
  -- The display names of what was found.
  abbrev pub raw_result : List String
  raw_result = map (λ (x : Found). w.display_name x.1) result

  record_items-map : record_items w f val result ≡ map (record_item w) (shown_found f result)
  unfolding record_items
  record_items-map =
      rw (length-map result (record_item w))
        (elim (shows_search_more f (length result))
          as (λ b.
            (if b
              then slice_to (set_limit f.ir f.node f.limit) (map (record_item w) result)
              else map (record_item w) result)
            ≡ map (record_item w)
                (if b then slice_to (set_limit f.ir f.node f.limit) result else result)) [
                  | true ↦ slice_to-map _ (set_limit f.ir f.node f.limit) result
                  | false ↦ refl
                ])

  -- The actions, in the order of the entries.
  abbrev pub expected_actions : List Action
  expected_actions =
      (if shows_search_more f (length result) then search_more ∷ [] else [])
      ++ (if shows_quick_create f raw_result val then quick_create val ∷ [] else [])
      ++ (if shows_create_edit f then create_and_edit val ∷ [] else [])

  ids_of-record_items_lem : ids_of (record_items w f val result) ≡ id_list (shown_found f result)
  ids_of-record_items_lem =
      ap ids_of record_items-map ∙ ids_of-record_items w (shown_found f result)

  actions_of-record_items_lem : actions_of (record_items w f val result) ≡ []
  actions_of-record_items_lem =
      ap actions_of record_items-map ∙ actions_of-record_items w (shown_found f result)

  search_more_items-parts :
      (ids_of (search_more_items w f val result) ≡ [])
      × (actions_of (search_more_items w f val result)
          ≡ (if shows_search_more f (length result) then search_more ∷ [] else []))
  unfolding search_more_items
  search_more_items-parts = rw (length-map result (record_item w)) (ground arith)

  quick_create_items-parts :
      (ids_of (quick_create_items w f val result) ≡ [])
      × (actions_of (quick_create_items w f val result)
          ≡ (if shows_quick_create f raw_result val then quick_create val ∷ [] else []))
  unfolding quick_create_items
  quick_create_items-parts = ground arith

  abbrev edit_item : Item
  edit_item = action_item w w.create_edit_label (create_and_edit val)

  last_items-parts :
      (vs : List Item)
      → (ids_of (last_items w f val result vs) ≡ ids_of vs)
        × (actions_of (last_items w f val result vs)
            ≡ actions_of vs ++ (if shows_create_edit f then create_and_edit val ∷ [] else []))
        × (last_items w f val result vs ≢ [])
  unfolding last_items
  last_items-parts [] = (ground arith, ground arith, λ h. ground arith)
  last_items-parts (v ∷ vs) = (
    ground (arith, ids_of-append (v ∷ vs) (edit_item ∷ []), append-nil (ids_of (v ∷ vs))),
    ground (arith, actions_of-append (v ∷ vs) (edit_item ∷ []), append-nil (actions_of (v ∷ vs))),
    λ h. ground arith,
  )

  dropdown-ids : ids_of (dropdown w f val result) ≡ id_list (shown_found f result)
  unfolding dropdown
  dropdown-ids =
      rw
        (
          (last_items-parts _).0,
          ids_of-append,
          ids_of-append,
          search_more_items-parts.0,
          quick_create_items-parts.0,
          append-nil,
          append-nil,
        )
        ids_of-record_items_lem

  dropdown-actions : actions_of (dropdown w f val result) ≡ expected_actions
  unfolding dropdown
  dropdown-actions = rw (
    (last_items-parts _).1,
    actions_of-append,
    actions_of-append,
    actions_of-record_items_lem,
    search_more_items-parts.1,
    quick_create_items-parts.1,
    append_assoc,
  )

  dropdown-ne-nil : dropdown w f val result ≢ []
  unfolding dropdown
  dropdown-ne-nil = (last_items-parts _).2

-- The search as a whole.
module _ (w : Web) (name_search : Request → List Found) (read_colors : String → List ℕ → List Found)
    (f : Field) (val : String) where
  abbrev found : List Found
  found = name_search (search_request f val)

  abbrev painted : Option (List (String × String)) → List Item
  painted none = dropdown w f val found
  painted (some m) = color_items w m (read_objects read_colors f found) (dropdown w f val found)

  painted_keeps :
      (o : Option (List (String × String)))
      → (ids_of (painted o) ≡ ids_of (dropdown w f val found))
        × (actions_of (painted o) ≡ actions_of (dropdown w f val found))
  painted_keeps none = (refl, refl)
  painted_keeps (some m) =
      let (a, b, c) =
        color_items_keeps w m (read_objects read_colors f found) (dropdown w f val found) in
      (a, b)

  -- For every search, colored or not, and every answer of the server: the records among the
  -- entries are those found, in their order, cut at the limit exactly if "Search More..." is shown;
  -- the actions are "Search More...", the quick creation of the search text and "Create and
  -- Edit...", in this order, each exactly if its test allows it.
  pub search-entries :
      let items = (search w name_search read_colors f val).1 in
      (ids_of items ≡ id_list (shown_found f found))
      × (actions_of items ≡ expected_actions w f val found)
  unfolding search
  search-entries =
      elim (coloring f.node)
        as (λ o.
          (ids_of (painted o) ≡ id_list (shown_found f found))
          × (actions_of (painted o) ≡ expected_actions w f val found)) [
            | none ↦ (dropdown-ids w f val found, dropdown-actions w f val found)
            | some m ↦ (
              (painted_keeps (some m)).0 ∙ dropdown-ids w f val found,
              (painted_keeps (some m)).1 ∙ dropdown-actions w f val found,
            )
          ]
