-- ===== src/ColumnWidth/Examples.antt =====
-- The theorem about the widths of columns, with a storage that is an association list.
use playground_azure_user_sy.Prelude.{
  ℕ, ◌+◌, ◌*◌, ◌-◌, leb, false, ◌&&◌, Option, none, some, List, [], ◌∷◌, get_elem?, if◌then◌else◌,
  ℕ_eq, ◌≡◌, refl,
}
use playground_azure_user_sy.ColumnWidth.{
  Text, is_key, get_local_storage_width_column_name, Header, header_width, ListRenderer,
  on_mouse_down_resize, on_mouse_up_resize, stored_width, squeeze_table, ResizeEvent, pointer_down,
  mouse_up, resize_event, resize_run,
}
use playground_azure_user_sy.ColumnWidth.Resizes.{squeeze_table-resizes}

abbrev Items : Type 0
Items = List (Text × ℕ)

abbrev get_item : Items → Text → Option ℕ
get_item [] k = none
get_item ((j, v) ∷ items) k = let rest = get_item items k in if is_key j k then some v else rest

abbrev set_item : Items → Text → ℕ → Items
set_item items k v = (k, v) ∷ items

get_item-set_item :
    (items : Items) (k j : Text) (v : ℕ)
    → get_item (set_item items k v) j ≡ (if is_key k j then some v else get_item items j)
get_item-set_item items k j v = refl

-- The number that the digits at the start of a text make, after `n`.
abbrev read_digits : ℕ → Text → ℕ
read_digits n [] = n
read_digits n (c ∷ t) =
    let rest = read_digits (10 * n + (c - 48)) t in if leb 48 c && leb c 57 then rest else n

abbrev parse_digits : Text → Option ℕ
parse_digits [] = none
parse_digits (c ∷ t) = if leb 48 c && leb c 57 then some (read_digits 0 (c ∷ t)) else none

-- The columns "a", of 120px, and "b", of 85.5px, in lists of the model "m".
abbrev column_a : Header
column_a = record { name = some (97 ∷ []); width = 49 ∷ 50 ∷ 48 ∷ 112 ∷ 120 ∷ [] }

abbrev column_b : Header
column_b = record { name = some (98 ∷ []); width = 56 ∷ 53 ∷ 46 ∷ 53 ∷ 112 ∷ 120 ∷ [] }

abbrev new_list : ListRenderer Items get_item set_item parse_digits
new_list = record { model = 109 ∷ []; resize_in_progress = false; storage = [] }

-- A resize that ends on "b", and one outside the header cells.
abbrev session : List (ResizeEvent Items get_item set_item parse_digits)
session =
    pointer_down
    ∷ mouse_up (some column_b)
    ∷ pointer_down
    ∷ mouse_up none
    ∷ mouse_up (some column_a)
    ∷ []

abbrev squeezed : List (Option ℕ)
squeezed =
    squeeze_table Items get_item set_item parse_digits
      (resize_run Items get_item set_item parse_digits new_list session).storage (109 ∷ [])
      (column_a ∷ column_b ∷ []) (some 10 ∷ some 20 ∷ [])

squeeze_table-resizes_example : get_elem? squeezed 1 ≡ some (some 85)
unfolding stored_width header_width
squeeze_table-resizes_example =
    squeeze_table-resizes Items get_item set_item parse_digits get_item-set_item new_list (109 ∷ [])
      (98 ∷ []) session (column_a ∷ column_b ∷ []) (some 10 ∷ some 20 ∷ []) 1 column_b (some 20)
      refl (refl, (refl, tt)) refl refl refl

-- The width of "a" is the one of the list renderer.
first_column : get_elem? squeezed 0 ≡ some (some 10)
unfolding squeeze_table stored_width resize_run resize_event on_mouse_down_resize on_mouse_up_resize
    header_width get_local_storage_width_column_name
first_column = refl
