-- ===== src/DomainEditor.antt =====
-- addons_OCA/web/web_widget_domain_editor_dialog/static/src/js/widget_domain_editor_dialog.js: the
-- domain that the dialog makes of the records or the groups that are selected.
pub mod Meaning
pub mod Groups
pub mod Selection
pub mod Narrowed
mod Examples
use playground_azure_user_sy.Prelude.{
  ℕ, zero, suc, ◌-◌, String, Bool, true, false, ◌&&◌, Option, none, some, List, [], ◌∷◌, ◌++◌, map,
  length, replicate, if◌then◌else◌, ◌==◌, ℕ_eq, String_eq,
}

-- The last part of a condition.
pub data Operand : Type 0 where
  text_operand : String → Operand
  number_operand : ℕ → Operand
  bool_operand : Bool → Operand
  ids_operand : List ℕ → Operand

abbrev pub same_ids : List ℕ → List ℕ → Bool
same_ids [] [] = true
same_ids [] (j ∷ js) = false
same_ids (i ∷ is) [] = false
same_ids (i ∷ is) (j ∷ js) = i == j && same_ids is js

abbrev same_bool : Bool → Bool → Bool
same_bool true b = b
same_bool false true = false
same_bool false false = true

abbrev pub same_operand : Operand → Operand → Bool
same_operand (text_operand s) (text_operand t) = s == t
same_operand (number_operand m) (number_operand n) = m == n
same_operand (bool_operand a) (bool_operand b) = same_bool a b
same_operand (ids_operand is) (ids_operand js) = same_ids is js
same_operand a b = false

pub record Leaf : Type 0 where
  pub field : String
  pub operator : String
  pub operand : Operand

abbrev pub same_leaf : Leaf → Leaf → Bool
same_leaf a b = a.field == b.field && a.operator == b.operator && same_operand a.operand b.operand

-- An element of a domain. A condition is an array: the number says which object it is.
pub data Token : Type 0 where
  op_and op_or op_not : Token
  leaf : ℕ → Leaf → Token

-- `===`
abbrev same_token : Token → Token → Bool
same_token op_and op_and = true
same_token op_or op_or = true
same_token op_not op_not = true
same_token (leaf i a) (leaf j b) = i == j
same_token s t = false

-- `_.isEqual`
abbrev is_equal : Token → Token → Bool
is_equal op_and op_and = true
is_equal op_or op_or = true
is_equal op_not op_not = true
is_equal (leaf i a) (leaf j b) = same_leaf a b
is_equal s t = false

-- `_.without`
unfoldable pub without : Token → List Token → List Token
without t [] = []
without t (x ∷ xs) = let rest = without t xs in if same_token x t then rest else x ∷ rest

-- `_.filter(…)[0]`
unfoldable pub first_equal : Token → List Token → Option Token
first_equal d [] = none
first_equal d (x ∷ xs) = let rest = first_equal d xs in if is_equal x d then some x else rest

-- `_.without(group_domain, undefined)` changes nothing.
abbrev pub without_found : Option Token → List Token → List Token
without_found none ts = ts
without_found (some t) ts = without t ts

-- The "domain difference".
unfoldable pub difference : List Token → List Token → List Token
unfolding first_equal without
difference [] ts = ts
difference (d ∷ ds) ts = difference ds (without_found (first_equal d ts) ts)

-- A group of the list: its domain, and the ids of its records.
pub record SelectedGroup : Type 0 where
  pub domain : List Token
  pub res_ids : List ℕ

unfoldable pub group_domains : List SelectedGroup → List Token
group_domains [] = []
group_domains (g ∷ gs) =
    let rest = group_domains gs in elim g.res_ids [ [] ↦ rest | i ∷ is ↦ g.domain ++ rest ]

-- The domain of the groups: the difference, without "&", with as many "|" as it takes.
unfoldable pub either_group : List Token → List Token → List Token
unfolding difference without
either_group domain ts =
    let left = without op_and (difference domain ts) in replicate (length left - 1) op_or ++ left

-- The state of the list in the dialog, and whether all records are selected.
pub record DialogState : Type 0 where
  pub domain : List Token
  pub is_grouped : Bool
  pub groups : List SelectedGroup
  pub all_checked : Bool

-- `new_ref` is the object that the condition on the ids is.
unfoldable pub get_domain : ℕ → DialogState → List ℕ → List Token
unfolding group_domains either_group
get_domain new_ref s selected_ids =
    if s.all_checked
    then s.domain ++ (if s.is_grouped then either_group s.domain (group_domains s.groups) else [])
    else (s.domain
        ++ leaf new_ref
            (record { field = "id"; operator = "in"; operand = ids_operand selected_ids })
          ∷ [])

-- `init`: the values `true` and `false` become 1 and 0.
abbrev without_bool : Operand → Operand
without_bool (bool_operand true) = number_operand 1
without_bool (bool_operand false) = number_operand 0
without_bool o = o

abbrev convert_token : Token → Token
convert_token (leaf i a) = leaf i (record a { operand = without_bool a.operand })
convert_token t = t

abbrev dynamic_filter_domain : List Token → List Token
dynamic_filter_domain ts = map convert_token ts
