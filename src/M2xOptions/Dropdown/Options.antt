-- ===== src/M2xOptions/Dropdown/Options.antt =====
-- How the options decide what `_search` offers.
use playground_azure_user_sy.Prelude.{
  ℕ, ◌+◌, ◌≤◌, ◌<◌, String, true, false, ◌≡◌, ◌↔◌, ap, none, some, List, length, length-map, arith,
  ◌∙◌, contains, String_eq, ltb, ltb→lt, lt→ltb, ◌==◌,
}
use playground_azure_user_sy.Prelude.Int.{pos}
use playground_azure_user_sy.M2xOptions.{
  Value, undefined, is_option_set, is_undefined, truthy, ir_value,
}
use playground_azure_user_sy.M2xOptions.Precedence.{node_or_param, not_set}
use playground_azure_user_sy.M2xOptions.Limit.{
  set_limit, exceeds, limit_plus_one, length-slice_to_pos,
}
use playground_azure_user_sy.M2xOptions.Dropdown.{
  Web, Found, Field, Request, shows_search_more, shows_quick_create, shows_create_edit, search,
  search_request,
}
use playground_azure_user_sy.M2xOptions.Dropdown.Colors.{ids_of}
use playground_azure_user_sy.M2xOptions.Dropdown.Sections.{shown_found, search-entries}

shows_search_more-default :
    (f : Field) (k n : ℕ)
    → f.node.search_more ≡ undefined
    → f.ir.ir_search_more ≡ none
    → set_limit f.ir f.node f.limit ≡ some (pos n)
    → shows_search_more f k ≡ ltb n k
unfolding shows_search_more exceeds
shows_search_more-default f k n node ir limit = ground arith

length-shown_found :
    (f : Field) (result : List Found) (n : ℕ)
    → set_limit f.ir f.node f.limit ≡ some (pos n)
    → shows_search_more f (length result) ≡ ltb n (length result)
    → length (shown_found f result) ≤ n
length-shown_found f result n limit test =
    rw (test, limit) (ground (arith, length-slice_to_pos n result))

shown_found-off :
    (f : Field) (result : List Found)
    → is_undefined f.node.search_more ≡ false
    → is_option_set f.node.search_more ≡ false
    → shown_found f result ≡ result
unfolding shows_search_more
shown_found-off f result node off = ground arith

limit_plus_one-pos : (n : ℕ) → limit_plus_one (some (pos n)) ≡ some (pos (n + 1))
unfolding limit_plus_one
limit_plus_one-pos n = ground arith

module _ (w : Web) (name_search : Request → List Found) (read_colors : String → List ℕ → List Found)
    (f : Field) (val : String) where
  abbrev found : List Found
  found = name_search (search_request f val)

  abbrev shown : ℕ
  shown = length (ids_of (search w name_search read_colors f val).1)

  length-shown : shown ≡ length (shown_found f found)
  length-shown =
      ap length (search-entries w name_search read_colors f val).0
      ∙ length-map (shown_found f found) (λ x. x.0)

  -- With no option for "Search More..." set, and a limit of `n` records, at most `n` records are
  -- shown, and "Search More..." is shown exactly if the server found more than `n`.
  pub search-default :
      (n : ℕ)
      → f.node.search_more ≡ undefined
      → f.ir.ir_search_more ≡ none
      → set_limit f.ir f.node f.limit ≡ some (pos n)
      → (shown ≤ n) × ((shows_search_more f (length found) ≡ true) ↔ (n < length found))
  search-default n node ir limit =
      let test = shows_search_more-default f (length found) n node ir limit in
      (
        rw length-shown (length-shown_found f found n limit test),
        rw test (λ h. ltb→lt n (length found) h, λ h. lt→ltb n (length found) h),
      )

  -- With "Search More..." turned off on the node and a limit of `n` records, `n + 1` records are
  -- asked for, and all that the server finds are shown.
  pub search_off-overflow :
      (n : ℕ)
      → is_undefined f.node.search_more ≡ false
      → is_option_set f.node.search_more ≡ false
      → set_limit f.ir f.node f.limit ≡ some (pos n)
      → ((search_request f val).limit ≡ some (pos (n + 1))) × (shown ≡ length found)
  unfolding search_request
  search_off-overflow n node off limit = (
    ap limit_plus_one limit ∙ limit_plus_one-pos n,
    length-shown ∙ ap length (shown_found-off f found node off),
  )

-- Where the node sets `create`, its `create_edit` has no effect on "Create and Edit...".
create_edit-ignored :
    (f : Field) (v : Value)
    → is_option_set f.node.create ≡ true
    → shows_create_edit f
      ≡ shows_create_edit (record f { node = record (f.node) { create_edit = v } })
unfolding shows_create_edit
create_edit-ignored f v h = ground arith

-- The node's own `create` decides over the system parameter: for a search text that is no name
-- found, where creation is possible and not forbidden, the quick creation is offered exactly if the
-- node sets `create`, or has no `create` and the parameter is missing or set.
quick_create-precedence :
    (f : Field) (raw_result : List String) (val : String)
    → f.can_create ≡ true
    → truthy f.node.no_create ≡ false
    → truthy f.node.no_quick_create ≡ false
    → (val == "") ≡ false
    → contains raw_result val ≡ false
    → shows_quick_create f raw_result val ≡ node_or_param f.node.create (ir_value f.ir.ir_create)
unfolding shows_quick_create
quick_create-precedence f raw_result val c n q v r =
    ground (arith, not_set f.node.create, not_set (ir_value f.ir.ir_create))
