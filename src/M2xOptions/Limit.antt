-- ===== src/M2xOptions/Limit.antt =====
-- form.js: the limits, of the drop-down (`_search`) and of the lines of a sub view
-- (`FormView._setSubViewLimit`). A limit is a number or NaN, which is `none`.
use playground_azure_user_sy.Prelude.{
  ℕ, suc, ◌-◌, ◌≤◌, String, Bool, true, false, ◌≡◌, Option, none, some, List, [], length, take,
  length-take, min, ltb, arith,
}
use playground_azure_user_sy.Prelude.Int.{ℤ, pos, negsuc, ◌+ℤ◌}
use playground_azure_user_sy.M2xOptions.{Value, number, NodeOptions, IrOptions, parse_int}

-- `if (!_.isUndefined(ir_options[...])) this.limit = parseInt(...)`, for both uses in the file.
abbrev ir_limit_or : Option String → Option ℤ → Option ℤ
ir_limit_or none limit = limit
ir_limit_or (some s) limit = parse_int s

abbrev node_limit_or : Value → Option ℤ → Option ℤ
node_limit_or (number n) limit = some n
node_limit_or _ limit = limit

-- The limit after `_search` has read the options; it does so twice.
unfoldable pub set_limit : IrOptions → NodeOptions → Option ℤ → Option ℤ
set_limit ir node limit = node_limit_or node.limit (ir_limit_or ir.ir_limit limit)

unfoldable set_sub_view_limit : IrOptions → Option ℤ → Option ℤ
set_sub_view_limit ir limit = ir_limit_or ir.ir_field_limit_entries limit

-- `limit + 1`
unfoldable pub limit_plus_one : Option ℤ → Option ℤ
unfolding ◌+ℤ◌
limit_plus_one none = none
limit_plus_one (some n) = some (n +ℤ pos 1)

-- `n > limit`
unfoldable pub exceeds : ℕ → Option ℤ → Bool
exceeds n none = false
exceeds n (some (pos m)) = ltb m n
exceeds n (some (negsuc m)) = true

-- `values.slice(0, limit)`: a negative end counts from the end of the array, and NaN is 0.
unfoldable pub slice_to {ℓ} : {A : Type ℓ} → Option ℤ → List A → List A
slice_to none xs = []
slice_to (some (pos n)) xs = take n xs
slice_to (some (negsuc n)) xs = take (length xs - suc n) xs

-- Reading the options a second time changes nothing.
pub set_limit_idem :
    (ir : IrOptions) (node : NodeOptions) (limit : Option ℤ)
    → set_limit ir node (set_limit ir node limit) ≡ set_limit ir node limit
unfolding set_limit
set_limit_idem ir node limit = ground arith

-- A slice never grows the list, and within a limit that it does not exceed keeps it whole.
length-slice_to {ℓ} :
    {A : Type ℓ} (limit : Option ℤ) (xs : List A) → length (slice_to limit xs) ≤ length xs
unfolding slice_to
length-slice_to none xs = omega arith
length-slice_to (some (pos n)) xs = omega (arith, length-take n xs)
length-slice_to (some (negsuc n)) xs = omega (arith, length-take (length xs - suc n) xs)

pub length-slice_to_pos {ℓ} :
    {A : Type ℓ} (n : ℕ) (xs : List A) → length (slice_to (some (pos n)) xs) ≡ min n (length xs)
unfolding slice_to
length-slice_to_pos n xs = length-take n xs
