-- ===== src/RangeSelect/Range.antt =====
-- What `_getRangeSelection` and `_getSelectionByRange` select.
use playground_azure_user_sy.Prelude.{
  ℕ, zero, suc, ◌+◌, ◌-◌, ◌<◌, ◌≤◌, String, ◌≡◌, refl, Option, none, some, List, [], ◌∷◌, map,
  String_eq, ℕ_eq, take, drop, arith,
}
use playground_azure_user_sy.RangeSelect.{Row, select_from, get_selection_by_range}

abbrev ids : List Row → List String
ids = map (λ (r : Row). r.id)

take-nil : (n : ℕ) → [] ≡ ids (take n [])
take-nil zero = refl
take-nil (suc n) = refl

select_from-past : (s e i : ℕ) (rows : List Row) → e < i → select_from (some s) (some e) i rows ≡ []
unfolding select_from
select_from-past s e i [] h = refl
select_from-past s e i (r ∷ rs) h = ground (arith, select_from-past s e (suc i) rs)

select_from-inside :
    (s e n i : ℕ) (rows : List Row)
    → s ≤ i
    → n ≡ suc e - i
    → select_from (some s) (some e) i rows ≡ ids (take n rows)
unfolding select_from
select_from-inside s e zero i rows h m = select_from-past s e i rows (omega arith)
select_from-inside s e (suc n) i [] h m = refl
select_from-inside s e (suc n) i (r ∷ rs) h m =
    ground (arith, select_from-inside s e n (suc i) rs (omega arith) (omega arith))

select_from-before :
    (s e k i : ℕ) (rows : List Row)
    → s ≡ i + k
    → select_from (some s) (some e) i rows ≡ ids (take (suc e - s) (drop k rows))
unfolding select_from
select_from-before s e zero i rows h =
    select_from-inside s e (suc e - s) i rows (omega arith) (omega arith)
select_from-before s e (suc k) i [] h = take-nil (suc e - s)
select_from-before s e (suc k) i (r ∷ rs) h =
    ground (arith, select_from-before s e k (suc i) rs (omega arith))

select_from-one_past : (s i : ℕ) (rows : List Row) → s < i → select_from (some s) none i rows ≡ []
unfolding select_from
select_from-one_past s i [] h = refl
select_from-one_past s i (r ∷ rs) h = ground (arith, select_from-one_past s (suc i) rs)

select_from-one :
    (s k i : ℕ) (rows : List Row)
    → s ≡ i + k
    → select_from (some s) none i rows ≡ ids (take 1 (drop k rows))
unfolding select_from
select_from-one s zero i [] h = refl
select_from-one s zero i (r ∷ rs) h = ground (arith, select_from-one_past s (suc i) rs)
select_from-one s (suc k) i [] h = refl
select_from-one s (suc k) i (r ∷ rs) h =
    ground (arith, select_from-one s k (suc i) rs (omega arith))

select_from-none : (end : Option ℕ) (i : ℕ) (rows : List Row) → select_from none end i rows ≡ []
unfolding select_from
select_from-none end i [] = refl
select_from-none end i (r ∷ rs) = select_from-none end (suc i) rs

-- For every table, `_getSelectionByRange(start, end)` is the list of the record ids of the rows
-- from `start` to `end`, both included, in their order; with no `end` it is the id of row `start`
-- alone (nothing past the table), and with no `start` it is empty.
pub get_selection_by_range-segment :
    (rows : List Row) (s e : ℕ) (end : Option ℕ)
    → (get_selection_by_range rows (some s) (some e) ≡ ids (take (suc e - s) (drop s rows)))
      × (get_selection_by_range rows (some s) none ≡ ids (take 1 (drop s rows)))
      × (get_selection_by_range rows none end ≡ [])
unfolding get_selection_by_range
get_selection_by_range-segment rows s e end = (
  select_from-before s e s 0 rows (omega arith),
  select_from-one s s 0 rows (omega arith),
  select_from-none end 0 rows,
)
