-- ===== src/RangeSelect/Ends.antt =====
-- The two ends that the first loop of `_getRangeSelection` finds.
use playground_azure_user_sy.Prelude.{
  ℕ, zero, suc, ◌+◌, ◌<◌, String, Bool, true, false, subst, sym, ◌&&◌, ◌≡◌, Option, none, some,
  List, [], ◌∷◌, contains, String_eq, get_elem?, arith, if◌then◌else◌,
}
use native.Mathlib.Nat.{add-zero, add-suc, suc-add, zero-add}
use playground_azure_user_sy.RangeSelect.{
  Row, State, Bounds, note_bound, find_bounds, within, range_bounds, range_history,
}

-- The rows that can end a range: checked, and in the history.
abbrev pub is_marked : List String → Row → Bool
is_marked history r = contains history r.id && r.checked

-- What the loop knows before row `i`.
abbrev IsBefore : Option ℕ → Option ℕ → ℕ → Type 0
IsBefore none none i = Unit {0}
IsBefore none (some e) i = ⊥
IsBefore (some s) none i = s < i
IsBefore (some s) (some e) i = (s < e) × (e < i)

abbrev Covers : Bounds → ℕ → Type 0
Covers b j = within b.start b.end j ≡ true

abbrev bounds : Option ℕ → Option ℕ → Bounds
bounds s e = record { start = s; end = e }

abbrev noted : Option ℕ → Option ℕ → ℕ → Bounds
noted s e i = note_bound (bounds s e) i

noted-IsBefore :
    (s e : Option ℕ) (i : ℕ)
    → IsBefore s e i
    → IsBefore (noted s e i).start (noted s e i).end (suc i)
noted-IsBefore none none i h = omega arith
noted-IsBefore none (some e) i h = absurd h
noted-IsBefore (some s) none i h = omega arith
noted-IsBefore (some s) (some e) i h = omega arith

IsBefore-suc : (s e : Option ℕ) (i : ℕ) → IsBefore s e i → IsBefore s e (suc i)
IsBefore-suc none none i h = tt
IsBefore-suc none (some e) i h = h
IsBefore-suc (some s) none i h = omega arith
IsBefore-suc (some s) (some e) i h = omega arith

noted-Covers : (s e : Option ℕ) (i : ℕ) → IsBefore s e i → Covers (noted s e i) i
unfolding within
noted-Covers none none i h = ground arith
noted-Covers none (some e) i h = absurd h
noted-Covers (some s) none i h = ground arith
noted-Covers (some s) (some e) i h = ground arith

noted_keeps :
    (s e : Option ℕ) (i j : ℕ) → IsBefore s e i → Covers (bounds s e) j → Covers (noted s e i) j
unfolding within
noted_keeps none none i j h c = cc
noted_keeps none (some e) i j h c = absurd h
noted_keeps (some s) none i j h c = ground arith
noted_keeps (some s) (some e) i j h c = ground arith

module _ (history : List String) where
  abbrev found : ℕ → List Row → Option ℕ → Option ℕ → Bounds
  found i rows s e = find_bounds history i rows (bounds s e)

  -- One round of the loop at row `i`, if its test gives `b`.
  abbrev after : Bool → ℕ → List Row → Option ℕ → Option ℕ → Bounds
  after b i rs s e = find_bounds history (suc i) rs (if b then noted s e i else bounds s e)

  found_keeps :
      (rows : List Row) (i j : ℕ) (s e : Option ℕ)
      → IsBefore s e i
      → Covers (bounds s e) j
      → Covers (found i rows s e) j
  unfolding find_bounds
  found_keeps [] i j s e h c = c
  found_keeps (r ∷ rs) i j s e h c =
      elim (is_marked history r) as (λ b. Covers (after b i rs s e) j) [
        | true ↦ found_keeps rs (suc i) j _ _ (noted-IsBefore s e i h) (noted_keeps s e i j h c)
        | false ↦ found_keeps rs (suc i) j s e (IsBefore-suc s e i h) c
      ]

  found-Covers :
      (rows : List Row) (i k : ℕ) (s e : Option ℕ) {r : Row}
      → IsBefore s e i
      → get_elem? rows k ≡ some r
      → is_marked history r ≡ true
      → Covers (found i rows s e) (i + k)
  unfolding find_bounds
  found-Covers [] i k s e h g m = cc
  found-Covers (x ∷ rs) i zero s e {r} h g m =
      let x_marked : is_marked history x ≡ true = cc in
      let here : Covers (after true i rs s e) i =
        found_keeps rs (suc i) i _ _ (noted-IsBefore s e i h) (noted-Covers s e i h) in
      rw add-zero (subst (λ b. Covers (after b i rs s e) i) (sym x_marked) here)
  found-Covers (x ∷ rs) i (suc k) s e {r} h g m =
      rw add-suc (elim (is_marked history x) as (λ b. Covers (after b i rs s e) (suc (i + k))) [
        | true ↦ rw suc-add at (found-Covers rs (suc i) k _ _ (noted-IsBefore s e i h) g m)
        | false ↦ rw suc-add at (found-Covers rs (suc i) k s e (IsBefore-suc s e i h) g m)
      ])

-- For every state, a checked row whose record is in the history lies between the two bounds that
-- `_getRangeSelection` finds, whatever the number of such rows.
pub range_bounds-Covers :
    (s : State) (k : ℕ) {r : Row}
    → get_elem? s.rows k ≡ some r
    → is_marked (range_history s) r ≡ true
    → within (range_bounds s).start (range_bounds s).end k ≡ true
unfolding range_bounds
range_bounds-Covers s k g m =
    rw zero-add at (found-Covers (range_history s) s.rows 0 k none none tt g m)
