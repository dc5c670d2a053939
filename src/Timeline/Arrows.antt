-- ===== src/Timeline/Arrows.antt =====
-- The arrows between the items of a timeline.
use playground_azure_user_sy.Prelude.{
  ℕ, Bool, false, ◌&&◌, ◌||◌, ◌≡◌, refl, none, some, List, [], ◌∷◌, ◌++◌, contains, Option-cases,
  inl, inr, arith, ◌==◌, ==_iff, ℕ_eq,
}
use playground_azure_user_sy.Timeline.{ShownItem, item_arrows, draw_dependencies}

-- The items with an event, and those before the first that has none.
abbrev before_missing : List ShownItem → List ShownItem
before_missing [] = []
before_missing (i ∷ items) = elim i.dependencies [ none ↦ [] | some ids ↦ i ∷ before_missing items ]

-- Whether there is an arrow, and whether some item's event depends on another item.
abbrev has_arrow : List (ℕ × ℕ) → ℕ → ℕ → Bool
has_arrow [] a b = false
has_arrow ((c, d) ∷ arrows) a b = (c == a && d == b) || has_arrow arrows a b

abbrev pub depends : List ShownItem → ℕ → ℕ → Bool
depends [] a b = false
depends (i ∷ items) a b =
    (i.key == a && (elim i.dependencies [ none ↦ false | some ids ↦ contains ids b ]))
    || depends items a b

has_arrow-append :
    (xs ys : List (ℕ × ℕ)) (a b : ℕ)
    → has_arrow (xs ++ ys) a b ≡ (has_arrow xs a b || has_arrow ys a b)
has_arrow-append [] ys a b = refl
has_arrow-append ((c, d) ∷ xs) ys a b = ground (arith, has_arrow-append xs ys a b)

has_arrow-item_arrows :
    (keys : List ℕ) (displayed : ℕ → Bool) (from : ℕ) (ids : List ℕ) (a b : ℕ)
    → has_arrow (item_arrows keys displayed from ids) a b
      ≡ (from == a && contains ids b && (contains keys b && displayed a && displayed b))
unfolding item_arrows
has_arrow-item_arrows keys displayed from [] a b = ground arith
has_arrow-item_arrows keys displayed from (id ∷ ids) a b =
    ground (arith, ==_iff from a, ==_iff id b, has_arrow-item_arrows keys displayed from ids a b)

-- For all items: there is an arrow from one to another exactly if both are displayed, the other is
-- an item of the timeline, and the event of the first depends on it, and no item without an event
-- comes before the first.
has_arrow-draw_dependencies :
    (keys : List ℕ) (displayed : ℕ → Bool) (items : List ShownItem) (a b : ℕ)
    → has_arrow (draw_dependencies keys displayed items) a b
      ≡ (depends (before_missing items) a b && (contains keys b && displayed a && displayed b))
unfolding draw_dependencies
has_arrow-draw_dependencies keys displayed [] a b = refl
has_arrow-draw_dependencies keys displayed (i ∷ items) a b = elim (Option-cases i.dependencies) [
  | inl e ↦ rw e refl
  | inr (ids, e) ↦ rw e (
      ground (
        arith,
        has_arrow-append (item_arrows keys displayed i.key ids)
            (draw_dependencies keys displayed items) a b,
        has_arrow-item_arrows keys displayed i.key ids a b,
        has_arrow-draw_dependencies keys displayed items a b,
      ))
]
