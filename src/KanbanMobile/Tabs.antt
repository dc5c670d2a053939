-- ===== src/KanbanMobile/Tabs.antt =====
-- The tabs: which groups have one (`_renderGrouped`), and how far they are scrolled.
use playground_azure_user_sy.Prelude.{
  ℕ, zero, suc, ◌+◌, ◌-◌, ◌*◌, ◌<◌, String, true, false, List, [], ◌∷◌, ◌++◌, map, append_assoc,
  append-nil, length, get_elem?, take, if◌then◌else◌, ◌==◌, ℕ_eq, String_eq, ◌≡◌, refl, sym, ap,
  ◌∙◌, arith, Bool-cases, inl, inr,
}
use playground_azure_user_sy.KanbanMobile.{KanbanColumn, scroll_to, tab_scroll, width_childs}

-- A group of the state; the empty text is the value of one that has none.
pub record KanbanGroup : Type 0 where
  pub id : String
  pub value : String

-- `undefined_label` is the translation of "Undefined".
module _ (undefined_label : String) where
  abbrev named : KanbanGroup → KanbanGroup
  named g = if g.value == "" then record g { value = undefined_label } else g

  -- One turn of the loop: the second test is made of the group that the first may have replaced.
  abbrev add_tab : List KanbanGroup → KanbanGroup → List KanbanGroup
  add_tab data_ g =
      let data_ = if g.value == "" then named g ∷ data_ else data_ in
      if (named g).value == "" then data_ else data_ ++ named g ∷ []

  unfoldable mobile_tabs_from : List KanbanGroup → List KanbanGroup → List KanbanGroup
  mobile_tabs_from data_ [] = data_
  mobile_tabs_from data_ (g ∷ gs) = mobile_tabs_from (add_tab data_ g) gs

  unfoldable mobile_tabs : List KanbanGroup → List KanbanGroup
  unfolding mobile_tabs_from
  mobile_tabs gs = mobile_tabs_from [] gs

  -- How many groups have no value.
  abbrev unvalued : List KanbanGroup → ℕ
  unvalued [] = 0
  unvalued (g ∷ gs) = (if g.value == "" then 1 else 0) + unvalued gs

  abbrev front : List KanbanGroup → List KanbanGroup → List KanbanGroup
  front xs [] = xs
  front xs (g ∷ gs) = front (if g.value == "" then named g ∷ xs else xs) gs

  length-front : (xs gs : List KanbanGroup) → length (front xs gs) ≡ unvalued gs + length xs
  length-front xs [] = omega arith
  length-front xs (g ∷ gs) = elim (Bool-cases (g.value == "")) [
    | inl h ↦ rw (h) (length-front (record g { value = undefined_label } ∷ xs) gs ∙ omega arith)
    | inr h ↦ rw (h) (length-front xs gs ∙ omega arith)
  ]

  mobile_tabs_from-front :
      (xs ys gs : List KanbanGroup)
      → (undefined_label == "") ≡ false
      → mobile_tabs_from (xs ++ ys) gs ≡ front xs gs ++ (ys ++ map named gs)
  unfolding mobile_tabs_from
  mobile_tabs_from-front xs ys [] u = ap (λ zs. xs ++ zs) (sym (append-nil ys))
  mobile_tabs_from-front xs ys (g ∷ gs) u = elim (Bool-cases (g.value == "")) [
    | inl h ↦
        let n : KanbanGroup = record g { value = undefined_label } in
        rw (h, u)
          (ap (λ zs. mobile_tabs_from zs gs) (append_assoc (n ∷ xs) ys (n ∷ []))
            ∙ mobile_tabs_from-front (n ∷ xs) (ys ++ n ∷ []) gs u
            ∙ ap (λ zs. front (n ∷ xs) gs ++ zs) (append_assoc ys (n ∷ []) (map named gs)))
    | inr h ↦ rw (h) (
        rw (h) (
          ap (λ zs. mobile_tabs_from zs gs) (append_assoc xs ys (g ∷ []))
          ∙ mobile_tabs_from-front xs (ys ++ g ∷ []) gs u
          ∙ ap (λ zs. front xs gs ++ zs) (append_assoc ys (g ∷ []) (map named gs))))
  ]

  get_elem?-append :
      (xs ys : List KanbanGroup) (i : ℕ) → get_elem? (xs ++ ys) (i + length xs) ≡ get_elem? ys i
  get_elem?-append [] ys i = let e : i + 0 ≡ i = omega arith in ap (get_elem? ys) e
  get_elem?-append (x ∷ xs) ys i =
      let e : i + suc (length xs) ≡ suc (i + length xs) = omega arith in
      ap (get_elem? (x ∷ (xs ++ ys))) e ∙ get_elem?-append xs ys i

  -- If the label for a missing value is not empty: the groups have their tabs in their order, but
  -- after as many others as there are groups that have no value. The tab of the group at an index
  -- stands that much further right.
  get_elem?-mobile_tabs :
      (gs : List KanbanGroup) (i : ℕ)
      → (undefined_label == "") ≡ false
      → get_elem? (mobile_tabs gs) (i + unvalued gs) ≡ get_elem? (map named gs) i
  unfolding mobile_tabs
  get_elem?-mobile_tabs gs i u =
      ap (λ zs. get_elem? zs (i + unvalued gs)) (mobile_tabs_from-front [] [] gs u)
      ∙ ap (get_elem? (front [] gs ++ map named gs)) (shift (length-front [] gs))
      ∙ get_elem?-append (front [] gs) (map named gs) i
    where
      shift : length (front [] gs) ≡ unvalued gs + 0 → i + unvalued gs ≡ i + length (front [] gs)
      shift h = omega arith

-- The width of the tab at an index.
abbrev tab_width_at : List KanbanColumn → ℕ → ℕ
tab_width_at [] i = 0
tab_width_at (c ∷ cs) zero = c.tab_width
tab_width_at (c ∷ cs) (suc i) = tab_width_at cs i

scroll_to_last :
    (cs : List KanbanColumn) (n : ℕ) → scroll_to true cs n ≡ 4 * width_childs (take n cs)
unfolding scroll_to width_childs
scroll_to_last cs zero = refl
scroll_to_last [] (suc n) = refl
scroll_to_last (c ∷ cs) (suc n) = omega (arith, scroll_to_last cs n)

scroll_to_inner :
    (cs : List KanbanColumn) (m : ℕ)
    → scroll_to false cs (suc m) + tab_width_at cs m ≡ 4 * width_childs (take (suc m) cs)
unfolding scroll_to width_childs
scroll_to_inner [] m = refl
scroll_to_inner (c ∷ cs) zero = omega arith
scroll_to_inner (c ∷ cs) (suc m) = grind (arith, scroll_to_inner cs m)

-- With a tab before the active one: the tabs are scrolled to the start of the active tab if it is
-- the last, and otherwise to the last quarter of the tab before it.
tab_scroll-start :
    (cs : List KanbanColumn) (m : ℕ)
    → suc m < length cs
    → tab_scroll cs (suc m) + (if suc m == length cs - 1 then 0 else tab_width_at cs m)
      ≡ 4 * width_childs (take (suc m) cs)
tab_scroll-start cs m h = elim (Bool-cases (suc m == length cs - 1)) [
  | inl e ↦ rw (e) (omega (arith, scroll_to_last cs (suc m)))
  | inr e ↦ rw (e) (scroll_to_inner cs m)
]
