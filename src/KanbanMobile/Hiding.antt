-- ===== src/KanbanMobile/Hiding.antt =====
-- The columns that are hidden at the end of an animation.
use playground_azure_user_sy.Prelude.{
  ℕ, zero, suc, ◌<◌, Bool, true, false, some, List, [], ◌∷◌, ◌++◌, length, get_elem?, ltb, lt→ltb,
  if◌then◌else◌, ◌≡◌, ◌≢◌, refl, ap, ◌∙◌, arith, replicate,
}
use playground_azure_user_sy.Prelude.Int.{pos}
use playground_azure_user_sy.KanbanMobile.{
  KanbanColumn, Kanban, is_empty_list, show_column, compute_current_column, compute_tab_position,
  compute_column_position, layout_update, hide_others, set_active, show_active, move_to_group,
}
use playground_azure_user_sy.KanbanMobile.Handlers.{on_hide}
use playground_azure_user_sy.KanbanMobile.Active.{layout_update-SameColumns}

get_elem?-replicate : (n i : ℕ) (b : Bool) → i < n → get_elem? (replicate n b) i ≡ some b
get_elem?-replicate zero i b h = ground arith
get_elem?-replicate (suc n) zero b h = refl
get_elem?-replicate (suc n) (suc i) b h = get_elem?-replicate n i b (omega arith)

length-replicate : (n : ℕ) (b : Bool) → length (replicate n b) ≡ n
length-replicate zero b = refl
length-replicate (suc n) b = ap suc (length-replicate n b)

-- All but the column at the index are hidden.
get_elem?-hide_others :
    (i j : ℕ) (hs : List Bool) → i ≢ j → j < length hs → get_elem? (hide_others i hs) j ≡ some true
unfolding hide_others
get_elem?-hide_others i j [] e h = ground arith
get_elem?-hide_others zero zero (b ∷ hs) e h = absurd (e refl)
get_elem?-hide_others zero (suc j) (b ∷ hs) e h =
    get_elem?-replicate (length hs) j true (omega arith)
get_elem?-hide_others (suc i) zero (b ∷ hs) e h = refl
get_elem?-hide_others (suc i) (suc j) (b ∷ hs) e h =
    get_elem?-hide_others i j hs (λ p. e (ap suc p)) (omega arith)

not_empty : (cs : List KanbanColumn) (i : ℕ) → i < length cs → is_empty_list cs ≡ false
not_empty [] i h = ground arith
not_empty (c ∷ cs) i h = refl

show_active_open :
    (w : ℕ) (k : Kanban) (c : KanbanColumn)
    → get_elem? k.widgets k.active_column_index ≡ some c
    → c.is_open ≡ true
    → show_active w k true ≡ layout_update w k true
unfolding show_active
show_active_open w k c e o = ap (show_column w k true) e ∙ rw (o)

-- A move to an open column lays it out.
move_to_group_open :
    (w : ℕ) (k : Kanban) (i : ℕ) (c : KanbanColumn)
    → get_elem? k.widgets i ≡ some c
    → c.is_open ≡ true
    → i < length k.widgets
    → move_to_group w k (pos i) true ≡ layout_update w (record k { active_column_index = i }) true
unfolding move_to_group
move_to_group_open w k i c e o h =
    let moved : set_active k (pos i) ≡ record k { active_column_index = i } =
      ap (λ b. if b then record k { active_column_index = i } else k)
        (lt→ltb i (length k.widgets) h) in
    ap (λ b. if b then k else show_active w (set_active k (pos i)) true) (not_empty k.widgets i h)
    ∙ ap (λ x. show_active w x true) moved
    ∙ show_active_open w (record k { active_column_index = i }) c e o

-- The hiding that a layout with an animation schedules.
abbrev hides_after : Kanban → List ℕ
hides_after k =
    k.hides
    ++ (if ltb (suc k.active_column_index) (length k.widgets)
        then k.active_column_index ∷ []
        else [])

-- The first two parts of a layout change nothing that its last part reads.
abbrev SameHides : Kanban → Kanban → Type 0
SameHides j k =
    (j.widgets ≡ k.widgets) × (j.active_column_index ≡ k.active_column_index) × (j.hides ≡ k.hides)

prepared-SameHides :
    (w : ℕ) (k : Kanban) → SameHides (compute_tab_position w (compute_current_column k)) k
prepared-SameHides w k = ground arith

abbrev ShowsAll : Kanban → Kanban → Type 0
ShowsAll j k =
    (j.hidden ≡ replicate (length k.widgets) false)
    × (j.hides ≡ hides_after k)
    × (j.widgets ≡ k.widgets)

compute_column_position-ShowsAll :
    (j k : Kanban)
    → SameHides j k
    → is_empty_list k.widgets ≡ false
    → ShowsAll (compute_column_position j true) k
unfolding compute_column_position
compute_column_position-ShowsAll j k (h₁, h₂, h₃) e =
    rw (h₁, e)
      (
        refl,
        (ap
              (λ xs.
                xs
                ++ (if ltb (suc j.active_column_index) (length k.widgets)
                    then j.active_column_index ∷ []
                    else []))
              h₃
            ∙ ap (λ i. k.hides ++ (if ltb (suc i) (length k.widgets) then i ∷ [] else [])) h₂),
        refl,
      )

layout_update-ShowsAll :
    (w : ℕ) (k : Kanban) → is_empty_list k.widgets ≡ false → ShowsAll (layout_update w k true) k
unfolding layout_update
layout_update-ShowsAll w k e =
    compute_column_position-ShowsAll (compute_tab_position w (compute_current_column k)) k
      (prepared-SameHides w k) e

on_hide_first :
    (k : Kanban) (i : ℕ) (rest : List ℕ)
    → k.hides ≡ i ∷ rest
    → (on_hide k).hidden ≡ hide_others i k.hidden
unfolding on_hide
on_hide_first k i rest h = rw (h)

-- With no hiding scheduled, a move to an open column that has a column after it, and then one to
-- another open column before the animation is over: at the end of the first animation that other
-- column, which is the active one, is hidden.
on_hide-late :
    (w : ℕ) (k : Kanban) (i j : ℕ) (c d : KanbanColumn)
    → k.hides ≡ []
    → get_elem? k.widgets i ≡ some c
    → c.is_open ≡ true
    → get_elem? k.widgets j ≡ some d
    → d.is_open ≡ true
    → suc i < length k.widgets
    → j < length k.widgets
    → i ≢ j
    → let moved = move_to_group w (move_to_group w k (pos i) true) (pos j) true in
      (moved.active_column_index ≡ j) × (get_elem? (on_hide moved).hidden j ≡ some true)
on_hide-late w k i j c d e ci co dj do_ h l n =
    let k₁ : Kanban = record k { active_column_index = i } in
    let m₁ = layout_update w k₁ true in
    let (hidden₁, hides₁, widgets₁) =
      layout_update-ShowsAll w k₁ (not_empty k.widgets i (omega arith)) in
    let k₂ : Kanban = record m₁ { active_column_index = j } in
    let m₂ = layout_update w k₂ true in
    let later = if ltb (suc j) (length m₁.widgets) then j ∷ [] else [] in
    let in_range : j < length m₁.widgets = rw (widgets₁) l in
    let (hidden₂, hides₂, widgets₂) =
      layout_update-ShowsAll w k₂ (not_empty m₁.widgets j in_range) in
    let first : m₁.hides ≡ i ∷ [] =
      hides₁
      ∙ ap (λ xs. xs ++ (if ltb (suc i) (length k.widgets) then i ∷ [] else [])) e
      ∙ ap (λ b. if b then i ∷ [] else []) (lt→ltb (suc i) (length k.widgets) h) in
    let moved : move_to_group w (move_to_group w k (pos i) true) (pos j) true ≡ m₂ =
      ap (λ x. move_to_group w x (pos j) true) (move_to_group_open w k i c ci co (omega arith))
      ∙ move_to_group_open w m₁ j d (ap (λ cs. get_elem? cs j) widgets₁ ∙ dj) do_ in_range in
    let size : j < length m₂.hidden =
      rw (hidden₂, length-replicate (length m₁.widgets) false) in_range in
    (
      ap Kanban.active_column_index moved ∙ (layout_update-SameColumns w k₂ true).1,
      ap (λ x. get_elem? (on_hide x).hidden j) moved
          ∙ ap (λ hs. get_elem? hs j)
              (on_hide_first m₂ i later (hides₂ ∙ ap (λ xs. xs ++ later) first))
          ∙ get_elem?-hide_others i j m₂.hidden n size,
    )
