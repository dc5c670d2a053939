-- ===== src/Timeline/Groups.antt =====
-- The groups that `split_groups` makes, and the groups of the items.
use playground_azure_user_sy.Prelude.{
  ℕ, String, true, false, ◌||◌, ◌≡◌, refl, ap, ◌∙◌, Option, none, some, List, [], ◌∷◌, ◌++◌,
  ==_self, ==_sym, ℕ_eq, arith, Bool-cases, inl, inr,
}
use playground_azure_user_sy.Prelude.Int.{pos}
use playground_azure_user_sy.Timeline.{
  FieldData, no_data, name_pair, text_data, TimelineEvent, TimelineGroup, same_group, has_group,
  Grouping, add_new_group, add_group, group_events, unassigned, split_groups, TimelineView,
  view_data, data_group, group_of,
}

-- No id stands twice among the groups.
abbrev pub HasDistinctIds : List TimelineGroup → Type 0
HasDistinctIds [] = Unit {0}
HasDistinctIds (g ∷ gs) = (has_group gs g.id ≡ false) × HasDistinctIds gs

-- The item of each event has its group among the groups.
abbrev pub AllGrouped : TimelineView → List TimelineGroup → List TimelineEvent → Type 0
AllGrouped v groups [] = Unit {0}
AllGrouped v groups (e ∷ es) = (has_group groups (group_of v e) ≡ true) × AllGrouped v groups es

same_group_sym : (a b : Option ℕ) → same_group a b ≡ same_group b a
same_group_sym none none = refl
same_group_sym none (some n) = refl
same_group_sym (some m) none = refl
same_group_sym (some m) (some n) = ==_sym m n

has_group-append :
    (gs : List TimelineGroup) (g : TimelineGroup) (id : Option ℕ)
    → has_group (gs ++ g ∷ []) id ≡ (has_group gs id || same_group g.id id)
unfolding has_group
has_group-append [] g id = ground arith
has_group-append (h ∷ gs) g id = ground (arith, has_group-append gs g id)

HasDistinctIds-append :
    (gs : List TimelineGroup) (g : TimelineGroup)
    → HasDistinctIds gs
    → has_group gs g.id ≡ false
    → HasDistinctIds (gs ++ g ∷ [])
unfolding has_group
HasDistinctIds-append [] g d n = (refl, tt)
HasDistinctIds-append (h ∷ gs) g d n = (
  ground (arith, has_group-append gs g h.id, same_group_sym g.id h.id),
  HasDistinctIds-append gs g d.1 (ground arith),
)

-- What one event does to the groups.
add_new_group-keeps :
    (s : Grouping) (k : ℕ) (name : String) (id : Option ℕ)
    → has_group s.groups id ≡ true
    → has_group (add_new_group s k name).groups id ≡ true
add_new_group-keeps s k name id h = ground (
  arith,
  has_group-append s.groups (record { id = some k; content = name; order = pos s.seq }) id,
)

add_new_group-has :
    (s : Grouping) (k : ℕ) (name : String)
    → has_group (add_new_group s k name).groups (some k) ≡ true
add_new_group-has s k name = ground (
  arith,
  ==_self k,
  has_group-append s.groups (record { id = some k; content = name; order = pos s.seq }) (some k),
)

add_group-keeps :
    (s : Grouping) (d : FieldData) (id : Option ℕ)
    → has_group s.groups id ≡ true
    → has_group (add_group s d).groups id ≡ true
unfolding add_group
add_group-keeps s no_data id h = h
add_group-keeps s (text_data t) id h = h
add_group-keeps s (name_pair k name) id h = add_new_group-keeps s k name id h

add_group-HasDistinctIds :
    (s : Grouping) (d : FieldData) → HasDistinctIds s.groups → HasDistinctIds (add_group s d).groups
unfolding add_group
add_group-HasDistinctIds s no_data h = h
add_group-HasDistinctIds s (text_data t) h = h
add_group-HasDistinctIds s (name_pair k name) h = elim (Bool-cases (has_group s.groups (some k))) [
  | inl e ↦ rw e h
  | inr e ↦ rw e (HasDistinctIds-append s.groups _ h e)
]

group_events-keeps :
    (field : String) (s : Grouping) (es : List TimelineEvent) (id : Option ℕ)
    → has_group s.groups id ≡ true
    → has_group (group_events field s es).groups id ≡ true
unfolding group_events
group_events-keeps field s [] id h = h
group_events-keeps field s (e ∷ es) id h =
    group_events-keeps field (add_group s (e.data_ field)) es id
      (add_group-keeps s (e.data_ field) id h)

add_group-has :
    (s : Grouping) (d : FieldData)
    → has_group s.groups none ≡ true
    → has_group (add_group s d).groups (data_group d) ≡ true
unfolding add_group
add_group-has s no_data h = h
add_group-has s (text_data t) h = h
add_group-has s (name_pair k name) h = add_new_group-has s k name

group_of-data :
    (v : TimelineView) (field : String) (e : TimelineEvent)
    → v.last_group_by ≡ some field
    → group_of v e ≡ data_group (e.data_ field)
unfolding group_of
group_of-data v field e h = ap (λ l. data_group (view_data e l)) h

group_events-AllGrouped :
    (v : TimelineView) (field : String) (s : Grouping) (es : List TimelineEvent)
    → v.last_group_by ≡ some field
    → has_group s.groups none ≡ true
    → HasDistinctIds s.groups
    → AllGrouped v (group_events field s es).groups es
      × HasDistinctIds (group_events field s es).groups
unfolding group_events
group_events-AllGrouped v field s [] last base d = (tt, d)
group_events-AllGrouped v field s (e ∷ es) last base d =
    let s' = add_group s (e.data_ field) in
    let (later, d') =
      group_events-AllGrouped v field s' es last (add_group-keeps s (e.data_ field) none base)
        (add_group-HasDistinctIds s (e.data_ field) d) in
    (
      (
        ap (has_group (group_events field s' es).groups) (group_of-data v field e last)
            ∙ group_events-keeps field s' es (data_group (e.data_ field))
                (add_group-has s (e.data_ field) base),
        later,
      ),
      d',
    )

-- For every list of events grouped by the field of the last grouping: the item of each event has
-- its group among those handed to the timeline, in which no id stands twice.
pub split_groups-AllGrouped :
    (v : TimelineView) (field : String) (events : List TimelineEvent)
    → v.last_group_by ≡ some field
    → AllGrouped v (split_groups events field) events × HasDistinctIds (split_groups events field)
unfolding split_groups has_group
split_groups-AllGrouped v field events last =
    group_events-AllGrouped v field (record { groups = unassigned ∷ []; seq = 1 }) events last refl
      (refl, tt)
