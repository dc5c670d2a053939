-- ===== src/Timeline.antt =====
-- addons_OCA/web/web_timeline/static/src/js/timeline_renderer.js: from the events of a model to the
-- groups and items that vis-timeline shows, and the arrows between them.
pub mod Groups
pub mod Arrows
mod Examples
use playground_azure_user_sy.Prelude.{
  ℕ, zero, suc, ◌+◌, String, Bool, true, false, not, ◌&&◌, ◌||◌, Option, none, some, List, [], ◌∷◌,
  ◌++◌, ◌==◌, ℕ_eq, String_eq, if◌then◌else◌, contains,
}
use playground_azure_user_sy.Prelude.Int.{ℤ, pos, negsuc}

-- A field of an event: `false`, the pair of an id and a name, or a text.
pub data FieldData : Type 0 where
  no_data : FieldData
  name_pair : ℕ → String → FieldData
  text_data : String → FieldData

pub record TimelineEvent : Type 0 where
  pub id : ℕ
  pub name : Option String  -- `__name`
  pub display_name : String
  pub data_ : String → FieldData

-- A group's id is `none` for -1, the events without a group.
pub record TimelineGroup : Type 0 where
  pub id : Option ℕ
  pub content : String
  pub order : ℤ

abbrev pub same_group : Option ℕ → Option ℕ → Bool
same_group none none = true
same_group (some m) (some n) = m == n
same_group none (some n) = false
same_group (some m) none = false

-- `_.find` of a group with the id.
unfoldable pub has_group : List TimelineGroup → Option ℕ → Bool
has_group [] id = false
has_group (g ∷ gs) id = same_group g.id id || has_group gs id

-- The state of the loop over the events: the groups, and `seq`.
pub record Grouping : Type 0 where
  pub groups : List TimelineGroup
  pub seq : ℕ

abbrev pub add_new_group : Grouping → ℕ → String → Grouping
add_new_group s id name = if has_group s.groups (some id) then s else record {
  groups = s.groups ++ record { id = some id; content = name; order = pos s.seq } ∷ [];
  seq = suc s.seq;
}

unfoldable pub add_group : Grouping → FieldData → Grouping
unfolding has_group
add_group s no_data = s
add_group s (text_data t) = s
add_group s (name_pair id name) = add_new_group s id name

unfoldable pub group_events : String → Grouping → List TimelineEvent → Grouping
unfolding add_group
group_events field s [] = s
group_events field s (e ∷ es) = group_events field (add_group s (e.data_ field)) es

abbrev pub unassigned : TimelineGroup
unassigned = record { id = none; content = "<b>UNASSIGNED</b>"; order = negsuc 0 }

-- `split_groups` by the first of the fields to group by, where there is one.
unfoldable pub split_groups : List TimelineEvent → String → List TimelineGroup
unfolding group_events
split_groups events field =
    (group_events field (record { groups = unassigned ∷ []; seq = 1 }) events).groups

-- A date that is not given is `none`. `all_day` and the others are names of fields, if the view
-- has them.
pub record TimelineView : Type 0 where
  pub date_start : String
  pub date_stop : Option String
  pub date_delay : Option String
  pub all_day : Option String
  pub no_period : Bool
  pub last_group_by : Option String
  pub mode : Option String

-- What the source takes from the web client and from its libraries: `time.auto_str_to_date` of a
-- text, of its first word at the start or the end of a day, the addition of a delay, and `isSame`.
record TimeClient (Date : Type 0) : Type 0 where
  str_to_date : String → Date
  pub start_of : String → Date
  stop_of : String → Date
  add_delay : Date → FieldData → Date
  is_same : Date → Date → Bool

abbrev is_given : FieldData → Bool
is_given no_data = false
is_given (name_pair id name) = true
is_given (text_data t) = not (t == "")

-- A field that the view may not have.
abbrev pub view_data : TimelineEvent → Option String → FieldData
view_data e none = no_data
view_data e (some field) = e.data_ field

abbrev read_date : {Date : Type 0} → (String → Date) → FieldData → Option Date
read_date f no_data = none
read_date f (name_pair id name) = none
read_date f (text_data t) = if t == "" then none else some (f t)

-- An item of the timeline, in a view without a template for its content. The colour is the text
-- that the style holds, `none` for null.
record TimelineItem (Date : Type 0) : Type 0 where
  pub id : ℕ
  pub start : Option Date
  pub end : Option Date
  pub content : String
  pub group : Option ℕ
  pub color : Option String

-- `group` of `event_data_transform`.
abbrev pub data_group : FieldData → Option ℕ
data_group no_data = none
data_group (name_pair id name) = some id
data_group (text_data t) = none

unfoldable pub group_of : TimelineView → TimelineEvent → Option ℕ
group_of v e = data_group (view_data e v.last_group_by)

-- The loop over the colours: the last rule that holds gives the colour. A rule is its test on the
-- event, which `py.eval` decides, and its colour.
unfoldable pub last_color :
    List ((TimelineEvent → Bool) × String) → TimelineEvent → Option String → Option String
last_color [] e color = color
last_color ((holds, c) ∷ rules) e color = last_color rules e (if holds e then some c else color)

module _ {Date : Type 0} (t : TimeClient Date) (v : TimelineView) where
  -- `_get_event_dates` of an event whose dates, if it lasts all day, are given: the source cannot
  -- split a date that is not.
  unfoldable get_event_dates : TimelineEvent → Option Date × Option Date
  get_event_dates e =
      let is_all_day = is_given (view_data e v.all_day) in
      let start =
        read_date (if is_all_day then t.start_of else t.str_to_date) (e.data_ v.date_start) in
      let stop =
        if is_all_day
        then (if v.no_period then start else read_date t.stop_of (view_data e v.date_stop))
        else read_date t.str_to_date (view_data e v.date_stop) in
      let delay = view_data e v.date_delay in
      (
        start,
        elim stop [
          | some d ↦ some d
          | none ↦ elim start [
            | none ↦ none
            | some d ↦ if is_given delay then some (t.add_delay d delay) else none
          ]
        ],
      )

  -- Whether an item has an end: not if it would be its start.
  abbrev end_of : Option Date → Option Date → Option Date
  end_of start none = none
  end_of none (some d) = some d
  end_of (some s) (some d) = if t.is_same s d then none else some d

  unfoldable event_data_transform :
      List ((TimelineEvent → Bool) × String) → TimelineEvent → TimelineItem Date
  unfolding get_event_dates group_of last_color
  event_data_transform rules e =
      let (start, stop) = get_event_dates e in
      record {
        id = e.id;
        start = start;
        end = end_of start stop;
        content = elim e.name [
          | none ↦ e.display_name
          | some n ↦ if n == "" then e.display_name else n
        ];
        group = group_of v e;
        color = last_color rules e none;
      }

  -- The items of `on_data_loaded_2`.
  unfoldable timeline_items :
      List ((TimelineEvent → Bool) × String) → List TimelineEvent → List (TimelineItem Date)
  unfolding event_data_transform
  timeline_items rules [] = []
  timeline_items rules (e ∷ es) =
      let rest = timeline_items rules es in
      if is_given (e.data_ v.date_start) then event_data_transform rules e ∷ rest else rest

-- Whether `on_data_loaded_2` fits the window to the items.
unfoldable fits_window : TimelineView → Option Bool → Bool
fits_window v adjust_window =
    (elim v.mode [ none ↦ true | some m ↦ m == "" || m == "fit" ])
    && (elim adjust_window [ none ↦ true | some b ↦ b ])

-- An item of the timeline, with the ids in the dependency field of its event, if it has an event.
pub record ShownItem : Type 0 where
  pub key : ℕ
  pub dependencies : Option (List ℕ)

-- `keys` are those of all items, and `displayed` is the flag of each.
module _ (keys : List ℕ) (displayed : ℕ → Bool) where
  -- The arrows of one item.
  unfoldable pub item_arrows : ℕ → List ℕ → List (ℕ × ℕ)
  item_arrows from [] = []
  item_arrows from (id ∷ ids) =
      let rest = item_arrows from ids in
      if contains keys id && displayed from && displayed id then (from, id) ∷ rest else rest

  -- `draw_dependencies`: the loop over the items, which an item with no event ends.
  unfoldable pub draw_dependencies : List ShownItem → List (ℕ × ℕ)
  unfolding item_arrows
  draw_dependencies [] = []
  draw_dependencies (i ∷ items) =
      let rest = draw_dependencies items in
      elim i.dependencies [ none ↦ [] | some ids ↦ item_arrows i.key ids ++ rest ]
