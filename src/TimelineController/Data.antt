-- ===== src/TimelineController/Data.antt =====
-- What `_onMove` writes to the fields of a moved item.
use playground_azure_user_sy.Prelude.{
  ℕ, String, false, ◌≡◌, refl, ap, ◌∙◌, Option, none, some, [], ◌==◌, ==_sym, String_eq, arith,
}
use playground_azure_user_sy.Prelude.Maps.{get, put, get-put_self, get-put_other}
use playground_azure_user_sy.TimelineController.{
  WriteValue, date_text, seconds, group_id, false_value, WriteData, MovedItem, ControllerView,
  diff_seconds, move_data,
}

-- A view with all its fields, which have different names.
pub record HasFields (v : ControllerView) (stop delay group : String) : Type 0 where
  pub stop_field : v.date_stop ≡ some stop
  pub delay_field : v.date_delay ≡ some delay
  pub group_field : v.last_group_by ≡ some group
  pub stop_start : stop == v.date_start ≡ false
  pub delay_start : delay == v.date_start ≡ false
  pub group_start : group == v.date_start ≡ false
  pub delay_stop : delay == stop ≡ false
  pub group_stop : group == stop ≡ false
  pub group_delay : group == delay ≡ false

abbrev group_value : Option ℕ → WriteValue
group_value none = false_value
group_value (some g) = group_id g

-- A field that is written if there is a value.
abbrev put_some : String → Option WriteValue → WriteData → WriteData
put_some k none d = d
put_some k (some x) d = put k x d

get-put_some_other :
    (k j : String) (o : Option WriteValue) (d : WriteData)
    → k == j ≡ false
    → get j (put_some k o d) ≡ get j d
get-put_some_other k j none d h = refl
get-put_some_other k j (some x) d h = get-put_other k j x d h

get-put_some_self :
    (k : String) (o : Option WriteValue) (d : WriteData)
    → get k d ≡ none
    → get k (put_some k o d) ≡ o
get-put_some_self k none d h = h
get-put_some_self k (some x) d h = get-put_self k x d

get-nil : (k : String) → get k (let m : WriteData = [] in m) ≡ none
unfolding get
get-nil k = refl

module _ (auto_date_to_str : String → ℕ → String) where
  -- The stop of an item without an end is its start, as the start's field spells it.
  abbrev stop_value : ControllerView → String → MovedItem → WriteValue
  stop_value v stop item = elim item.end [
    | none ↦ date_text (auto_date_to_str v.date_start item.start)
    | some e ↦ date_text (auto_date_to_str stop e)
  ]

  abbrev delay_value : MovedItem → Option WriteValue
  delay_value item = elim item.end [
    | none ↦ none
    | some e ↦ some (seconds (diff_seconds item.start e))
  ]

  -- The data that the fields were put into, one after the other.
  abbrev all_put : ControllerView → String → String → String → MovedItem → WriteData
  all_put v stop delay group item =
      let d =
        put stop (stop_value v stop item)
          (put v.date_start (date_text (auto_date_to_str v.date_start item.start)) []) in
      put group (group_value item.group) (put_some delay (delay_value item) d)

  move_data-all_put :
      (v : ControllerView) (stop delay group : String) (item : MovedItem)
      → HasFields v stop delay group
      → move_data auto_date_to_str v item ≡ all_put v stop delay group item
  unfolding move_data
  move_data-all_put v stop delay group item h = ground arith

  -- For every view with all its fields, which have different names, and every moved item: the data
  -- that is written holds the start of the item; its end as the stop, or its start if it has none;
  -- its length as the delay if it has an end, and no delay otherwise; and its group, or `false`.
  get-move_data :
      (v : ControllerView) (stop delay group : String) (item : MovedItem)
      → HasFields v stop delay group
      → let d = move_data auto_date_to_str v item in
        (get v.date_start d ≡ some (date_text (auto_date_to_str v.date_start item.start)))
        × (get stop d ≡ some (stop_value v stop item))
        × (get delay d ≡ delay_value item)
        × (get group d ≡ some (group_value item.group))
  get-move_data v stop delay group item h =
      let e = move_data-all_put v stop delay group item h in
      let started = put v.date_start (date_text (auto_date_to_str v.date_start item.start)) [] in
      let stopped = put stop (stop_value v stop item) started in
      let delayed = put_some delay (delay_value item) stopped in
      let g = group_value item.group in
      (
        ap (get v.date_start) e
            ∙ (get-put_other group v.date_start g delayed h.group_start
                ∙ (get-put_some_other delay v.date_start (delay_value item) stopped h.delay_start
                    ∙ (get-put_other stop v.date_start (stop_value v stop item) started h.stop_start
                        ∙ get-put_self v.date_start _ []))),
        ap (get stop) e
            ∙ (get-put_other group stop g delayed h.group_stop
                ∙ (get-put_some_other delay stop (delay_value item) stopped h.delay_stop
                    ∙ get-put_self stop (stop_value v stop item) started)),
        ap (get delay) e
            ∙ (get-put_other group delay g delayed h.group_delay
                ∙ get-put_some_self delay (delay_value item) stopped (
                    get-put_other stop delay (stop_value v stop item) started
                      (==_sym stop delay ∙ h.delay_stop)
                    ∙ (get-put_other v.date_start delay _ []
                          (==_sym v.date_start delay ∙ h.delay_start)
                        ∙ get-nil delay))),
        ap (get group) e ∙ get-put_self group g delayed,
      )
