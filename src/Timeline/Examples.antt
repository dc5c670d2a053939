-- ===== src/Timeline/Examples.antt =====
-- Three events, two of one project and one without, and items that depend on each other.
use playground_azure_user_sy.Prelude.{
  ℕ, String, false, refl, none, some, List, [], ◌∷◌, ℕ_eq, ◌==◌, String_eq, if◌then◌else◌,
}
use playground_azure_user_sy.Timeline.{
  FieldData, no_data, name_pair, text_data, TimelineEvent, split_groups, TimelineView,
}
use playground_azure_user_sy.Timeline.Groups.{HasDistinctIds, AllGrouped, split_groups-AllGrouped}

abbrev fields_of : FieldData → String → FieldData
fields_of project field = if field == "project" then project else text_data "2024-01-01"

abbrev meeting : ℕ → FieldData → TimelineEvent
meeting id project = record {
  id = id;
  name = none;
  display_name = "Meeting";
  data_ = fields_of project;
}

abbrev meetings : List TimelineEvent
meetings = meeting 1 (name_pair 5 "Site") ∷ meeting 2 no_data ∷ meeting 3 (name_pair 5 "Site") ∷ []

abbrev by_project : TimelineView
by_project = record {
  date_start = "date";
  date_stop = none;
  date_delay = none;
  all_day = none;
  no_period = false;
  last_group_by = some "project";
  mode = none;
}

split_groups-AllGrouped_example :
    AllGrouped by_project (split_groups meetings "project") meetings
    × HasDistinctIds (split_groups meetings "project")
split_groups-AllGrouped_example = split_groups-AllGrouped by_project "project" meetings refl
