-- ===== src/Matrix/Examples.antt =====
-- A matrix of hours: two projects and two days, and one cell without a record.
use playground_azure_user_sy.Prelude.{
  String, true, false, ◌≡◌, ◌≢◌, inl, inr, refl, none, some, List, [], ◌∷◌, ◌==◌, ==_iff, String_eq,
  arith,
}
use playground_azure_user_sy.Prelude.Int.{pos, negsuc, ◌+ℤ◌}
use playground_azure_user_sy.Prelude.Maps.{get, put}
use playground_azure_user_sy.Matrix.{plain, related, Record}
use playground_azure_user_sy.Matrix.Widget.{
  read_records, cell_at, make_row, init_matrix, Attrs, float, shows_totals, is_aggregatable,
  add_record, push_new,
}
use playground_azure_user_sy.Matrix.Renderer.{Renderer, aggregates, refresh}
use playground_azure_user_sy.Matrix.Totals.{table_total}
use playground_azure_user_sy.Matrix.Table.{
  row_aggregates, column_aggregates, init_matrix-IsFull, refresh-totals,
}
use playground_azure_user_sy.Matrix.Width.{fresh_renderer}

abbrev monday_site : Record
monday_site = record { id = "1"; x = plain "mon"; y = related "site"; value = pos 4 }

abbrev tuesday_site : Record
tuesday_site = record { id = "2"; x = plain "tue"; y = related "site"; value = pos 3 }

abbrev tuesday_office : Record
tuesday_office = record { id = "3"; x = plain "tue"; y = related "office"; value = negsuc 0 }

abbrev hours : List Record
hours = monday_site ∷ tuesday_site ∷ tuesday_office ∷ []

abbrev same_text : String → String
same_text s = s

abbrev no_attrs : Attrs
no_attrs = record { show_row_totals = none; show_column_totals = none }

abbrev hours_renderer : Renderer
hours_renderer = fresh_renderer same_text no_attrs float hours

abbrev changed_office : Record
changed_office = record tuesday_office { value = pos 6 }

ne : (s t : String) → (s == t) ≡ false → s ≢ t
ne s t h e = ground (arith, ==_iff s t)

-- The office's hours on Tuesday become 6.
abbrev changed : Renderer
changed = record hours_renderer { records = monday_site ∷ tuesday_site ∷ changed_office ∷ [] }

hours_columns : aggregates hours_renderer.show_column_totals hours_renderer.field_type ≡ true
unfolding aggregates init_matrix shows_totals is_aggregatable
hours_columns = refl

hours_rows : aggregates hours_renderer.show_row_totals hours_renderer.field_type ≡ true
unfolding aggregates init_matrix shows_totals is_aggregatable
hours_rows = refl

-- The office has no record on Monday.
hours_blank : cell_at (read_records hours) "office" "mon" ≡ none
unfolding cell_at read_records add_record get put
hours_blank = refl

hours_total : table_total hours_renderer.rows ≡ pos 6
unfolding init_matrix read_records add_record push_new make_row cell_at get put ◌+ℤ◌
hours_total = refl

-- After the change the sum is 13: the site has 7, the office 6, Monday 4 and Tuesday 9. The row of the
-- office has no cell for Monday.
refresh-totals_example :
    ((refresh changed "3").total ≡ some (pos 13))
    × (row_aggregates (refresh changed "3").rows ≡ some (pos 7) ∷ some (pos 6) ∷ [])
    × (column_aggregates (refresh changed "3").columns ≡ some (pos 4) ∷ some (pos 9) ∷ [])
unfolding init_matrix read_records add_record push_new make_row cell_at get put ◌+ℤ◌
refresh-totals_example =
    refresh-totals changed "3" (some changed_office)
      (inr (ne "1" "3" refl, inr (ne "2" "3" refl, inl (refl, refl)))) hours_columns hours_rows
      (init_matrix-IsFull same_text no_attrs float hours)
