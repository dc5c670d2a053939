-- ===== src/Matrix.antt =====
-- addons_OCA/web/web_widget_x2many_2d_matrix/static/src/js: a one2many shown as a table of two
-- axes. Here: the records, the cells, and the table's rows and columns.
pub mod Widget
pub mod Renderer
pub mod Axes
pub mod Totals
pub mod Table
pub mod Labels
pub mod Width
pub mod Navigation
mod Examples
use playground_azure_user_sy.Prelude.{String, Bool, Option, none, some, List}
use playground_azure_user_sy.Prelude.Int.{ℤ}

-- The value of an axis field: a text, or a related record with its `display_name`.
pub data AxisValue : Type 0 where
  plain : String → AxisValue
  related : String → AxisValue

-- The label of an axis value.
abbrev axis_label : AxisValue → String
axis_label (plain s) = s
axis_label (related display_name) = display_name

-- A datapoint of the one2many: its `id`, and `data` at the fields of the axes and of the value.
pub record Record : Type 0 where
  pub id : String
  pub x : AxisValue
  pub y : AxisValue
  pub value : ℤ

abbrev pub x_label : Record → String
x_label r = axis_label r.x

abbrev pub y_label : Record → String
y_label r = axis_label r.y

-- A cell holds a record, or is undefined.
abbrev pub Cell : Type 0
Cell = Option Record

-- A column and a row, with the aggregate that the renderer attaches.
pub record Column : Type 0 where
  pub string : String
  pub aggregate : Option ℤ

pub record Row : Type 0 where
  pub string : String
  pub cells : List Cell  -- `data`
  pub aggregate : Option ℤ
