-- ===== src/Lib.antt =====
-- The client-side logic of the repository's web modules (Odoo 15 add-ons in JavaScript). Each module
-- overrides or adds a widget of Odoo's web client; they do not call each other, and meet only in
-- the web client, whose classes are not in the repository. One part of this library models one
-- add-on, or a file of one. Paths are below addons_OCA/web/<add-on>/static/src/js/ unless they name
-- another folder.
--
-- RangeSelect   web_listview_range_select/web_listview_range_select.js
--   The state is the renderer's rows with their check boxes, its selection, its own history and the
--   one of the prototype. `on_click_select_record` is `_onClickSelectRecord`, `range_bounds` and
--   `get_range_selection` are `_getRangeSelection`, `get_selection_by_range` and
--   `push_range_history` have their names. Parameters: Underscore's `uniq`, and
--   `_updateSelection` of the list renderer.
-- GroupExpand   web_group_expand/web_group_expand.js
--   A grouped list is a tree of datapoints. `expand_all_groups` and `collapse_all_groups` return
--   the ids whose groups are toggled. Their loops run on fuel, one unit a layer, and are given one
--   more than the tree has layers: each turn goes down a layer.
-- M2xOptions    web_m2x_options/form.js
--   The options of the server and of the node (`IrOptions`, `NodeOptions`), the limit
--   (`set_limit`), the dropdown of a many2one (`search`, from the answer of the server to the
--   entries, their actions and colors), the dialog for an unknown name (Dialog), and what a click
--   on a badge of a many2many does (Badge). Parameters: the answers of `name_search` and
--   `search_read`, the labels, and the escaping of texts.
-- NumericStep   web_widget_numeric_step/numeric_step.js
--   `Widget` is the state of the field: the input, the values, the pending timer and its delay.
--   `handle` runs the handler of an event; a timer's end is an event of its own, so that a run is
--   any interleaving of the user and the timers. Parameters: the numbers with their sum, difference
--   and order, and the formats of the field's type (`Numerals`).
-- Matrix        web_widget_x2many_2d_matrix/widget_x2many_2d_matrix.js and 2d_matrix_renderer.js
--   `init_matrix` reads the axes and the cells from the records, `compute_column_aggregates` and
--   `compute_row_aggregates` attach the sums, `refresh` is an update of a record, `render_view` the
--   table of drawn cells.
-- Many2OneSimple web_widget_many2one_simple/many2one_simple_field.js
--   `handle_event` runs one handler and returns what it does to the world (`Effect`). The answer of
--   the server is an event of its own, and `pending` counts the answers yet to come. `union_domains` is
--   Underscore's `union` of two domains. Parameters: the members of the web client in `WebClient`.
-- DynamicDropdown web_widget_dropdown_dynamic/field_dynamic_dropdown.js
--   `set_values`, `dropdown_format` (`_formatValue`), `dropdown_render_edit` (`_renderEdit`) and
--   `dropdown_on_change` (`_onChange`), over the options that the server gave. Parameters:
--   JSON.stringify and JSON.parse, jQuery's `val` on a select, `_.escape`, `_setValue`.
-- Timeline      web_timeline/timeline_renderer.js
--   `split_groups` and `event_data_transform` make the groups and items from the loaded events,
--   `get_event_dates` reads the dates, `draw_dependencies` the arrows. Parameters: the reading of
--   dates (`TimeClient`), the tests of the colour rules, which items are displayed. An all-day
--   event has the dates that its view names: the source cannot split a date that is not given.
-- AppsMenu      web_responsive/web_responsive.js
--   The state of the apps menu: the searchable menus, the results with the active one, the text in
--   the input, whether a search is scheduled. `find_all_names` is `findNames`, `is_in_menu_tree` and
--   `search_menus` have their names, with a leading underscore there. A run is any interleaving of
--   key presses, clicks and the timer of the search. Parameter: the filter of the library fuzzy.
-- TimelineController web_timeline/timeline_controller.js
--   The queue of moves and what is sent: `on_move`, `internal_move`, `on_add`, `on_remove` and
--   their answers. Times are milliseconds; the hours that are written are kept as seconds, which
--   the source divides by 3600. Parameters: the server's answers and the text of a date.
-- ColoredTree   web_tree_dynamic_colored_field/web_tree_dynamic_colored_field.js
--   The reading of an option such as `red: qty < 0; blue: qty > 0` into rules, and the color of a cell.
--   Parameter: the evaluation of a Python expression.
-- TimelineCanvas web_timeline/timeline_canvas.js
--   The points of the line between two items. Coordinates are counted in half pixels.
-- SearchAnd     web_search_with_and/search_bar.js and control_panel_model_extension.js
--   `on_search_keydown` is `_onSearchKeydown`, `add_auto_completion_values` the change of the query.
--   A completion that is dispatched is an effect, which Keys applies to the query. Parameters: the
--   reading of a text by a source, the length of a text, the number that `Math.random` draws.
-- DropTarget    web_drop_target/web_drop_target.js
--   `drop_event` runs one handler: those of the body, of the overlay, of the updates of the form,
--   of a deferred `_add_overlay` and of the end of a read; a run is any interleaving of them.
--   `uploads_of` is `_handle_file_drop_attach`, `create_attachment` has its name there. Parameters:
--   base64js, the allowed types, the size of the window. An exception is the effect `type_error`.
-- KanbanMobile  web_responsive/kanban_renderer_mobile.js
--   `Kanban` is the renderer; `move_to_group`, `layout_update`, `swipe_left` and `swipe_right`, and
--   `mobile_tabs` (`_renderGrouped`). A column that opens and the end of an animation are events of
--   their own, so that a run is any interleaving of these with the user's. Parameter: the width of
--   the tabs.
-- AdvancedSearch web_advanced_search/control_panel/custom_filter_item.js
--   `FilterItem` is the state of a custom filter. `on_m2x_data_changed`, `on_field_select` and
--   `on_apply` are the handlers with these names there. Parameters: the fields and operators of the
--   web client, its default condition, the parsing and formatting of dates.
-- DomainEditor  web_widget_domain_editor_dialog/widget_domain_editor_dialog.js
--   `get_domain` and `dynamic_filter_domain` (the conversion of booleans in `init`). `difference` is
--   the removal of the dialog's domain, which compares objects by identity: a condition has the
--   number of its object. Texts of operators are lists of code units. Meaning gives a domain its
--   records. Parameter: which conditions hold.
-- ContextWarning web_switch_context_warning/switch_context_warning_worker.js and
--   switch_context_warning.js
--   `Worker` is the shared worker with its connections, `on_message` its handler, `deliver` the
--   one of a tab. Messages on the way are kept with the tab, so that a run is any interleaving of
--   tabs that open and messages that arrive.
-- MultiAction   web_ir_actions_act_multi/web_ir_actions_act_multi.js and
--   web_ir_actions_act_view_reload/web_ir_actions_act_view_reload.js
--   `handle_action` is `_handleAction` with both overrides, `execute_multi_action` the chain of
--   promises. Parameters: what the web client does for other actions, and its current controller.
-- TimelineModel web_timeline/timeline_model.js
--   The data, the rights that are asked for once, and the requests whose answers are to come, in any
--   order. Parameter: the answer of the server to a domain.
-- Webcam        web_widget_image_webcam/webcam_widget.js
--   The dialog that takes a picture, with its buttons; `save_and_close` uploads the picture with the
--   size `approx_img_size`, which is counted in quarters. Parameters: the pictures of the library
--   webcam.js, which may come at any time, and the state of the camera at a click (`Camera`).
-- JobGraph      addons_OCA/queue/queue_job/static/src/js/queue_job_fields.js
--   `render_graph` is `_render`, which changes the nodes of the value, `install_tab_listener` and
--   `on_network_click` the handlers. Parameter: the nodes that vis-network selects at a click.
-- TimelineWindow web_timeline/timeline_renderer.js
--   The buttons "Today", "Day" to "Year", `_computeMode` and the first rendering. The window that the
--   timeline shows is kept apart from `current_window`. Parameters: moment.js, and the moves of the
--   window by the user and by animations, which may come at any time.
-- ColumnWidth   web_remember_tree_column_width/list_renderer.js
--   The handlers of a resize, `squeeze_table` (`_squeezeTable`) and the key of a column. Parameters:
--   the storage of the browser, `parseInt`, and the widths of the list renderer.
-- HumanDomain   web_advanced_search/human_domain.js
--   `domain_leaf`, `domain_node` (`DomainTree`) and `get_human_domain`. An exception, where a field of
--   the chain is not found, is `none`. Parameter: the texts that the web client has for operators.
-- RowActions    addons_zync/queue/zbsync/static/src/list_renderer.js and
--   addons_zync/queue/zbsync_mapper/static/src/list_renderer.js
--   `on_row_click` is the handlers that the two overrides of `_renderRow` bind to a row. Answers and
--   closed actions are events of their own, in any order. The class names that `open_line` is told
--   are left out.
-- Prelude       Lists, Boolean tests, integers and equality that the parts share.
--
-- Conventions. Loops by Underscore or jQuery are structural recursion on lists. A promise is read
-- at its answer. Numbers are integers, as are amounts in a currency's smallest unit, but for those
-- of NumericStep, which are a parameter; NaN is `none`. Objects used as maps are association lists:
-- the texts used as keys are no names of members that every object has. Parameters stand for code
-- that is not in the repository, and theorems name what they need of it as hypotheses.
--
-- Not modelled: markup, classes and tooltips, translations; the add-ons around editors, viewers and
-- charts, which hand values to vendored libraries; the small add-ons that call one member of the web
-- client or change an option of it; the vendored libraries; the server side in Python.
pub mod Prelude
pub mod RangeSelect
pub mod GroupExpand
pub mod M2xOptions
pub mod NumericStep
pub mod Matrix
pub mod Many2OneSimple
pub mod DynamicDropdown
pub mod Timeline
pub mod AppsMenu
pub mod TimelineController
pub mod ColoredTree
pub mod TimelineCanvas
pub mod SearchAnd
pub mod DropTarget
pub mod KanbanMobile
pub mod AdvancedSearch
pub mod DomainEditor
pub mod ContextWarning
pub mod MultiAction
pub mod TimelineModel
pub mod Webcam
pub mod JobGraph
pub mod TimelineWindow
pub mod ColumnWidth
pub mod HumanDomain
pub mod RowActions
