-- ===== src/JobGraph/Tabs.antt =====
-- The listener on the tab of the graph, after any events.
use playground_azure_user_sy.Prelude.{
  ℕ, ◌+◌, Bool, true, false, List, [], ◌∷◌, if◌then◌else◌, ℕ_eq, ◌≡◌, ◌∙◌, arith,
}
use playground_azure_user_sy.JobGraph.{
  GraphValue, JobGraph, new_graph, draw_network, render_graph, on_network_click,
  install_tab_listener, fit_network, GraphEvent, rendered, dom_updated, tab_shown, dragged,
  nodes_clicked, graph_event, graph_run,
}

-- One if the widget stood in a tab at the first update, and none else.
abbrev first_tab : List GraphEvent → ℕ
first_tab [] = 0
first_tab (rendered ∷ es) = first_tab es
first_tab (dom_updated tab ∷ es) = if tab then 1 else 0
first_tab (tab_shown ∷ es) = first_tab es
first_tab (dragged ∷ es) = first_tab es
first_tab (nodes_clicked picked ∷ es) = first_tab es

-- The listeners at the end, from those at the start.
abbrev expected : Bool → ℕ → List GraphEvent → ℕ
expected true l es = l
expected false l es = l + first_tab es

run_listeners :
    (g : JobGraph) (es : List GraphEvent)
    → (graph_run g es).listeners ≡ expected g.tab_listener_installed g.listeners es
unfolding graph_run graph_event render_graph draw_network on_network_click install_tab_listener
    fit_network
run_listeners g [] = ground arith
run_listeners g (rendered ∷ es) = ground (arith, run_listeners (graph_event g rendered) es)
run_listeners g (dom_updated tab ∷ es) =
    ground (arith, run_listeners (graph_event g (dom_updated tab)) es)
run_listeners g (tab_shown ∷ es) = ground (arith, run_listeners (graph_event g tab_shown) es)
run_listeners g (dragged ∷ es) = ground (arith, run_listeners (graph_event g dragged) es)
run_listeners g (nodes_clicked [] ∷ es) =
    ground (arith, run_listeners (graph_event g (nodes_clicked [])) es)
run_listeners g (nodes_clicked (id ∷ ids) ∷ es) =
    ground (arith, run_listeners (graph_event g (nodes_clicked (id ∷ ids))) es)

-- After any events of a new graph: it has one listener on its tab if it stood in a tab at the first
-- update of the document, and none otherwise, whatever comes later.
pub graph_run-listeners :
    (res_id : ℕ) (value : GraphValue) (es : List GraphEvent)
    → (graph_run (new_graph res_id value) es).listeners ≡ first_tab es
unfolding new_graph
graph_run-listeners res_id value es = run_listeners (new_graph res_id value) es ∙ omega arith
