-- ===== src/JobGraph/Examples.antt =====
-- The theorems about the graph of jobs, at a job that depends on another.
use playground_azure_user_sy.Prelude.{true, false, List, [], ◌∷◌, map, ℕ_eq, ◌≡◌, refl}
use playground_azure_user_sy.JobGraph.{
  html, element, GraphValue, title_node, Network, new_graph, draw_network, render_graph,
  on_network_click, install_tab_listener, GraphEvent, rendered, dom_updated, nodes_clicked,
  graph_event, graph_run,
}
use playground_azure_user_sy.JobGraph.Titles.{titles, graph_run-titles}
use playground_azure_user_sy.JobGraph.Selection.{IsMarked, graph_run-IsMarked}
use playground_azure_user_sy.JobGraph.Tabs.{graph_run-listeners}

abbrev two_jobs : GraphValue
two_jobs = record {
  nodes =
      record { id = 1; title = html "<b>import</b>" }
      ∷ record { id = 2; title = html "export" }
      ∷ [];
  edges = (1, 2) ∷ [];
}

abbrev session : List GraphEvent
session =
    dom_updated false
    ∷ rendered
    ∷ nodes_clicked (1 ∷ [])
    ∷ rendered
    ∷ dom_updated true
    ∷ nodes_clicked (2 ∷ [])
    ∷ []

graph_run-titles_example :
    titles (graph_run (new_graph 1 two_jobs) session).value.nodes
    ≡ element "[object HTMLDivElement]" ∷ element "[object HTMLDivElement]" ∷ []
graph_run-titles_example = graph_run-titles 1 two_jobs session

graph_run-listeners_example : (graph_run (new_graph 1 two_jobs) session).listeners ≡ 0
graph_run-listeners_example = graph_run-listeners 1 two_jobs session

abbrev drawn : Network
drawn = record {
  nodes = map title_node (map title_node two_jobs.nodes);
  edges = record { from = 1; to = 2 } ∷ [];
  stabilization = true;
  selected = 2 ∷ [];
}

graph_run-IsMarked_example : IsMarked 1 (2 ∷ []) (2 ∷ [])
unfolding graph_run graph_event new_graph render_graph draw_network on_network_click
    install_tab_listener
graph_run-IsMarked_example = graph_run-IsMarked 1 two_jobs session drawn refl

-- A text of HTML is shown after the first rendering.
first_titles :
    titles (graph_run (new_graph 1 two_jobs) (rendered ∷ [])).value.nodes
    ≡ element "<b>import</b>" ∷ element "export" ∷ []
unfolding graph_run graph_event new_graph render_graph draw_network
first_titles = refl
