-- ===== src/JobGraph.antt =====
-- addons_OCA/queue/queue_job/static/src/js/queue_job_fields.js: the graph of the jobs that a job
-- depends on. The graph is drawn by vis-network, which selects a node that is clicked or dragged.
pub mod Titles
pub mod Selection
pub mod Tabs
mod Examples
use playground_azure_user_sy.Prelude.{
  ℕ, zero, suc, String, Bool, true, false, Option, none, some, List, [], ◌∷◌, map, length, ltb,
  if◌then◌else◌, ◌==◌, ℕ_eq,
}

-- The title of a node: a text of HTML, or the element that a rendering made, with its content.
pub data Title : Type 0 where
  no_title : Title
  html : String → Title
  element : String → Title

pub record JobNode : Type 0 where
  pub id : ℕ
  pub title : Title

-- An edge of the value is an array of two ids.
pub record JobEdge : Type 0 where
  pub from : ℕ
  pub to : ℕ

pub record GraphValue : Type 0 where
  pub nodes : List JobNode
  pub edges : List (ℕ × ℕ)

-- A new element. An element that is put where a text is expected is converted to a text.
abbrev pub html_title : Title → Title
html_title no_title = element ""
html_title (html t) = element t
html_title (element t) = element "[object HTMLDivElement]"

abbrev pub title_node : JobNode → JobNode
title_node n = record n { title = html_title n.title }

abbrev make_edge : ℕ × ℕ → JobEdge
make_edge e = record { from = e.0; to = e.1 }

pub record Network : Type 0 where
  pub nodes : List JobNode
  pub edges : List JobEdge
  pub stabilization : Bool
  pub selected : List ℕ

-- The widget: its value, whose nodes a rendering changes, the id of the job of the form, the
-- listeners on tabs, how often the network was fitted, and the requests of actions, the last one
-- first.
pub record JobGraph : Type 0 where
  pub res_id : ℕ
  pub value : GraphValue
  pub network : Option Network
  pub tab_listener_installed : Bool
  pub listeners : ℕ
  pub fits : ℕ
  pub requests : List ℕ

unfoldable pub new_graph : ℕ → GraphValue → JobGraph
new_graph res_id value = record {
  res_id = res_id;
  value = value;
  network = none;
  tab_listener_installed = false;
  listeners = 0;
  fits = 0;
  requests = [];
}

unfoldable pub draw_network : JobGraph → List JobNode → JobGraph
draw_network g nodes = record g {
  value = record { nodes = nodes; edges = g.value.edges };
  network = some (record {
    nodes = nodes;
    edges = map make_edge g.value.edges;
    stabilization = if ltb 100 (length nodes) then false else true;
    selected = g.res_id ∷ [];
  });
}

-- `_render`. Without nodes the earlier network stays in the widget.
unfoldable pub render_graph : JobGraph → JobGraph
unfolding draw_network
render_graph g = elim g.value.nodes [ [] ↦ g | n ∷ ns ↦ draw_network g (map title_node (n ∷ ns)) ]

abbrev select_nodes : JobGraph → List ℕ → JobGraph
select_nodes g ids = elim g.network [
  | none ↦ g
  | some n ↦ record g { network = some (record n { selected = ids }) }
]

abbrev open_dependency_job : JobGraph → ℕ → JobGraph
open_dependency_job g id = record g { requests = id ∷ g.requests }

-- The handler of a click, once the network has selected the nodes `picked`.
unfoldable pub on_network_click : JobGraph → List ℕ → JobGraph
on_network_click g [] = select_nodes g (g.res_id ∷ [])
on_network_click g (id ∷ ids) =
    let clicked = select_nodes g (id ∷ ids) in
    if id == g.res_id then clicked else open_dependency_job clicked id

-- `tab` tells whether the widget stands in a tab.
unfoldable pub install_tab_listener : JobGraph → Bool → JobGraph
install_tab_listener g tab = if g.tab_listener_installed then g else record g {
  tab_listener_installed = true;
  listeners = if tab then suc g.listeners else g.listeners;
}

unfoldable pub fit_network : JobGraph → JobGraph
fit_network g = elim g.network [ none ↦ g | some n ↦ record g { fits = suc g.fits } ]

pub data GraphEvent : Type 0 where
  rendered : GraphEvent
  dom_updated : Bool → GraphEvent
  tab_shown : GraphEvent
  dragged : GraphEvent
  nodes_clicked : List ℕ → GraphEvent

-- The handlers of the network are there with it, the one of the tab with a listener.
unfoldable pub graph_event : JobGraph → GraphEvent → JobGraph
unfolding render_graph on_network_click install_tab_listener fit_network
graph_event g rendered = render_graph g
graph_event g (dom_updated tab) = install_tab_listener g tab
graph_event g tab_shown = elim g.listeners [ zero ↦ g | suc n ↦ fit_network g ]
graph_event g dragged = select_nodes g (g.res_id ∷ [])
graph_event g (nodes_clicked picked) = elim g.network [
  | none ↦ g
  | some n ↦ on_network_click g picked
]

unfoldable pub graph_run : JobGraph → List GraphEvent → JobGraph
unfolding graph_event
graph_run g [] = g
graph_run g (e ∷ es) = graph_run (graph_event g e) es
