-- ===== src/JobGraph/Titles.antt =====
-- What the titles of the nodes show, after one rendering and after more.
use playground_azure_user_sy.Prelude.{
  ℕ, zero, suc, List, [], ◌∷◌, map, ◌≡◌, refl, ap, ap₂, arith, ◌∙◌, sym,
}
use playground_azure_user_sy.JobGraph.{
  Title, no_title, html, element, JobNode, GraphValue, html_title, title_node, JobGraph, new_graph,
  draw_network, render_graph, GraphEvent, rendered, dom_updated, tab_shown, dragged, nodes_clicked,
  on_network_click, install_tab_listener, fit_network, graph_event, graph_run,
}

abbrev pub titles : List JobNode → List Title
titles [] = []
titles (n ∷ ns) = n.title ∷ titles ns

abbrev renderings : List GraphEvent → ℕ
renderings [] = 0
renderings (rendered ∷ es) = suc (renderings es)
renderings (dom_updated tab ∷ es) = renderings es
renderings (tab_shown ∷ es) = renderings es
renderings (dragged ∷ es) = renderings es
renderings (nodes_clicked picked ∷ es) = renderings es

-- A title after so many renderings.
abbrev title_after : ℕ → Title → Title
title_after zero t = t
title_after (suc zero) t = html_title t
title_after (suc (suc n)) t = element "[object HTMLDivElement]"

abbrev event_nodes : GraphEvent → List JobNode → List JobNode
event_nodes rendered ns = map title_node ns
event_nodes (dom_updated tab) ns = ns
event_nodes tab_shown ns = ns
event_nodes dragged ns = ns
event_nodes (nodes_clicked picked) ns = ns

graph_event-nodes :
    (g : JobGraph) (e : GraphEvent) → (graph_event g e).value.nodes ≡ event_nodes e g.value.nodes
unfolding graph_event render_graph draw_network on_network_click install_tab_listener fit_network
graph_event-nodes g rendered = ground arith
graph_event-nodes g (dom_updated tab) = ground arith
graph_event-nodes g tab_shown = ground arith
graph_event-nodes g dragged = ground arith
graph_event-nodes g (nodes_clicked []) = ground arith
graph_event-nodes g (nodes_clicked (id ∷ ids)) = ground arith

title_after-html_title : (n : ℕ) (t : Title) → title_after n (html_title t) ≡ title_after (suc n) t
title_after-html_title zero t = refl
title_after-html_title (suc zero) no_title = refl
title_after-html_title (suc zero) (html t) = refl
title_after-html_title (suc zero) (element t) = refl
title_after-html_title (suc (suc n)) t = refl

titles-title_node :
    (k : ℕ) (ns : List JobNode)
    → map (title_after k) (titles (map title_node ns)) ≡ map (title_after (suc k)) (titles ns)
titles-title_node k [] = refl
titles-title_node k (n ∷ ns) =
    ap₂ (λ t ts. t ∷ ts) (title_after-html_title k n.title) (titles-title_node k ns)

map-same : (ts : List Title) → map (title_after 0) ts ≡ ts
map-same [] = refl
map-same (t ∷ ts) = ap (λ us. t ∷ us) (map-same ts)

after_event :
    (e : GraphEvent) (es : List GraphEvent) (ns : List JobNode)
    → map (title_after (renderings es)) (titles (event_nodes e ns))
      ≡ map (title_after (renderings (e ∷ es))) (titles ns)
after_event rendered es ns = titles-title_node (renderings es) ns
after_event (dom_updated tab) es ns = refl
after_event tab_shown es ns = refl
after_event dragged es ns = refl
after_event (nodes_clicked picked) es ns = refl

titles_run :
    (g : JobGraph) (es : List GraphEvent)
    → titles (graph_run g es).value.nodes ≡ map (title_after (renderings es)) (titles g.value.nodes)
unfolding graph_run
titles_run g [] = sym (map-same (titles g.value.nodes))
titles_run g (e ∷ es) =
    titles_run (graph_event g e) es
    ∙ ap (λ ns. map (title_after (renderings es)) (titles ns)) (graph_event-nodes g e)
    ∙ after_event e es g.value.nodes

-- After any events of a new graph: the titles of the nodes are those of the value that was given if
-- there was no rendering, elements made of them after one rendering, with the HTML of a text, and
-- after more renderings elements that all show the text "[object HTMLDivElement]".
pub graph_run-titles :
    (res_id : ℕ) (value : GraphValue) (es : List GraphEvent)
    → titles (graph_run (new_graph res_id value) es).value.nodes
      ≡ map (title_after (renderings es)) (titles value.nodes)
unfolding new_graph
graph_run-titles res_id value es = titles_run (new_graph res_id value) es
