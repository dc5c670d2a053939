-- ===== src/JobGraph/Selection.antt =====
-- Which node is selected in the graph, after any events.
use playground_azure_user_sy.Prelude.{
  ℕ, zero, suc, Bool, true, false, Option, none, some, List, [], ◌∷◌, ◌==◌, ℕ_eq, ◌≡◌, refl, subst,
  ◌∙◌, ◌⊎◌, inl, inr, arith, Bool-cases,
}
use playground_azure_user_sy.JobGraph.{
  JobNode, GraphValue, Network, JobGraph, new_graph, draw_network, render_graph, on_network_click,
  install_tab_listener, fit_network, GraphEvent, rendered, dom_updated, tab_shown, dragged,
  nodes_clicked, graph_event, graph_run,
}

-- The first selected node is the job of the form, or the last job that was asked for.
abbrev pub IsMarked : ℕ → List ℕ → List ℕ → Type 0
IsMarked res_id [] requests = ⊥
IsMarked res_id (id ∷ ids) requests = (id ≡ res_id) ⊎ ((jobs : List ℕ) × (requests ≡ id ∷ jobs))

abbrev IsKept : ℕ → Option Network → List ℕ → Type 0
IsKept res_id none requests = Unit {0}
IsKept res_id (some n) requests = IsMarked res_id n.selected requests

abbrev HasMark : JobGraph → Type 0
HasMark g = IsKept g.res_id g.network g.requests

abbrev state : ℕ → GraphValue → Option Network → Bool → ℕ → ℕ → List ℕ → JobGraph
state r v n t l f q = record {
  res_id = r;
  value = v;
  network = n;
  tab_listener_installed = t;
  listeners = l;
  fits = f;
  requests = q;
}

event_HasMark :
    (r : ℕ) (ns : List JobNode) (es : List (ℕ × ℕ)) (n : Option Network) (t : Bool) (l f : ℕ)
    (q : List ℕ) (e : GraphEvent)
    → IsKept r n q
    → HasMark (graph_event (state r (record { nodes = ns; edges = es }) n t l f q) e)
unfolding graph_event render_graph draw_network on_network_click install_tab_listener fit_network
event_HasMark r [] es n t l f q rendered h = h
event_HasMark r (m ∷ ns) es n t l f q rendered h = inl refl
event_HasMark r ns es n true l f q (dom_updated tab) h = h
event_HasMark r ns es n false l f q (dom_updated tab) h = h
event_HasMark r ns es n t zero f q tab_shown h = h
event_HasMark r ns es none t (suc l) f q tab_shown h = h
event_HasMark r ns es (some m) t (suc l) f q tab_shown h = h
event_HasMark r ns es none t l f q dragged h = h
event_HasMark r ns es (some m) t l f q dragged h = inl refl
event_HasMark r ns es none t l f q (nodes_clicked picked) h = h
event_HasMark r ns es (some m) t l f q (nodes_clicked []) h = inl refl
event_HasMark r ns es (some m) t l f q (nodes_clicked (id ∷ ids)) h = elim (Bool-cases (id == r)) [
  | inl e ↦ rw (e) (inl (ground (arith)))
  | inr e ↦ rw (e) (inr (q, refl))
]

run_HasMark : (g : JobGraph) (es : List GraphEvent) → HasMark g → HasMark (graph_run g es)
unfolding graph_run
run_HasMark g [] h = h
run_HasMark g (e ∷ es) h = run_HasMark (graph_event g e) es (
    event_HasMark g.res_id g.value.nodes g.value.edges g.network g.tab_listener_installed
      g.listeners g.fits g.requests e h)

event_res_id : (g : JobGraph) (e : GraphEvent) → (graph_event g e).res_id ≡ g.res_id
unfolding graph_event render_graph draw_network on_network_click install_tab_listener fit_network
event_res_id g rendered = ground arith
event_res_id g (dom_updated tab) = ground arith
event_res_id g tab_shown = ground arith
event_res_id g dragged = ground arith
event_res_id g (nodes_clicked []) = ground arith
event_res_id g (nodes_clicked (id ∷ ids)) = ground arith

run_res_id : (g : JobGraph) (es : List GraphEvent) → (graph_run g es).res_id ≡ g.res_id
unfolding graph_run
run_res_id g [] = refl
run_res_id g (e ∷ es) = run_res_id (graph_event g e) es ∙ event_res_id g e

kept :
    (r : ℕ) (o : Option Network) (n : Network) (q : List ℕ)
    → o ≡ some n
    → IsKept r o q
    → IsMarked r n.selected q
kept r none n q e h = absurd (cc)
kept r (some m) n q e h = subst (λ o. IsKept r o q) e h

-- After any events of a new graph with a network, whichever nodes are clicked or dragged: the first
-- selected node is that of the job of the form, or that of the job whose form was asked for last.
pub graph_run-IsMarked :
    (res_id : ℕ) (value : GraphValue) (es : List GraphEvent) (n : Network)
    → (graph_run (new_graph res_id value) es).network ≡ some n
    → IsMarked res_id n.selected (graph_run (new_graph res_id value) es).requests
unfolding new_graph
graph_run-IsMarked res_id value es n e =
    let g : JobGraph = new_graph res_id value in
    kept res_id (graph_run g es).network n (graph_run g es).requests e (
      subst (λ r. IsKept r (graph_run g es).network (graph_run g es).requests) (run_res_id g es)
        (run_HasMark g es tt))
