-- ===== src/Undirected.antt =====
-- src/graph/graph_adaptor.hh: `UndirectedAdaptor`, the view of a directed graph as an undirected one.
-- It has no state of its own; the functions below are named as in the source and take the
-- underlying graph.
pub mod View
pub mod Remove
use graph_tool.AdjList.{
  AdjList, Edge, add_edge, edge, in_degree, in_edges, out_degree, out_edges, remove_edge,
}
use graph_tool.AdjList.Clear.{remove_edges_between}
use graph_tool.Common.{
  Bool, List, Option, [], false, if◌then◌else◌, map, none, some, true, ℕ, ◌++◌, ◌+◌, ◌∷◌,
}

-- `UndirectedAdaptor::EdgeDescriptor`: an edge and whether it is seen from its target.
pub record EdgeDescriptor : Type 0 where
  pub original : Edge
  pub inverted : Bool

unfoldable pub source : EdgeDescriptor → ℕ
source e = if e.inverted then e.original.target else e.original.source

unfoldable pub target : EdgeDescriptor → ℕ
target e = if e.inverted then e.original.source else e.original.target

-- `make_undirected_edge`
unfoldable pub make_undirected_edge : Bool → Edge → EdgeDescriptor
make_undirected_edge inverted e = record { original = e; inverted = inverted }

-- `edges(g)`, over the edges that the underlying iterators pass.
unfoldable pub undirected_edges : List Edge → List EdgeDescriptor
unfolding make_undirected_edge
undirected_edges es = map (make_undirected_edge false) es

-- `edge(u, v, g)`: first as it is, then the other way round.
unfoldable pub undirected_edge : ℕ → ℕ → AdjList → Option EdgeDescriptor
undirected_edge u v g = elim (edge u v g) [
  | some e ↦ some (record { original = e; inverted = false })
  | none ↦ elim (edge v u g) [
    | some e ↦ some (record { original = e; inverted = true })
    | none ↦ none
  ]
]

-- `out_edges(u, g)`: the out-edges joined with the in-edges.
unfoldable pub undirected_out_edges : ℕ → AdjList → List EdgeDescriptor
unfolding make_undirected_edge
undirected_out_edges u g =
    map (make_undirected_edge false) (out_edges u g)
    ++ map (make_undirected_edge true) (in_edges u g)

unfoldable pub undirected_adjacent_vertices : ℕ → AdjList → List ℕ
undirected_adjacent_vertices u g = map target (undirected_out_edges u g)

unfoldable pub undirected_out_degree : ℕ → AdjList → ℕ
undirected_out_degree u g = out_degree u g + in_degree u g

unfoldable pub undirected_add_edge : ℕ → ℕ → AdjList → AdjList × EdgeDescriptor
undirected_add_edge u v g =
    let (h, e) = add_edge u v g in (h, record { original = e; inverted = false })

unfoldable pub undirected_remove_edge : EdgeDescriptor → AdjList → AdjList
undirected_remove_edge e g = remove_edge e.original g

-- `remove_edge(u, v, g)`
unfoldable pub undirected_remove_edges_between : ℕ → ℕ → AdjList → AdjList
undirected_remove_edges_between u v g = remove_edges_between v u (remove_edges_between u v g)

-- The first loop of `remove_out_edge_if`; `push_front` turns the order round.
unfoldable pub matching_edges :
    (EdgeDescriptor → Bool) → List EdgeDescriptor → List EdgeDescriptor → List EdgeDescriptor
matching_edges predicate [] removed = removed
matching_edges predicate (e ∷ es) removed =
    matching_edges predicate es (if predicate e then e ∷ removed else removed)

unfoldable pub remove_each : List EdgeDescriptor → AdjList → AdjList
unfolding undirected_remove_edge
remove_each [] g = g
remove_each (e ∷ es) g = remove_each es (undirected_remove_edge e g)

unfoldable pub remove_out_edge_if : ℕ → (EdgeDescriptor → Bool) → AdjList → AdjList
unfolding matching_edges remove_each undirected_out_edges
remove_out_edge_if v predicate g =
    remove_each (matching_edges predicate (undirected_out_edges v g) []) g
