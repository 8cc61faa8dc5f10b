-- ===== src/Tests/IndependentSetTests.antt =====
-- src/graph/topology/graph_maximal_vertex_set.cc on a small graph.
use graph_tool.AdjList.{in_degree, in_edges, num_vertices, out_degree, out_edges}
use graph_tool.Common.{Bool, [], false, map, refl, true, ℕ, ◌∷◌, ◌≡◌}
use graph_tool.IndependentSet.{maximal_vertex_set}
use graph_tool.Tests.Graphs.{sample}
use graph_tool.Undirected.{
  target, undirected_adjacent_vertices, undirected_out_degree, undirected_out_edges,
}

abbrev always : ℕ → ℕ → Bool
always round v = true

-- The path from 0 to 1 to 2: the first round takes 0, the second 2.
maximal_vertex_set-sample :
    map (maximal_vertex_set always false sample 2).1.mvs (0 ∷ 1 ∷ 2 ∷ []) ≡ true ∷ false ∷ true ∷ []
unfolding maximal_vertex_set num_vertices undirected_adjacent_vertices undirected_out_degree
    undirected_out_edges out_edges in_edges out_degree in_degree target
maximal_vertex_set-sample = refl
