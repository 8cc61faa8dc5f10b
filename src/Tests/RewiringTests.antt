-- ===== src/Tests/RewiringTests.antt =====
-- src/graph/generation/graph_rewiring.hh on small graphs.
use graph_tool.AdjList.{add_edge, in_degree, num_edges, num_vertices, out_degree, remove_edge}
use graph_tool.AdjList.Edges.{occurrences-all_edges}
use graph_tool.AdjList.Iteration.{all_edges}
use graph_tool.Common.{[], arith, false, refl, size_add, size_sub, true, ℕ, ◌-◌, ◌∷◌, ◌≡◌}
use graph_tool.Rewiring.{
  Rewired, edge_at, erdos_rewire, is_adjacent, parallel_check_target, rewire, swap_target,
}
use graph_tool.Rewiring.Correlated.{correlated_move, degrees_of, edges_by_target, get_target_edge}
use graph_tool.Rewiring.Correlations.{graph_rewire-correlated}
use graph_tool.Rewiring.GraphRewire.{graph_rewire, random_move}
use graph_tool.Rewiring.Simple.{IsSimple, erdos_rewire_lem}
use graph_tool.Rewiring.Swap.{IsTracked}
use graph_tool.Rewiring.Sweeps.{Sound, graph_rewire_lem}
use graph_tool.Tests.Graphs.{two_edges, two_edges-IsValid}

-- Both edges of the graph, in the order of the loop.
abbrev start : Rewired
start = record {
  graph = two_edges;
  edges =
      record { source = 0; target = 1; idx = 0 } ∷ record { source = 2; target = 3; idx = 1 } ∷ [];
}

start-IsTracked : IsTracked start
unfolding all_edges
start-IsTracked = record {
  valid = two_edges-IsValid;
  listed = λ e. occurrences-all_edges e two_edges;
  room = omega arith;
}

-- 0 → 1 and 2 → 3 become 0 → 3 and 2 → 1; the freed indices are used in the order of their removal.
swap_start :
    (swap_target 0 (1, false) start).graph.out_edges ≡ ((3, 0) ∷ []) ∷ [] ∷ ((1, 1) ∷ []) ∷ [] ∷ []
unfolding swap_target remove_edge add_edge size_add size_sub
swap_start = refl

erdos_rewire_lem_example :
    IsTracked (erdos_rewire 0 3 0 false start).0
    × (num_edges (erdos_rewire 0 3 0 false start).0.graph ≡ num_edges two_edges)
    × (num_vertices (erdos_rewire 0 3 0 false start).0.graph ≡ num_vertices two_edges)
    × (false ≡ false → IsSimple two_edges → IsSimple (erdos_rewire 0 3 0 false start).0.graph)
unfolding num_vertices
erdos_rewire_lem_example =
    erdos_rewire_lem 0 3 0 false start start-IsTracked (omega arith) (omega arith) (omega arith)

-- Two sweeps of the two edges, each move with the edge at place 1: `pcount` counts the moves of edge 1
-- with itself, which are refused.
two_sweeps :
    (graph_rewire (λ _ _. 0) (random_move false false (λ _ _. 1)) false 2 two_edges).pcount ≡ 2
unfolding graph_rewire all_edges random_move rewire swap_target remove_edge add_edge size_add
    size_sub parallel_check_target is_adjacent
two_sweeps = refl

graph_rewire_lem_example :
    Sound false false
      (record { graph = two_edges; edges = all_edges two_edges })
      (graph_rewire (λ _ _. 0) (random_move false false (λ _ _. 1)) false 2 two_edges).rewired
unfolding all_edges
graph_rewire_lem_example =
    graph_rewire_lem false false false (λ _ _. 0) (λ _ _. 1) 2 two_edges two_edges-IsValid
      (omega arith) (λ _ _. omega arith)

-- One sweep; the targets of both edges have the degrees (1, 0), and the last place of the list is
-- drawn.
one_sweep :
    (graph_rewire
      (λ _ _. 0)
      (correlated_move false false
        (edges_by_target two_edges 0 (all_edges two_edges) (λ d. []))
        (λ i n size. size - 1))
      true
      1
      two_edges).rewired.graph.out_edges
    ≡ ((3, 0) ∷ []) ∷ [] ∷ ((1, 1) ∷ []) ∷ [] ∷ []
unfolding graph_rewire all_edges correlated_move edges_by_target get_target_edge rewire swap_target
    remove_edge add_edge size_add size_sub parallel_check_target is_adjacent in_degree out_degree
one_sweep = refl

graph_rewire-correlated_example :
    let r =
      (graph_rewire
        (λ _ _. 0)
        (correlated_move false false
          (edges_by_target two_edges 0 (all_edges two_edges) (λ d. []))
          (λ i n size. size - 1))
        true
        1
        two_edges).rewired in
    Sound false false (record { graph = two_edges; edges = all_edges two_edges }) r
    × ((k : ℕ)
        → (degrees_of (edge_at r.edges k).source r.graph
            ≡ degrees_of (edge_at (all_edges two_edges) k).source two_edges)
          × (degrees_of (edge_at r.edges k).target r.graph
              ≡ degrees_of (edge_at (all_edges two_edges) k).target two_edges))
graph_rewire-correlated_example =
    graph_rewire-correlated false false (λ i n size. size - 1) two_edges
      (λ i n size h. omega (arith, h)) true (λ _ _. 0) 1 two_edges-IsValid (omega arith)
