-- ===== src/Tests/GenerationTests.antt =====
-- src/graph/generation on small graphs.
use graph_tool.AdjList.{add_edge, add_vertex, empty, num_vertices}
use graph_tool.AdjList.Iteration.{all_edges}
use graph_tool.AdjList.Valid.{IsValid, pair_count}
use graph_tool.Common.{
  [], arith, if◌then◌else◌, ltb, not, refl, size_add, ℕ, ◌&&◌, ◌+◌, ◌-◌, ◌==◌, ◌∷◌, ◌≡◌,
}
use graph_tool.Generation.Predecessor.{get_predecessor_graph}
use graph_tool.Generation.Predecessor.Links.{get_predecessor_graph_lem}
use graph_tool.Generation.Union.{UnionState, graph_union}
use graph_tool.Tests.Graphs.{middle, sample, two_edges, two_edges-IsValid}

-- A path 0 → 1 → 2, found from 0.
predecessors :
    (get_predecessor_graph sample (λ v. v - 1) (λ _. 0) empty).out_edges
    ≡ ((1, 0) ∷ []) ∷ ((2, 1) ∷ []) ∷ [] ∷ []
unfolding get_predecessor_graph num_vertices add_vertex add_edge size_add
predecessors = refl

get_predecessor_graph_lem_example :
    let after = get_predecessor_graph sample (λ v. v - 1) (λ _. 0) two_edges in
    IsValid after
    × (num_vertices after ≡ num_vertices two_edges + num_vertices sample)
    × ((a b : ℕ)
        → pair_count a b after
          ≡ pair_count a b two_edges
            + (if ltb b (num_vertices sample)
                  && (b - 1) == a
                  && ltb a (num_vertices sample)
                  && not (a == b)
                then 1
                else 0))
unfolding num_vertices
get_predecessor_graph_lem_example =
    get_predecessor_graph_lem sample (λ v. v - 1) (λ _. 0) two_edges two_edges-IsValid (omega arith)
      (omega arith) (omega arith)

-- The entries 4, 1 and 0 of the vertices of the second graph: vertex 3 and vertex 0 of the first, or none.
abbrev partly : UnionState
partly = record {
  ug = two_edges;
  vmap = λ v. if v == 0 then 4 else if v == 1 then 1 else 0;
  emap = λ _. middle;
}

-- The entry of vertex 0 is more than the second graph has vertices: it becomes new all the same.
united :
    (graph_union sample partly).ug.out_edges
    ≡ ((1, 0) ∷ (5, 4) ∷ []) ∷ [] ∷ ((3, 1) ∷ []) ∷ [] ∷ ((0, 2) ∷ (0, 3) ∷ []) ∷ ((5, 5) ∷ []) ∷ []
unfolding graph_union all_edges num_vertices add_vertex add_edge size_add
united = refl
