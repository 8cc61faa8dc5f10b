-- ===== src/Tests/AdjListTests.antt =====
-- src/graph/graph_adjacency.hh and graph.cc on small graphs.
use graph_tool.AdjList.{
  AdjList, Edge, degree, edge, in_degree, num_edges, num_vertices, out_degree, reindex_edges,
  remove_edge, row,
}
use graph_tool.AdjList.Adding.{add_edge-IsValid, add_edge_lem, added, new_edge}
use graph_tool.AdjList.Clear.{clear_edges, clear_vertex, remove_edges_between, remove_vertex}
use graph_tool.AdjList.Clear.Between.{
  every_other, remove_edges_between-parallel, remove_edges_between_lem,
}
use graph_tool.AdjList.Clear.Vertex.{NoOtherSource, clear_vertex-IsValid, clear_vertex_lem}
use graph_tool.AdjList.Degrees.{degree_totals, total_over}
use graph_tool.AdjList.Edges.{edge_loop, occurrences}
use graph_tool.AdjList.Iteration.{
  all_edges, dereference, edges_begin, edges_end, equal, increment, visited,
}
use graph_tool.AdjList.Linking.{same_edge}
use graph_tool.AdjList.Reindex.{ends, reindex_edges-IsValid, reindex_edges_lem}
use graph_tool.AdjList.Removal.{
  remove_edge-IsValid, remove_edge-add_edge, remove_edge-missing, remove_edge_lem,
}
use graph_tool.AdjList.Rows.{index_times, times, vertex_times}
use graph_tool.AdjList.Valid.{IsValid, multiplicity}
use graph_tool.Common.{
  List, [], arith, if◌then◌else◌, length, ltb, map, refl, size_add, size_mod, size_sub, some, suc,
  sum_by, ℕ, ◌&&◌, ◌*◌, ◌++◌, ◌+◌, ◌-◌, ◌==◌, ◌||◌, ◌↔◌, ◌∷◌, ◌≡◌,
}
use graph_tool.Tests.Graphs.{middle, sample, sample-IsValid, two_edges, unnumbered}

edge-sample : edge 1 2 sample ≡ some middle
unfolding edge
edge-sample = refl

visited-sample :
    visited 5 sample.out_edges (edges_begin sample.out_edges) (edges_end sample.out_edges)
    ≡ some (all_edges sample)
unfolding visited increment equal dereference edges_begin edges_end all_edges
visited-sample = refl

-- The pass over the parallel in-edges of 1 leaves the second one; the next round takes it.
clear_vertex-sample : (clear_vertex 0 sample).in_edges ≡ [] ∷ [] ∷ ((1, 2) ∷ (2, 3) ∷ []) ∷ []
unfolding clear_vertex
clear_vertex-sample = refl

add_edge-IsValid_example : IsValid (added 2 0 sample)
unfolding num_vertices
add_edge-IsValid_example =
    add_edge-IsValid 2 0 sample sample-IsValid (omega arith) (omega arith) (omega arith)
      (omega arith)

remove_edge-add_edge_example :
    IsValid (remove_edge (new_edge 2 0 sample) (added 2 0 sample))
    × (num_edges (remove_edge (new_edge 2 0 sample) (added 2 0 sample)) ≡ num_edges sample)
    × ((f : Edge)
        → multiplicity f (remove_edge (new_edge 2 0 sample) (added 2 0 sample))
          ≡ multiplicity f sample)
unfolding num_vertices
remove_edge-add_edge_example =
    remove_edge-add_edge 2 0 sample sample-IsValid (omega arith) (omega arith) (omega arith)
      (omega arith)

remove_edge-IsValid_example : IsValid (remove_edge middle sample)
unfolding times
remove_edge-IsValid_example = remove_edge-IsValid middle sample sample-IsValid (omega arith)

remove_edge_lem_example :
    (num_edges (remove_edge middle sample) + 1 ≡ num_edges sample)
    × (multiplicity middle (remove_edge middle sample) ≡ 0)
    × ((remove_edge middle sample).free_indexes ≡ [] ++ 2 ∷ [])
    × ((f : Edge)
        → same_edge middle f ≡ 0
        → multiplicity f (remove_edge middle sample) ≡ multiplicity f sample)
unfolding times
remove_edge_lem_example = remove_edge_lem middle sample sample-IsValid (omega arith)

remove_edge-missing_example : ¬ IsValid (remove_edge (record middle { idx = 7 }) sample)
unfolding times
remove_edge-missing_example =
    remove_edge-missing (record middle { idx = 7 }) sample sample-IsValid refl

add_edge_lem_example :
    (multiplicity (new_edge 2 0 sample) sample ≡ 0)
    × ((new_edge 2 0 sample).source ≡ 2)
    × ((new_edge 2 0 sample).target ≡ 0)
    × (num_edges (added 2 0 sample) ≡ num_edges sample + 1)
    × ((e : Edge)
        → multiplicity e (added 2 0 sample)
          ≡ multiplicity e sample + same_edge (new_edge 2 0 sample) e)
unfolding num_vertices
add_edge_lem_example =
    add_edge_lem 2 0 sample sample-IsValid (omega arith) (omega arith) (omega arith) (omega arith)

reindex_edges-IsValid_example : IsValid (reindex_edges unnumbered)
reindex_edges-IsValid_example =
    reindex_edges-IsValid unnumbered
      ((omega arith, (omega arith, tt)), ((omega arith, tt), ((omega arith, tt), tt))) refl
      (omega arith)

reindex_edges_lem_example :
    (map ends (reindex_edges unnumbered).out_edges ≡ map ends unnumbered.out_edges)
    × (num_edges (reindex_edges unnumbered) ≡ num_edges unnumbered)
    × ((reindex_edges unnumbered).last_idx ≡ num_edges unnumbered)
    × ((reindex_edges unnumbered).free_indexes ≡ [])
    × ((i : ℕ)
        → sum_by (index_times i) (reindex_edges unnumbered).out_edges
          ≡ (if ltb i (num_edges unnumbered) then 1 else 0))
reindex_edges_lem_example =
    reindex_edges_lem unnumbered
      ((omega arith, (omega arith, tt)), ((omega arith, tt), ((omega arith, tt), tt))) refl
      (omega arith)

edge_loop_example :
    (es : List Edge) × (visited
        (suc (num_edges sample))
        sample.out_edges
        (edges_begin sample.out_edges)
        (edges_end sample.out_edges)
      ≡ some es)
    × (length es ≡ num_edges sample)
    × ((e : Edge) → occurrences e es ≡ multiplicity e sample)
edge_loop_example = edge_loop sample sample-IsValid

degree_totals_example :
    (total_over (num_vertices sample) (λ u. out_degree u sample) ≡ num_edges sample)
    × (total_over (num_vertices sample) (λ u. in_degree u sample) ≡ num_edges sample)
    × (total_over (num_vertices sample) (λ u. degree u sample) ≡ 2 * num_edges sample)
degree_totals_example = degree_totals sample sample-IsValid

clear_vertex-IsValid_example : IsValid (clear_vertex 1 sample) ↔ NoOtherSource 1 sample
unfolding num_vertices
clear_vertex-IsValid_example = clear_vertex-IsValid 1 sample sample-IsValid (omega arith)

-- Vertex 1 has in-edges from 0, so clearing it breaks the graph.
clear_vertex_breaks_sample : ¬ IsValid (clear_vertex 1 sample)
unfolding times
clear_vertex_breaks_sample w = cc (clear_vertex-IsValid_example.0 w 0 0 (omega arith))

no_source : NoOtherSource 0 sample
unfolding times
no_source s i ne = refl

clear_vertex_lem_example :
    (num_edges (clear_vertex 0 sample) + out_degree 0 sample ≡ num_edges sample)
    × ((e : Edge)
        → multiplicity e (clear_vertex 0 sample)
          ≡ (if 0 == e.source || 0 == e.target then 0 else multiplicity e sample))
unfolding num_vertices
clear_vertex_lem_example = clear_vertex_lem 0 sample sample-IsValid (omega arith) no_source

-- The edges 0 → 1 and 1 → 0 are both counted twice where `ClearEdges` meets the second one: its
-- in-list entry at 0 is counted when 0 is cleared, its out-list entry when 1 is.
abbrev back_and_forth : AdjList
back_and_forth = record {
  out_edges = ((1, 0) ∷ []) ∷ ((0, 1) ∷ []) ∷ [];
  in_edges = ((1, 1) ∷ []) ∷ ((0, 0) ∷ []) ∷ [];
  n_edges = 2;
  last_idx = 2;
  free_indexes = [];
}

clear_edges-back_and_forth : (clear_edges back_and_forth).n_edges ≡ size_mod - 1
unfolding clear_edges size_sub size_add num_vertices
clear_edges-back_and_forth = refl

-- `remove_vertex` moves the later lists up and leaves the vertices in them as they were: the edge
-- from 0 to 1 leads to a vertex that is not there any more.
remove_vertex-stale :
    (remove_vertex 0 (record two_edges {
      out_edges = [] ∷ ((2, 0) ∷ []) ∷ [] ∷ [];
      in_edges = [] ∷ [] ∷ ((1, 0) ∷ []) ∷ [];
    })).out_edges
    ≡ ((2, 0) ∷ []) ∷ [] ∷ []
unfolding remove_vertex size_sub
remove_vertex-stale = refl

-- Of two parallel edges side by side, one is left.
remove_edges_between-sample :
    (remove_edges_between 0 1 sample).out_edges ≡ ((1, 1) ∷ []) ∷ ((2, 2) ∷ []) ∷ ((2, 3) ∷ []) ∷ []
unfolding remove_edges_between
remove_edges_between-sample = refl

remove_edges_between-parallel_example :
    row (remove_edges_between 0 1 sample).out_edges 0 ≡ every_other (row sample.out_edges 0)
unfolding num_vertices
remove_edges_between-parallel_example =
    remove_edges_between-parallel 0 1 sample sample-IsValid (omega arith) (omega arith)
      (refl, (refl, tt))

remove_edges_between_lem_example :
    IsValid (remove_edges_between 1 2 sample)
    × ((e : Edge)
        → multiplicity e (remove_edges_between 1 2 sample)
          ≡ (if 1 == e.source && 2 == e.target then 0 else multiplicity e sample))
unfolding num_vertices vertex_times
remove_edges_between_lem_example =
    remove_edges_between_lem 1 2 sample sample-IsValid (omega arith) (omega arith) (omega arith)
