-- ===== src/Tests/ParallelTests.antt =====
-- src/graph/stats/graph_parallel.hh on a graph with two parallel edges and a self-loop.
use graph_tool.AdjList.{Edge, EdgeList, make_out_edge, num_edges, num_vertices, out_edges}
use graph_tool.AdjList.Valid.{IsValid, multiplicity, pair_count}
use graph_tool.Common.{
  [], arith, false, if◌then◌else◌, ltb, map, refl, suc, true, zero, ℕ, ◌%◌, ◌==◌, ◌^◌, ◌∷◌, ◌≡◌,
  ◌≤◌,
}
use graph_tool.Parallel.{label_loops, label_parallel_edges, label_self_loops, remove_labeled_edges}
use graph_tool.Parallel.Labels.{HoldsLabels}
use graph_tool.Parallel.Loops.{remove_labeled_edges-label_self_loops}
use graph_tool.Parallel.Simplified.{remove_labeled_edges-label_parallel_edges}
use graph_tool.Tests.Graphs.{sample, sample-IsValid}

-- Counting all, both edges from 0 to 1 get a label.
counted :
    map (label_parallel_edges (λ x. x) false true sample (λ _. 0)) (0 ∷ 1 ∷ 2 ∷ []) ≡ 1 ∷ 2 ∷ 1 ∷ []
unfolding label_parallel_edges out_edges num_vertices
counted = refl

-- A map of 8-bit labels holds the labels of the self-loops of a small graph.
bytes-HoldsLabels : HoldsLabels (λ x. x % 2 ^ 8) false sample
unfolding num_edges
bytes-HoldsLabels = record {
  zero_kept = refl;
  positive = λ k above _ most. omega (arith, above, most);
}

-- The label of the 256th self-loop of a vertex is 0 in such a map.
many_loops : ℕ → EdgeList
many_loops zero = []
many_loops (suc n) = (0, n) ∷ many_loops n

wrapped :
    label_loops (λ x. x % 2 ^ 8) false 0 1 (map (make_out_edge 0) (many_loops 256)) (λ _. 7) 0 ≡ 0
unfolding label_loops make_out_edge many_loops
wrapped = refl

-- Counting in a map of larger labels, the label is 256.
not_wrapped :
    label_loops (λ x. x % 2 ^ 31) false 0 1 (map (make_out_edge 0) (many_loops 256)) (λ _. 7) 0
    ≡ 256
unfolding label_loops make_out_edge many_loops
not_wrapped = refl

remove_labeled_edges-label_self_loops_example :
    IsValid (remove_labeled_edges (label_self_loops (λ x. x % 2 ^ 8) false sample (λ _. 7)) sample)
    × ((e : Edge)
        → multiplicity e
            (remove_labeled_edges (label_self_loops (λ x. x % 2 ^ 8) false sample (λ _. 7)) sample)
          ≡ (if e.target == e.source then 0 else multiplicity e sample))
unfolding num_vertices
remove_labeled_edges-label_self_loops_example =
    remove_labeled_edges-label_self_loops (λ x. x % 2 ^ 8) false (λ _. 7) sample bytes-HoldsLabels
      sample-IsValid (omega arith)

remove_labeled_edges-label_parallel_edges_example :
    IsValid (
      remove_labeled_edges
        (label_parallel_edges (λ x. x % 2 ^ 8) false false sample (λ _. 0))
        sample)
    × ((a b : ℕ)
        → pair_count a b (
            remove_labeled_edges
              (label_parallel_edges (λ x. x % 2 ^ 8) false false sample (λ _. 0))
              sample)
          ≡ (if ltb 0 (pair_count a b sample) then 1 else 0))
    × ((e : Edge)
        → multiplicity e (
            remove_labeled_edges
              (label_parallel_edges (λ x. x % 2 ^ 8) false false sample (λ _. 0))
              sample)
          ≤ multiplicity e sample)
unfolding num_vertices
remove_labeled_edges-label_parallel_edges_example =
    remove_labeled_edges-label_parallel_edges (λ x. x % 2 ^ 8) false sample bytes-HoldsLabels
      sample-IsValid (omega arith) (λ _. 0) (λ _. refl)
