-- ===== src/Tests/AugmentTests.antt =====
-- src/graph/flow/graph_augment.hh on small graphs.
use graph_tool.AdjList.{Edge, add_edge, num_edges, num_vertices, out_edges}
use graph_tool.AdjList.Iteration.{all_edges}
use graph_tool.AdjList.Valid.{IsValid, multiplicity}
use graph_tool.Augment.{Augmentation, augment_graph, deaugment_graph}
use graph_tool.Augment.RoundTrip.{deaugment_graph-augment_graph}
use graph_tool.Common.{[], arith, false, refl, size_add, true, ◌∷◌, ◌≡◌}
use graph_tool.Tests.Graphs.{middle, sample, sample-IsValid}

-- No edge is marked, and every map is constant.
abbrev plain : Augmentation
plain = record {
  graph = sample;
  augmented = λ _. 5;
  capacity = λ _. 1;
  rmap = λ _. middle;
  res = λ _. 0;
}

-- Without detection every edge gets a reverse edge, also the self-loop.
augmented_rows :
    (augment_graph false plain).graph.out_edges
    ≡ ((1, 0) ∷ (1, 1) ∷ [])
      ∷ ((2, 2) ∷ (0, 4) ∷ (0, 5) ∷ [])
      ∷ ((2, 3) ∷ (1, 6) ∷ (2, 7) ∷ [])
      ∷ []
unfolding augment_graph all_edges out_edges add_edge size_add num_vertices
augmented_rows = refl

deaugment_graph-augment_graph_example :
    let b = augment_graph true plain in
    IsValid (deaugment_graph b.augmented b.graph)
    × ((e : Edge) → multiplicity e (deaugment_graph b.augmented b.graph) ≡ multiplicity e sample)
unfolding num_edges
deaugment_graph-augment_graph_example =
    deaugment_graph-augment_graph true plain sample-IsValid (omega arith) (omega arith)
