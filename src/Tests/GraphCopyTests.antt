-- ===== src/Tests/GraphCopyTests.antt =====
-- `do_graph_copy` of src/graph/graph_copy.cc on a small graph, with one property of each kind.
use graph_tool.AdjList.{add_edge, add_vertex, empty, num_edges, num_vertices, remove_edge}
use graph_tool.AdjList.Iteration.{all_edges}
use graph_tool.Common.{List, [], arith, refl, size_add, size_sub, ℕ, ◌*◌, ◌∷◌, ◌≡◌}
use graph_tool.GraphCopy.{do_graph_copy}
use graph_tool.GraphCopy.Copied.{IsCopy, do_graph_copy-IsCopy}
use graph_tool.Tests.Graphs.{middle, sample, sample-IsValid}

abbrev squares : List ((ℕ → ℕ) × (ℕ → ℕ))
squares = (λ i. i * i, λ _. 0) ∷ []

-- The copy of a graph whose edges were numbered otherwise has the numbers of the loop.
renumbered :
    (do_graph_copy
      (remove_edge (record { source = 0; target = 1; idx = 0 }) sample)
      empty
      squares
      squares).tgt.out_edges
    ≡ ((1, 0) ∷ []) ∷ ((2, 1) ∷ []) ∷ ((2, 2) ∷ []) ∷ []
unfolding do_graph_copy all_edges num_vertices add_vertex add_edge size_add remove_edge size_sub
renumbered = refl

do_graph_copy-IsCopy_example :
    IsCopy
      (λ _. 0, λ _. 0)
      middle
      sample
      squares
      squares
      (do_graph_copy sample empty squares squares)
unfolding num_edges
do_graph_copy-IsCopy_example =
    do_graph_copy-IsCopy (λ _. 0, λ _. 0) middle sample squares squares sample-IsValid (omega arith)
