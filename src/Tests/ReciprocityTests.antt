-- ===== src/Tests/ReciprocityTests.antt =====
-- src/graph/topology/graph_reciprocity.cc on a small graph.
use graph_tool.AdjList.{Edge, adjacent_vertices, num_edges, num_vertices, out_edges}
use graph_tool.AdjList.Iteration.{all_edges}
use graph_tool.AdjList.Valid.{multiplicity, pair_count}
use graph_tool.Common.{arith, refl, size_add, ◌*◌, ◌/◌, ◌<◌, ◌↔◌, ◌≡◌, ◌≤◌}
use graph_tool.Reciprocity.{count_reciprocal, get_reciprocity}
use graph_tool.Reciprocity.Counts.{backs, get_reciprocity_lem}
use graph_tool.Tests.Graphs.{sample, sample-IsValid}

-- Of the four edges only the self-loop has an edge back.
one_of_four : count_reciprocal sample ≡ (4, 1)
unfolding count_reciprocal num_vertices out_edges adjacent_vertices size_add
one_of_four = refl

get_reciprocity_lem_example :
    (get_reciprocity (λ a b. a * 100 / b) sample
      ≡ backs sample (all_edges sample) * 100 / num_edges sample)
    × (backs sample (all_edges sample) ≤ num_edges sample)
    × ((backs sample (all_edges sample) ≡ num_edges sample)
        ↔ ((e : Edge) → 0 < multiplicity e sample → 0 < pair_count e.target e.source sample))
unfolding num_vertices num_edges
get_reciprocity_lem_example =
    get_reciprocity_lem sample sample-IsValid (omega arith) (omega arith) (λ a b. a * 100 / b)
