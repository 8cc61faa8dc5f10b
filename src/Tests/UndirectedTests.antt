-- ===== src/Tests/UndirectedTests.antt =====
-- src/graph/graph_adaptor.hh on a small graph.
use graph_tool.AdjList.{Edge}
use graph_tool.AdjList.Rows.{vertex_times}
use graph_tool.AdjList.Valid.{IsValid, multiplicity}
use graph_tool.Common.{false, if◌then◌else◌, length, refl, true, ◌&&◌, ◌==◌, ◌||◌, ◌≡◌}
use graph_tool.Tests.Graphs.{sample, sample-IsValid}
use graph_tool.Undirected.{remove_out_edge_if, undirected_out_degree, undirected_out_edges}
use graph_tool.Undirected.Remove.{remove_out_edge_if_lem}
use graph_tool.Undirected.View.{AllFrom, listings, undirected_view}

undirected_view_example :
    AllFrom 2 (undirected_out_edges 2 sample)
    × (length (undirected_out_edges 2 sample) ≡ undirected_out_degree 2 sample)
    × ((e : Edge)
        → (listings e false (undirected_out_edges 2 sample)
            ≡ (if 2 == e.source then multiplicity e sample else 0))
          × (listings e true (undirected_out_edges 2 sample)
              ≡ (if 2 == e.target then multiplicity e sample else 0)))
undirected_view_example = undirected_view 2 sample sample-IsValid

remove_out_edge_if_lem_example :
    IsValid (remove_out_edge_if 1 (λ e. e.inverted) sample)
    × ((e : Edge)
        → multiplicity e (remove_out_edge_if 1 (λ e. e.inverted) sample)
          ≡ (if false && 1 == e.source || true && 1 == e.target then 0 else multiplicity e sample))
unfolding vertex_times
remove_out_edge_if_lem_example =
    remove_out_edge_if_lem 1 (λ e. e.inverted) sample sample-IsValid refl
