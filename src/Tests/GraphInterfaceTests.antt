-- ===== src/Tests/GraphInterfaceTests.antt =====
-- src/graph/graph_filtering.cc on a small graph.
use graph_tool.AdjList.{Edge, num_vertices, row}
use graph_tool.AdjList.Clear.{remove_vertex}
use graph_tool.AdjList.Valid.{IsValid, multiplicity}
use graph_tool.Common.{
  [], arith, false, get_or, if◌then◌else◌, length, map, none, refl, some, suc, true, zero, ℕ, ◌%◌,
  ◌<◌, ◌==◌, ◌^◌, ◌||◌, ◌∷◌, ◌≡◌,
}
use graph_tool.GraphInterface.{GraphInterface, mask_filter, purge_edges}
use graph_tool.GraphInterface.Kept.{kept_below}
use graph_tool.GraphInterface.Purge.{purge_edges_lem}
use graph_tool.GraphInterface.PurgeVertices.{purge_vertices, targets_within}
use graph_tool.GraphInterface.Purged.{IsWithin, purge_vertices_lem}
use graph_tool.Tests.Graphs.{sample, sample-IsValid, two_edges}

-- The edge filter lets the edges with the indices 1 and 3 through.
abbrev filtered : GraphInterface
filtered = record {
  mg = sample;
  reversed = false;
  directed = true;
  edge_filter_map = λ i. i % 2;
  edge_filter_invert = false;
  edge_filter_active = true;
  vertex_filter_map = λ _. 0;
  vertex_filter_invert = false;
  vertex_filter_active = false;
}

purge_edges_lem_example :
    IsValid (purge_edges filtered).mg
    × ((e : Edge)
        → multiplicity e (purge_edges filtered).mg
          ≡ (if mask_filter (λ i. i % 2) false e.idx then multiplicity e sample else 0))
    × ((purge_edges filtered).edge_filter_active ≡ true)
purge_edges_lem_example = purge_edges_lem filtered sample-IsValid refl

-- The vertex filter masks the vertex 1 of three.
abbrev masked : GraphInterface
masked = record filtered {
  vertex_filter_map = λ v. if v == 1 then 0 else 1;
  vertex_filter_active = true;
}

-- The last vertex, now 1, keeps its self-loop as an edge to 2.
purge_vertices-masked :
    elim (purge_vertices (λ _. 7) masked) [ none ↦ [] | some (gi, _) ↦ gi.mg.out_edges ]
    ≡ ((1, 0) ∷ (1, 1) ∷ []) ∷ ((2, 3) ∷ []) ∷ []
unfolding purge_vertices remove_vertex mask_filter num_vertices
purge_vertices-masked = refl

-- Six vertices, an edge from 2 to 5, and both of these masked: when the turn of 2 comes, there is no
-- list at the place 5.
abbrev masked_ends : GraphInterface
masked_ends = record masked {
  mg = record two_edges {
    out_edges = [] ∷ [] ∷ ((5, 0) ∷ []) ∷ [] ∷ [] ∷ [] ∷ [];
    in_edges = [] ∷ [] ∷ [] ∷ [] ∷ [] ∷ ((2, 0) ∷ []) ∷ [];
    n_edges = 1;
    last_idx = 1;
  };
  vertex_filter_map = λ v. if v == 2 || v == 5 then 0 else 1;
}

purge_vertices-out_of_bounds : purge_vertices (λ _. 7) masked_ends ≡ none
unfolding purge_vertices remove_vertex mask_filter num_vertices
purge_vertices-out_of_bounds = refl

masked-IsWithin : IsWithin sample (mask_filter masked.vertex_filter_map false) (num_vertices sample)
unfolding targets_within num_vertices mask_filter
masked-IsWithin zero h goes = absurd (ground (arith, goes))
masked-IsWithin (suc zero) h goes = refl
masked-IsWithin (suc (suc v)) h goes = absurd (ground (arith, goes))

few_vertices : num_vertices masked.mg < 2 ^ 31
unfolding num_vertices
few_vertices = omega arith

purge_vertices_lem_example :
    let kept =
      kept_below (mask_filter (λ v. if v == 1 then 0 else 1) false) (num_vertices sample) in
    (purged : GraphInterface) × ((old_index : ℕ → ℕ) × ((purge_vertices (λ _. 7) masked
          ≡ some (purged, old_index))
        × ((purged.mg.out_edges ≡ map (row sample.out_edges) kept)
            × (((k : ℕ) → k < length kept → old_index k ≡ get_or kept k 0)
                × (purged.vertex_filter_active ≡ true)))))
purge_vertices_lem_example =
    purge_vertices_lem masked (λ _. 7) sample-IsValid refl few_vertices masked-IsWithin
