-- ===== src/AdjList/Clear.antt =====
-- `clear_vertex` and `remove_vertex` of src/graph/graph_adjacency.hh, and `ClearEdges` of
-- src/graph/graph.cc, as they are written: an erased entry's successor is passed over, and the
-- second loop of `clear_vertex` is bounded by the size of the list that has just been cleared.
pub mod Passes
pub mod Vertex
pub mod Erased
pub mod Between
use graph_tool.AdjList.{
  AdjList, EdgeList, in_edges, num_vertices, out_edges, put_row, reindex_edges, row,
}
use graph_tool.Common.{
  Bool, List, [], erase_at, false, get_or, if◌then◌else◌, length, ltb, not, size_sub, suc, true,
  zero, ℕ, ◌&&◌, ◌++◌, ◌==◌, ◌∷◌,
}

-- The inner loops, `for j ... if (es[j].first == v) { free.push_back(es[j].second); es.erase(j); }`.
-- After an erasure `++j` passes over the entry that has moved to place j: `skip` says so.
unfoldable pub kept : Bool → ℕ → EdgeList → EdgeList
kept skip v [] = []
kept skip v ((u, j) ∷ es) =
    let rest = kept (not skip && u == v) v es in if not skip && u == v then rest else (u, j) ∷ rest

-- The indices that such a loop appends to `_free_indexes`.
unfoldable pub freed : Bool → ℕ → EdgeList → List ℕ
freed skip v [] = []
freed skip v ((u, j) ∷ es) =
    let rest = freed (not skip && u == v) v es in if not skip && u == v then j ∷ rest else rest

-- One round of the first loop, for the target t.
unfoldable pub clear_target : ℕ → ℕ → AdjList → AdjList
unfolding kept freed
clear_target v t g = record g {
  in_edges = put_row g.in_edges t (kept false v (row g.in_edges t));
  free_indexes = g.free_indexes ++ freed false v (row g.in_edges t);
}

-- The first loop, over the edges out of v.
unfoldable pub clear_targets : ℕ → EdgeList → AdjList → AdjList
unfolding clear_target
clear_targets v [] g = g
clear_targets v ((t, _) ∷ oes) g = clear_targets v oes (clear_target v t g)

-- One round of the second loop, for the source s.
unfoldable pub clear_source : ℕ → ℕ → AdjList → AdjList
unfolding kept freed
clear_source v s g = record g {
  out_edges = put_row g.out_edges s (kept false v (row g.out_edges s));
  free_indexes = g.free_indexes ++ freed false v (row g.out_edges s);
}

-- The second loop, from i on, on fuel. Its bound is the size of `oes`, the out-list of v, and not
-- that of `ies`.
unfoldable pub clear_sources : ℕ → ℕ → ℕ → AdjList → AdjList
unfolding clear_source
clear_sources zero i v g = g
clear_sources (suc fuel) i v g = elim (ltb i (length (row g.out_edges v))) [
  | true ↦ clear_sources fuel (suc i) v (clear_source v (get_or (row g.in_edges v) i (0, 0)).0 g)
  | false ↦ g
]

-- `g._n_edges -= oes.size(); oes.clear();`
unfoldable pub drop_out : ℕ → AdjList → AdjList
drop_out v g = record g {
  n_edges = size_sub g.n_edges (length (row g.out_edges v));
  out_edges = put_row g.out_edges v [];
}

-- `g._n_edges -= ies.size(); ies.clear();`
unfoldable pub drop_in : ℕ → AdjList → AdjList
drop_in v g = record g {
  n_edges = size_sub g.n_edges (length (row g.in_edges v));
  in_edges = put_row g.in_edges v [];
}

-- The out-list only loses entries, so its size at the start of the second loop bounds the rounds.
unfoldable pub clear_vertex : ℕ → AdjList → AdjList
unfolding clear_targets clear_sources drop_out drop_in
clear_vertex v g =
    let h = drop_out v (clear_targets v (row g.out_edges v) g) in
    drop_in v (clear_sources (suc (length (row h.out_edges v))) 0 v h)

unfoldable pub remove_vertex : ℕ → AdjList → AdjList
unfolding clear_vertex
remove_vertex v g =
    let h = clear_vertex v g in
    record h { out_edges = erase_at h.out_edges v; in_edges = erase_at h.in_edges v }

-- The loop of `ClearEdges` over the m vertices from v on.
unfoldable pub clear_vertices : ℕ → ℕ → AdjList → AdjList
unfolding clear_vertex
clear_vertices zero v g = g
clear_vertices (suc m) v g = clear_vertices m (suc v) (clear_vertex v g)

unfoldable pub clear_edges : AdjList → AdjList
unfolding clear_vertices reindex_edges
clear_edges g = reindex_edges (clear_vertices (num_vertices g) 0 g)

-- The remove_edge(s, t, g) overload, whose loops pass over successors too.
unfoldable pub remove_edges_between : ℕ → ℕ → AdjList → AdjList
unfolding kept freed
remove_edges_between s t g = record g {
  out_edges = put_row g.out_edges s (kept false t (row g.out_edges s));
  in_edges = put_row g.in_edges t (kept false s (row g.in_edges t));
  free_indexes = g.free_indexes ++ freed false t (row g.out_edges s);
  n_edges = size_sub g.n_edges (length (freed false t (row g.out_edges s)));
}
