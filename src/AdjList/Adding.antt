-- ===== src/AdjList/Adding.antt =====
-- `add_vertex` and `add_edge` of src/graph/graph_adjacency.hh against the multiset of
-- edges that a graph holds.
use graph_tool.AdjList.{
  AdjList, Edge, add_edge, add_vertex, in_degree, num_edges, num_vertices, out_degree, row,
  take_index,
}
use graph_tool.AdjList.Linking.{
  Takes, link-counted, link-mirror, link-multiplicity, link-uses, same_edge, take_index-Takes,
}
use graph_tool.AdjList.Rows.{
  index_times, index_times-nil, same, times, times-le-index_times, vertex_times,
  vertex_times-append_one,
}
use graph_tool.AdjList.Valid.{
  IsValid, index_times-row-le, multiplicity, pair_count, row-put_row, same_pair,
}
use graph_tool.Common.{
  List, [], ap, arith, get_or-append_default, length, length-append, length-set, refl, size_mod,
  sum_by, sum_by-append, sym, ℕ, ◌++◌, ◌+◌, ◌<◌, ◌∙◌, ◌∷◌, ◌≡◌,
}

-- The graph after `add_edge`, and the descriptor that it returns.
abbrev pub added : ℕ → ℕ → AdjList → AdjList
added s t g = (add_edge s t g).0

abbrev pub new_edge : ℕ → ℕ → AdjList → Edge
new_edge s t g = (add_edge s t g).1

-- Adding a vertex to a well-formed graph keeps the invariant and every edge, and returns the number
-- of the new vertex, which is one more than there were.
pub add_vertex-IsValid :
    (g : AdjList)
    → IsValid g
    → IsValid (add_vertex g).0
      × ((add_vertex g).1 ≡ num_vertices g)
      × (num_vertices (add_vertex g).0 ≡ num_vertices g + 1)
      × ((e : Edge) → multiplicity e (add_vertex g).0 ≡ multiplicity e g)
unfolding add_vertex num_vertices
add_vertex-IsValid g v = (
  record {
    sizes =
        omega
          (arith, sizes, length-append g.out_edges ([] ∷ []), length-append g.in_edges ([] ∷ []));
    mirror = λ s t i.
        rw (get_or-append_default g.out_edges s [], get_or-append_default g.in_edges t [])
          (mirror s t i);
    counted = omega (arith, counted, sum_by-append length g.out_edges ([] ∷ []));
    bounded = bounded;
    indexed = λ i.
        ground (
          arith,
          indexed i,
          index_times-nil i,
          sum_by-append (index_times i) g.out_edges ([] ∷ []),
        );
  },
  refl,
  omega (arith, length-append g.out_edges ([] ∷ [])),
  λ e. rw (get_or-append_default g.out_edges e.source []),
)
  where
    open v use {sizes, mirror, counted, bounded, indexed}

module _ (s t : ℕ) (g : AdjList) (v : IsValid g) (in_s : s < num_vertices g)
    (in_t : t < num_vertices g) (room_idx : g.last_idx + 1 < size_mod)
    (room : g.n_edges + 1 < size_mod) where
  abbrev taken : ℕ × AdjList
  taken = take_index g.free_indexes g

  takes : Takes g taken.0 taken.1
  takes = take_index-Takes g v room_idx g.free_indexes refl

  source_in : s < length taken.1.out_edges
  unfolding num_vertices
  source_in = omega (arith, ap length takes.outgoing)

  target_in : t < length taken.1.in_edges
  unfolding num_vertices
  target_in = omega (arith, v.sizes, ap length takes.incoming)

  taken_mirror :
      (a b j : ℕ) → times b j (row taken.1.out_edges a) ≡ times a j (row taken.1.in_edges b)
  taken_mirror a b j =
      ap (λ r. times b j (row r a)) takes.outgoing
      ∙ v.mirror a b j
      ∙ sym (ap (λ r. times a j (row r b)) takes.incoming)

  add_edge_counts :
      ((added s t g).n_edges ≡ g.n_edges + 1)
      × ((added s t g).n_edges ≡ sum_by length (added s t g).out_edges)
  unfolding add_edge
  add_edge_counts =
      let before = takes.number ∙ v.counted ∙ sym (ap (sum_by length) takes.outgoing) in
      let (n, total) =
        link-counted s t taken.0 taken.1 source_in target_in before (omega (arith, takes.number)) in
      (omega (arith, n, takes.number), total)

  -- Between two vertices of a well-formed graph, with room for one more index and edge, `add_edge`
  -- keeps the invariant.
  pub add_edge-IsValid : IsValid (added s t g)
  unfolding add_edge
  add_edge-IsValid = record {
    sizes = omega (
      arith,
      v.sizes,
      ap length takes.outgoing,
      ap length takes.incoming,
      length-set taken.1.out_edges s (row taken.1.out_edges s ++ (t, taken.0) ∷ []),
      length-set taken.1.in_edges t (row taken.1.in_edges t ++ (s, taken.0) ∷ []),
    );
    mirror = link-mirror s t taken.0 taken.1 source_in target_in taken_mirror;
    counted = add_edge_counts.1;
    bounded = omega (arith, add_edge_counts.0);
    indexed = λ j. link-uses s t taken.0 taken.1 source_in target_in j ∙ takes.uses_left j;
  }

  -- Between two vertices of a well-formed graph, with room for one more index and edge, the edge of
  -- `add_edge` is new, its ends are those asked for, and the graph has each edge as often as before
  -- but the new one, once more; the number of edges goes up by one.
  pub add_edge_lem :
      (multiplicity (new_edge s t g) g ≡ 0)
      × ((new_edge s t g).source ≡ s)
      × ((new_edge s t g).target ≡ t)
      × (num_edges (added s t g) ≡ num_edges g + 1)
      × ((e : Edge)
          → multiplicity e (added s t g) ≡ multiplicity e g + same_edge (new_edge s t g) e)
  unfolding add_edge num_edges
  add_edge_lem = (
    ground (
      arith,
      takes.uses_left taken.0,
      times-le-index_times t taken.0 (row g.out_edges s),
      index_times-row-le taken.0 s g.out_edges,
      ap (sum_by (index_times taken.0)) takes.outgoing,
    ),
    refl,
    refl,
    add_edge_counts.0,
    λ e.
        link-multiplicity s t taken.0 taken.1 source_in target_in e
        ∙ ap (λ r. times e.target e.idx (row r e.source) + same_edge (new_edge s t g) e)
            takes.outgoing,
  )

  -- The out-degree of the source and the in-degree of the target go up by one.
  pub add_edge-degrees :
      (u : ℕ)
      → (out_degree u (added s t g) ≡ out_degree u g + same s u)
        × (in_degree u (added s t g) ≡ in_degree u g + same t u)
  unfolding add_edge out_degree in_degree
  add_edge-degrees u = (
    ground (
      arith,
      row-put_row taken.1.out_edges s u (row taken.1.out_edges s ++ (t, taken.0) ∷ []) source_in,
      length-append (row taken.1.out_edges s) ((t, taken.0) ∷ []),
      ap (λ r. length (row r u)) takes.outgoing,
    ),
    ground (
      arith,
      row-put_row taken.1.in_edges t u (row taken.1.in_edges t ++ (s, taken.0) ∷ []) target_in,
      length-append (row taken.1.in_edges t) ((s, taken.0) ∷ []),
      ap (λ r. length (row r u)) takes.incoming,
    ),
  )

  pub add_edge-vertices : num_vertices (added s t g) ≡ num_vertices g
  unfolding add_edge num_vertices
  add_edge-vertices = omega (
    arith,
    ap length takes.outgoing,
    length-set taken.1.out_edges s (row taken.1.out_edges s ++ (t, taken.0) ∷ []),
  )

  -- With a free index at hand `_last_idx` stays, and one free index is used up.
  pub add_edge-reuses :
      0 < length g.free_indexes
      → ((added s t g).last_idx ≡ g.last_idx)
        × (length (added s t g).free_indexes + 1 ≡ length g.free_indexes)
  unfolding add_edge
  add_edge-reuses h = by_free g.free_indexes h
    where
      by_free :
          (free : List ℕ)
          → 0 < length free
          → ((take_index free g).1.last_idx ≡ g.last_idx)
            × (length (take_index free g).1.free_indexes + 1 ≡ length free)
      by_free [] h = absurd (omega arith)
      by_free (i ∷ free) h = unfold take_index in omega arith

  -- One edge more leads from s to t.
  pub add_edge-pairs :
      (a b : ℕ) → pair_count a b (added s t g) ≡ pair_count a b g + same_pair a b s t
  unfolding add_edge
  add_edge-pairs a b = ground (
    arith,
    row-put_row taken.1.out_edges s a (row taken.1.out_edges s ++ (t, taken.0) ∷ []) source_in,
    vertex_times-append_one b t taken.0 (row taken.1.out_edges s),
    ap (λ r. vertex_times b (row r a)) takes.outgoing,
  )
