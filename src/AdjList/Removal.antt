-- ===== src/AdjList/Removal.antt =====
-- `remove_edge(e, g)` of src/graph/graph_adjacency.hh against the multiset of edges that a graph
-- holds.
use graph_tool.AdjList.{
  AdjList, Edge, EdgeList, erase_first, in_degree, num_edges, num_vertices, out_degree, put_row,
  remove_edge, row,
}
use graph_tool.AdjList.Adding.{add_edge-IsValid, add_edge_lem, added, new_edge}
use graph_tool.AdjList.Linking.{same_edge}
use graph_tool.AdjList.Rows.{
  index_times, index_times-erase_first, length-erase_first, same, times, times-erase_first,
  vertex_times-erase_first,
}
use graph_tool.AdjList.Valid.{
  IsValid, multiplicity, multiplicity-le-one, n_edges_pos, pair_count, row-put_row, same_pair,
  source_lt, target_lt,
}
use graph_tool.Common.{
  [], ap, arith, count-append, length, length-set, refl, set-get_or, size_mod, size_sub,
  size_sub-one_ne, size_sub_lem, sum_by, sum_by-set, sym, ℕ, ◌++◌, ◌+◌, ◌-◌, ◌<◌, ◌∙◌, ◌∷◌, ◌≡◌,
}

module _ (e : Edge) (g : AdjList) (v : IsValid g) (has : 0 < multiplicity e g) where
  source_row : e.source < length g.out_edges
  source_row = source_lt v e has

  target_row : e.target < length g.in_edges
  target_row = target_lt v e has

  has_in : 0 < times e.source e.idx (row g.in_edges e.target)
  has_in = omega (arith, v.mirror e.source e.target e.idx)

  pub multiplicity-remove_edge :
      (f : Edge) → multiplicity f (remove_edge e g) ≡ multiplicity f g - same_edge e f
  unfolding remove_edge
  multiplicity-remove_edge f = ground (
    arith,
    row-put_row g.out_edges e.source f.source
        (erase_first e.target e.idx (row g.out_edges e.source)) source_row,
    times-erase_first f.target f.idx e.target e.idx (row g.out_edges e.source),
  )

  remove_edge_mirror :
      (a b j : ℕ)
      → times b j (row (remove_edge e g).out_edges a) ≡ times a j (row (remove_edge e g).in_edges b)
  unfolding remove_edge
  remove_edge_mirror a b j = ground (
    arith,
    v.mirror a b j,
    row-put_row g.out_edges e.source a (erase_first e.target e.idx (row g.out_edges e.source))
        source_row,
    row-put_row g.in_edges e.target b (erase_first e.source e.idx (row g.in_edges e.target))
        target_row,
    times-erase_first b j e.target e.idx (row g.out_edges e.source),
    times-erase_first a j e.source e.idx (row g.in_edges e.target),
  )

  remove_edge_counts :
      ((remove_edge e g).n_edges + 1 ≡ g.n_edges)
      × ((remove_edge e g).n_edges ≡ sum_by length (remove_edge e g).out_edges)
  unfolding remove_edge
  remove_edge_counts =
      let pos = n_edges_pos v e has in
      let n = size_sub_lem g.n_edges 1 pos v.bounded in
      let total =
        sum_by-set length g.out_edges e.source
          (erase_first e.target e.idx (row g.out_edges e.source)) [] source_row in
      let less = length-erase_first e.target e.idx (row g.out_edges e.source) has in
      (omega (arith, n), omega (arith, n, total, less, v.counted))

  -- Removing an edge of a well-formed graph by its descriptor keeps the invariant.
  pub remove_edge-IsValid : IsValid (remove_edge e g)
  unfolding remove_edge
  remove_edge-IsValid = record {
    sizes = omega (
      arith,
      v.sizes,
      length-set g.out_edges e.source (erase_first e.target e.idx (row g.out_edges e.source)),
      length-set g.in_edges e.target (erase_first e.source e.idx (row g.in_edges e.target)),
    );
    mirror = remove_edge_mirror;
    counted = remove_edge_counts.1;
    bounded = omega (arith, remove_edge_counts.0, v.bounded);
    indexed = λ j. ground (
      arith,
      v.indexed j,
      sum_by-set (index_times j) g.out_edges e.source
          (erase_first e.target e.idx (row g.out_edges e.source)) [] source_row,
      index_times-erase_first j e.target e.idx (row g.out_edges e.source) has,
      count-append j g.free_indexes (e.idx ∷ []),
    );
  }

  -- Removing an edge of a well-formed graph takes that edge away and no other, lowers the number of
  -- edges by one, and puts its index at the end of the free ones.
  pub remove_edge_lem :
      (num_edges (remove_edge e g) + 1 ≡ num_edges g)
      × (multiplicity e (remove_edge e g) ≡ 0)
      × ((remove_edge e g).free_indexes ≡ g.free_indexes ++ e.idx ∷ [])
      × ((f : Edge) → same_edge e f ≡ 0 → multiplicity f (remove_edge e g) ≡ multiplicity f g)
  unfolding num_edges
  remove_edge_lem = (
    remove_edge_counts.0,
    ground (arith, multiplicity-remove_edge e, multiplicity-le-one v e),
    unfold remove_edge in refl,
    λ f ne. ground (arith, multiplicity-remove_edge f),
  )

  -- The out-degree of the source and the in-degree of the target go down by one.
  pub remove_edge-degrees :
      (u : ℕ)
      → (out_degree u (remove_edge e g) + same e.source u ≡ out_degree u g)
        × (in_degree u (remove_edge e g) + same e.target u ≡ in_degree u g)
  unfolding remove_edge out_degree in_degree
  remove_edge-degrees u = (
    ground (
      arith,
      row-put_row g.out_edges e.source u (erase_first e.target e.idx (row g.out_edges e.source))
          source_row,
      length-erase_first e.target e.idx (row g.out_edges e.source) has,
    ),
    ground (
      arith,
      row-put_row g.in_edges e.target u (erase_first e.source e.idx (row g.in_edges e.target))
          target_row,
      length-erase_first e.source e.idx (row g.in_edges e.target) has_in,
    ),
  )

  pub remove_edge-vertices : num_vertices (remove_edge e g) ≡ num_vertices g
  unfolding remove_edge num_vertices
  remove_edge-vertices =
      length-set g.out_edges e.source (erase_first e.target e.idx (row g.out_edges e.source))

  -- One edge less leads from its source to its target.
  pub remove_edge-pairs :
      (a b : ℕ)
      → pair_count a b (remove_edge e g) + same_pair a b e.source e.target ≡ pair_count a b g
  unfolding remove_edge
  remove_edge-pairs a b = ground (
    arith,
    row-put_row g.out_edges e.source a (erase_first e.target e.idx (row g.out_edges e.source))
        source_row,
    vertex_times-erase_first b e.target e.idx (row g.out_edges e.source) has,
  )

-- In a well-formed graph with room for one more index and edge, adding an edge between two vertices
-- and removing it again keeps the invariant, and leaves every edge as often as it was and the
-- number of edges.
pub remove_edge-add_edge :
    (s t : ℕ) (g : AdjList)
    → IsValid g
    → s < num_vertices g
    → t < num_vertices g
    → g.last_idx + 1 < size_mod
    → g.n_edges + 1 < size_mod
    → IsValid (remove_edge (new_edge s t g) (added s t g))
      × (num_edges (remove_edge (new_edge s t g) (added s t g)) ≡ num_edges g)
      × ((f : Edge)
          → multiplicity f (remove_edge (new_edge s t g) (added s t g)) ≡ multiplicity f g)
remove_edge-add_edge s t g v in_s in_t room_idx room =
    let (fresh, at_s, at_t, n, mult) = add_edge_lem s t g v in_s in_t room_idx room in
    let e = new_edge s t g in
    let h = added s t g in
    let w = add_edge-IsValid s t g v in_s in_t room_idx room in
    let has : 0 < multiplicity e h = ground (arith, mult e) in
    (
      remove_edge-IsValid e h w has,
      omega (arith, n, (remove_edge_lem e h w has).0),
      λ f. omega (arith, multiplicity-remove_edge e h w has f, mult f),
    )

erase_first-missing : (t i : ℕ) (es : EdgeList) → times t i es ≡ 0 → erase_first t i es ≡ es
unfolding times erase_first
erase_first-missing t i [] h = refl
erase_first-missing t i ((u, j) ∷ es) h = ground (arith, erase_first-missing t i es)

-- Removing an edge that a well-formed graph does not have counts it all the same, and breaks the
-- invariant.
pub remove_edge-missing :
    (e : Edge) (g : AdjList) → IsValid g → multiplicity e g ≡ 0 → ¬ IsValid (remove_edge e g)
remove_edge-missing e g v missing w =
    size_sub-one_ne g.n_edges v.bounded
      (number ∙ w.counted ∙ ap (sum_by length) same_rows ∙ sym v.counted)
  where
    number : size_sub g.n_edges 1 ≡ (remove_edge e g).n_edges
    number = unfold remove_edge in refl

    same_rows : (remove_edge e g).out_edges ≡ g.out_edges
    same_rows =
        unfold remove_edge in
        ap (put_row g.out_edges e.source)
          (erase_first-missing e.target e.idx (row g.out_edges e.source) missing)
        ∙ set-get_or g.out_edges e.source []
