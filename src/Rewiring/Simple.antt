-- ===== src/Rewiring/Simple.antt =====
-- The checks of src/graph/generation/graph_rewiring.hh on a directed graph, for parallel edges and for
-- self-loops.
use graph_tool.AdjList.{AdjList, EdgeList, make_out_edge, num_edges, num_vertices, remove_edge, row}
use graph_tool.AdjList.Rows.{times-le-vertex_times, vertex_times}
use graph_tool.AdjList.Valid.{pair_count, same_pair}
use graph_tool.Common.{
  Bool, Bool-cases, [], arith, false, inl, inr, length, map, not, refl, true, ℕ, ◌&&◌, ◌+◌, ◌<◌,
  ◌↔◌, ◌∷◌, ◌≡◌, ◌≢◌, ◌≤◌, ◌⊎◌,
}
use graph_tool.Rewiring.{
  Rewired, edge_at, erdos_rewire, has_target, is_adjacent, pair_source, pair_target,
  parallel_check_target, replace_edge, rewire, swap_target, without_pair,
}
use graph_tool.Rewiring.Moves.{rewire-cases, swap_target-other}
use graph_tool.Rewiring.Pair.{first_lt, inserted_lem, second_lt}
use graph_tool.Rewiring.Swap.{IsTracked, edge_at-lt, erdos_step}

-- No two edges have the same source and target.
abbrev pub IsSimple : AdjList → Type 0
IsSimple g = (a b : ℕ) → pair_count a b g ≤ 1

-- No edge leads from a vertex to itself.
abbrev pub HasNoLoops : AdjList → Type 0
HasNoLoops g = (u : ℕ) → pair_count u u g ≡ 0

has_target-false :
    (u v : ℕ) (es : EdgeList)
    → has_target v (map (make_out_edge u) es) ≡ false
    → vertex_times v es ≡ 0
unfolding has_target make_out_edge vertex_times
has_target-false u v [] h = refl
has_target-false u v ((t, i) ∷ es) h = ground (arith, has_target-false u v es)

has_target-true :
    (u v : ℕ) (es : EdgeList)
    → has_target v (map (make_out_edge u) es) ≡ true
    → 0 < vertex_times v es
unfolding has_target make_out_edge vertex_times
has_target-true u v [] h = cc
has_target-true u v ((t, i) ∷ es) h = ground (arith, has_target-true u v es)

-- `is_adjacent` says whether an edge leads from u to v.
pub is_adjacent_lem :
    (u v : ℕ) (g : AdjList)
    → ((is_adjacent u v g ≡ true) ↔ (0 < pair_count u v g))
      × ((is_adjacent u v g ≡ false) ↔ (pair_count u v g ≡ 0))
unfolding is_adjacent
is_adjacent_lem u v g =
    let es = row g.out_edges v in
    ground
      (arith, has_target-false u v (row g.out_edges u), has_target-true u v (row g.out_edges u))

module _ (r : Rewired) (ei f : ℕ) (tr : IsTracked r) (he : ei < length r.edges)
    (hf : f < length r.edges) where
  -- A move that is made has passed the checks.
  rewire-checked :
      (self_loops parallel_edges : Bool)
      → (rewire ei (f, false) self_loops parallel_edges r).1 ≡ true
      → (ei ≢ f)
        × (parallel_edges ≡ false
            → (is_adjacent (edge_at r.edges ei).source (edge_at r.edges f).target r.graph ≡ false)
              × (is_adjacent (edge_at r.edges f).source (edge_at r.edges ei).target r.graph
                  ≡ false))
        × (self_loops ≡ false
            → ((edge_at r.edges ei).source ≢ (edge_at r.edges f).target)
              × ((edge_at r.edges ei).target ≢ (edge_at r.edges f).source))
  unfolding rewire parallel_check_target pair_source pair_target
  rewire-checked self_loops parallel_edges h = (
    λ e. ground arith,
    λ e. (ground arith, ground arith),
    λ e. (λ p. ground arith, λ p. ground arith),
  )

  -- How the swap changes the number of edges between two vertices.
  rewire-pairs :
      ei ≢ f
      → (a b : ℕ)
      → pair_count a b (swap_target ei (f, false) r).graph
          + same_pair a b (edge_at r.edges f).source (edge_at r.edges f).target
          + same_pair a b (edge_at r.edges ei).source (edge_at r.edges ei).target
        ≡ pair_count a b r.graph
          + same_pair a b (edge_at r.edges ei).source (edge_at r.edges f).target
          + same_pair a b (edge_at r.edges f).source (edge_at r.edges ei).target
  unfolding without_pair
  rewire-pairs ne a b =
      let p = first_lt r ei f tr he hf ne in
      let q = second_lt r ei f tr he hf ne in
      let (t, nv, n, outs, ins, size, pairs) =
        inserted_lem r ei f tr he hf ne (edge_at r.edges ei).source (edge_at r.edges f).target
          (edge_at r.edges f).source (edge_at r.edges ei).target p.1 q.2 q.1 p.2 in
      rw (swap_target-other r ei f tr he hf ne false) (pairs a b)

  -- Where the vector holds exactly the edges of a well-formed graph without parallel edges, indices
  -- have room, and both places are in the vector, a move that must not make parallel edges makes
  -- none.
  pub rewire-IsSimple :
      (self_loops : Bool)
      → IsSimple r.graph
      → IsSimple (rewire ei (f, false) self_loops false r).0.graph
  rewire-IsSimple self_loops simple a b = elim (rewire-cases ei (f, false) self_loops false r) [
    | inl refused ↦ rw refused (simple a b)
    | inr made ↦
        let (ne, parallel, loops) = rewire-checked self_loops false (rw made refl) in
        let (free₁, free₂) = parallel refl in
        let e = edge_at r.edges ei in
        let g = edge_at r.edges f in
        rw made (
          ground (
            arith,
            rewire-pairs ne a b,
            simple a b,
            (is_adjacent_lem e.source g.target r.graph).1.0 free₁,
            (is_adjacent_lem g.source e.target r.graph).1.0 free₂,
            pair_of f hf,
            pair_of ei he,
          ))
  ]
    where
      pair_of :
          (i : ℕ)
          → i < length r.edges
          → 0 < pair_count (edge_at r.edges i).source (edge_at r.edges i).target r.graph
      pair_of i h = omega (
        arith,
        (edge_at-lt r i tr h).0,
        times-le-vertex_times (edge_at r.edges i).target (edge_at r.edges i).idx
            (row r.graph.out_edges (edge_at r.edges i).source),
      )

  -- Where the vector holds exactly the edges of a well-formed graph without self-loops, indices
  -- have room, and both places are in the vector, a move that must not make self-loops makes none.
  pub rewire-HasNoLoops :
      (parallel_edges : Bool)
      → HasNoLoops r.graph
      → HasNoLoops (rewire ei (f, false) false parallel_edges r).0.graph
  rewire-HasNoLoops parallel_edges none_yet u =
      elim (rewire-cases ei (f, false) false parallel_edges r) [
        | inl refused ↦ rw refused (none_yet u)
        | inr made ↦
            let (ne, parallel, loops) = rewire-checked false parallel_edges (rw made refl) in
            let (apart₁, apart₂) = loops refl in
            rw made (ground (arith, rewire-pairs ne u u, none_yet u))
      ]

-- An Erdős move is refused, with nothing changed, or replaces the edge.
erdos_cases :
    (ei s t : ℕ) (parallel_edges : Bool) (r : Rewired)
    → (erdos_rewire ei s t parallel_edges r ≡ (r, false))
      ⊎ ((erdos_rewire ei s t parallel_edges r ≡ (
        replace_edge ei s t (record r { graph = remove_edge (edge_at r.edges ei) r.graph }),
        true,
      ))
          × (parallel_edges ≡ false → is_adjacent s t r.graph ≡ false))
erdos_cases ei s t parallel_edges r =
    elim (Bool-cases (not parallel_edges && is_adjacent s t r.graph)) [
      | inl clash ↦ inl (unfold erdos_rewire in rw clash)
      | inr free ↦ inr (unfold erdos_rewire in rw free, λ p. ground arith)
    ]

-- Where the vector holds exactly the edges of a well-formed graph, indices have room, and the place
-- is in the vector, a move of the Erdős strategy to two vertices of the graph, made or refused,
-- keeps all of this, the number of vertices and the number of edges; a move that must not make
-- parallel edges, in a graph without any, makes none.
pub erdos_rewire_lem :
    (ei s t : ℕ) (parallel_edges : Bool) (r : Rewired)
    → IsTracked r
    → ei < length r.edges
    → s < num_vertices r.graph
    → t < num_vertices r.graph
    → IsTracked (erdos_rewire ei s t parallel_edges r).0
      × (num_edges (erdos_rewire ei s t parallel_edges r).0.graph ≡ num_edges r.graph)
      × (num_vertices (erdos_rewire ei s t parallel_edges r).0.graph ≡ num_vertices r.graph)
      × (parallel_edges ≡ false
          → IsSimple r.graph
          → IsSimple (erdos_rewire ei s t parallel_edges r).0.graph)
erdos_rewire_lem ei s t parallel_edges r tr hi hs ht = elim (erdos_cases ei s t parallel_edges r) [
  | inl refused ↦ rw refused (tr, refl, refl, λ _ simple. simple)
  | inr (made, free) ↦
      let (t', n, nv, size, pairs) = erdos_step ei s t r tr hi hs ht in
      rw made (
        t',
        n,
        nv,
        λ p simple a b.
            ground (arith, pairs a b, simple a b, (is_adjacent_lem s t r.graph).1.0 (free p)),
      )
]
