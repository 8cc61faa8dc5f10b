-- ===== src/Rewiring/Pair.antt =====
-- Two edges of the vector of src/graph/generation/graph_rewiring.hh, taken out of the graph and
-- replaced by two others.
use graph_tool.AdjList.{AdjList, Edge, in_degree, num_edges, num_vertices, out_degree, remove_edge}
use graph_tool.AdjList.Linking.{same_edge}
use graph_tool.AdjList.Removal.{
  multiplicity-remove_edge, remove_edge-IsValid, remove_edge-degrees, remove_edge-pairs,
  remove_edge-vertices, remove_edge_lem,
}
use graph_tool.AdjList.Rows.{same}
use graph_tool.AdjList.Valid.{IsValid, multiplicity, pair_count, same_pair}
use graph_tool.Common.{
  [], ap, arith, length, length-append, refl, ℕ, ◌+◌, ◌<◌, ◌∙◌, ◌∷◌, ◌≡◌, ◌≢◌, ◌≤◌,
}
use graph_tool.Rewiring.{Rewired, edge_at, replace_edge}
use graph_tool.Rewiring.Swap.{IsTracked, edge_at-lt, occurrences-two, replace_edge-Replaced}

module _ (r : Rewired) (e f : ℕ) (tr : IsTracked r) (he : e < length r.edges)
    (hf : f < length r.edges) (ne : e ≢ f) where
  abbrev pub first : Edge
  first = edge_at r.edges e

  abbrev pub second : Edge
  second = edge_at r.edges f

  pub first_lt :
      (0 < multiplicity first r.graph)
      × (first.source < num_vertices r.graph)
      × (first.target < num_vertices r.graph)
  first_lt = edge_at-lt r e tr he

  pub second_lt :
      (0 < multiplicity second r.graph)
      × (second.source < num_vertices r.graph)
      × (second.target < num_vertices r.graph)
  second_lt = edge_at-lt r f tr hf

  abbrev pub once : AdjList
  once = remove_edge first r.graph

  once-IsValid : IsValid once
  once-IsValid = remove_edge-IsValid first r.graph tr.valid first_lt.0

  once_has : 0 < multiplicity second once
  once_has = ground (
    arith,
    multiplicity-remove_edge first r.graph tr.valid first_lt.0 second,
    tr.listed second,
    occurrences-two r.edges e f second he hf ne,
  )

  abbrev pub twice : AdjList
  twice = remove_edge second once

  -- What is left after both removals.
  record Removed : Type 0 where
    valid : IsValid twice
    vertices : num_vertices twice ≡ num_vertices r.graph
    number : twice.n_edges + 2 ≡ r.graph.n_edges
    last : twice.last_idx ≡ r.graph.last_idx
    free : 2 ≤ length twice.free_indexes
    left :
        (x : Edge)
        → multiplicity x twice + same_edge first x + same_edge second x ≡ multiplicity x r.graph
    pairs :
        (a b : ℕ)
        → pair_count a b twice
            + same_pair a b second.source second.target
            + same_pair a b first.source first.target
          ≡ pair_count a b r.graph
    outs :
        (u : ℕ)
        → out_degree u twice + same second.source u + same first.source u ≡ out_degree u r.graph
    ins :
        (u : ℕ)
        → in_degree u twice + same second.target u + same first.target u ≡ in_degree u r.graph

  removed : Removed
  unfolding num_edges
  removed =
      let (n₁, gone₁, free₁, other₁) = remove_edge_lem first r.graph tr.valid first_lt.0 in
      let (n₂, gone₂, free₂, other₂) = remove_edge_lem second once once-IsValid once_has in
      let degrees₁ = remove_edge-degrees first r.graph tr.valid first_lt.0 in
      let degrees₂ = remove_edge-degrees second once once-IsValid once_has in
      record {
        valid = remove_edge-IsValid second once once-IsValid once_has;
        vertices =
            remove_edge-vertices second once once-IsValid once_has
            ∙ remove_edge-vertices first r.graph tr.valid first_lt.0;
        number = omega (arith, n₁, n₂);
        last = unfold remove_edge in refl;
        free = omega (
          arith,
          ap length free₁,
          ap length free₂,
          length-append r.graph.free_indexes (first.idx ∷ []),
          length-append once.free_indexes (second.idx ∷ []),
        );
        left = λ x. omega (
          arith,
          multiplicity-remove_edge first r.graph tr.valid first_lt.0 x,
          multiplicity-remove_edge second once once-IsValid once_has x,
          tr.listed x,
          occurrences-two r.edges e f x he hf ne,
        );
        pairs = λ a b. omega (
          arith,
          remove_edge-pairs first r.graph tr.valid first_lt.0 a b,
          remove_edge-pairs second once once-IsValid once_has a b,
        );
        outs = λ u. omega (arith, (degrees₁ u).0, (degrees₂ u).0);
        ins = λ u. omega (arith, (degrees₁ u).1, (degrees₂ u).1);
      }

  -- The two insertions, of edges from a to b in place e and from c to d in place f.
  abbrev pub inserted : ℕ → ℕ → ℕ → ℕ → Rewired
  inserted a b c d = replace_edge f c d (replace_edge e a b (record r { graph = twice }))

  pub inserted_lem :
      (a b c d : ℕ)
      → a < num_vertices r.graph
      → b < num_vertices r.graph
      → c < num_vertices r.graph
      → d < num_vertices r.graph
      → IsTracked (inserted a b c d)
        × (num_vertices (inserted a b c d).graph ≡ num_vertices r.graph)
        × (num_edges (inserted a b c d).graph ≡ num_edges r.graph)
        × ((u : ℕ)
            → out_degree u (inserted a b c d).graph + same second.source u + same first.source u
              ≡ out_degree u r.graph + same a u + same c u)
        × ((u : ℕ)
            → in_degree u (inserted a b c d).graph + same second.target u + same first.target u
              ≡ in_degree u r.graph + same b u + same d u)
        × (length (inserted a b c d).edges ≡ length r.edges)
        × ((x y : ℕ)
            → pair_count x y (inserted a b c d).graph
                + same_pair x y second.source second.target
                + same_pair x y first.source first.target
              ≡ pair_count x y r.graph + same_pair x y a b + same_pair x y c d)
  unfolding num_edges
  inserted_lem a b c d ha hb hc hd =
      let w = removed in
      let one =
        replace_edge-Replaced e a b (record r { graph = twice }) w.valid (omega (arith, w.vertices))
          (omega (arith, w.vertices)) (omega (arith, w.last, tr.room))
          (omega (arith, w.number, tr.valid.bounded)) (omega (arith, w.free)) he in
      let r₁ = replace_edge e a b (record r { graph = twice }) in
      let two =
        replace_edge-Replaced f c d r₁ one.valid (omega (arith, one.vertices, w.vertices))
          (omega (arith, one.vertices, w.vertices)) (omega (arith, one.last, w.last, tr.room))
          (omega (arith, one.number, w.number, tr.valid.bounded)) (omega (arith, one.free, w.free))
          (omega (arith, one.size)) in
      (
        record {
          valid = two.valid;
          listed = λ x. omega (
            arith,
            one.balance x,
            two.balance x,
            ap (λ y. same_edge y x) (one.others f ne),
            w.left x,
            tr.listed x,
          );
          room = omega (arith, two.last, one.last, w.last, tr.room);
        },
        omega (arith, two.vertices, one.vertices, w.vertices),
        omega (arith, two.number, one.number, w.number),
        λ u. omega (arith, two.outs u, one.outs u, w.outs u),
        λ u. omega (arith, two.ins u, one.ins u, w.ins u),
        omega (arith, two.size, one.size),
        λ x y. omega (arith, two.pairs x y, one.pairs x y, w.pairs x y),
      )
