-- ===== src/Subgraph/Check.antt =====
-- What `check_adjacency` of src/graph/topology/graph_subgraph_isomorphism.hh tests.
use graph_tool.AdjList.{AdjList, Edge, in_edges, out_edges}
use graph_tool.AdjList.InEdges.{Into, in_edges-All, in_edges-Into}
use graph_tool.AdjList.OutEdges.{AllOf, From, out_edges-All, out_edges-From}
use graph_tool.AdjList.Valid.{IsValid, multiplicity}
use graph_tool.Common.{
  Bool, Bool-cases, List, [], arith, false, get_or, inl, inr, true, ℕ, ◌<◌, ◌∷◌, ◌≡◌,
}
use graph_tool.Subgraph.{
  Matrix, candidates, check_adjacency, check_edges, do_check, edges_at, find_adjacent, get_vertex,
  member,
}

module _ (edge_labelling : Edge → Edge → Bool) (sub g : AdjList) (vlist vindex : List ℕ) where
  -- The edge e2 can stand for e1: the candidates of the other end of e1 have that of e2.
  abbrev pub Matches : Bool → Matrix → Edge → Edge → Type 0
  Matches is_out m e1 e2 =
      (member (get_or vindex (get_vertex is_out e2) 0) (candidates m (get_vertex is_out e1)) ≡ true)
      × (edge_labelling e1 e2 ≡ true)

  find_adjacent-found :
      (P : Edge → Type 0) (is_out : Bool) (m : Matrix) (e1 : Edge) (es : List Edge)
      → AllOf P es
      → find_adjacent edge_labelling sub g vlist vindex is_out m e1 es ≡ true
      → (e2 : Edge) × (P e2 × Matches is_out m e1 e2)
  unfolding find_adjacent
  find_adjacent-found P is_out m e1 [] all h = absurd (ground (arith, h))
  find_adjacent-found P is_out m e1 (e2 ∷ es) all h =
      let rest = find_adjacent-found P is_out m e1 es all.1 in
      elim (Bool-cases
        (member (get_or vindex (get_vertex is_out e2) 0) (candidates m (get_vertex is_out e1)))) [
          | inr out ↦ rest (ground (arith, h, out))
          | inl within ↦ elim (Bool-cases (edge_labelling e1 e2)) [
            | inr other ↦ rest (ground (arith, h, other))
            | inl alike ↦ (e2, (all.0, (within, alike)))
          ]
        ]

  check_edges-all :
      (is_out : Bool) (m : Matrix) (edges2 es : List Edge)
      → check_edges edge_labelling sub g vlist vindex is_out m edges2 es ≡ true
      → AllOf (λ e1. find_adjacent edge_labelling sub g vlist vindex is_out m e1 edges2 ≡ true) es
  unfolding check_edges
  check_edges-all is_out m edges2 [] h = tt
  check_edges-all is_out m edges2 (e1 ∷ es) h =
      elim (Bool-cases (find_adjacent edge_labelling sub g vlist vindex is_out m e1 edges2)) [
        | inr missed ↦ absurd (ground (arith, h, missed))
        | inl found ↦ (found, check_edges-all is_out m edges2 es (ground (arith, h, found)))
      ]

  module _ (valid_sub : IsValid sub) (valid : IsValid g) (k l : ℕ) (m : Matrix)
      (checked : check_adjacency edge_labelling sub g vlist vindex k l m ≡ true) where
    -- For an edge of `sub` out of k there is one of g out of l.
    pub check_out :
        (e1 : Edge)
        → 0 < multiplicity e1 sub
        → e1.source ≡ k
        → (e2 : Edge) × (From g l e2 × Matches true m e1 e2)
    unfolding check_adjacency do_check edges_at
    check_out e1 there at_k =
        let out : check_edges edge_labelling sub g vlist vindex true m (out_edges l g)
              (out_edges k sub)
            ≡ true =
          ground (arith, checked) in
        find_adjacent-found (From g l) true m e1 (out_edges l g) (out_edges-From g l) (
          out_edges-All sub
            (λ e. find_adjacent edge_labelling sub g vlist vindex true m e (out_edges l g) ≡ true)
            e1 (rw at_k (check_edges-all true m (out_edges l g) (out_edges k sub) out)) there)

    -- For an edge of `sub` into k there is one of g into l.
    pub check_in :
        (e1 : Edge)
        → 0 < multiplicity e1 sub
        → e1.target ≡ k
        → (e2 : Edge) × (Into valid l e2 × Matches false m e1 e2)
    unfolding check_adjacency do_check edges_at
    check_in e1 there at_k =
        let into : check_edges edge_labelling sub g vlist vindex false m (in_edges l g)
              (in_edges k sub)
            ≡ true =
          ground (arith, checked) in
        find_adjacent-found (Into valid l) false m e1 (in_edges l g) (in_edges-Into valid l) (
          in_edges-All valid_sub
            (λ e. find_adjacent edge_labelling sub g vlist vindex false m e (in_edges l g) ≡ true)
            e1 (rw at_k (check_edges-all false m (in_edges l g) (in_edges k sub) into)) there)
