-- ===== src/AdjList/Lookup.antt =====
-- `edge(s, t, g)` of src/graph/graph_adjacency.hh.
use graph_tool.AdjList.{AdjList, Edge, EdgeList, edge, find_target, row}
use graph_tool.AdjList.Rows.{times}
use graph_tool.AdjList.Valid.{multiplicity}
use graph_tool.Common.{Option-cases, [], arith, inl, inr, none, refl, some, ℕ, ◌<◌, ◌∷◌, ◌≡◌, ◌⊎◌}

find_target-none : (t i : ℕ) (oes : EdgeList) → find_target t oes ≡ none → times t i oes ≡ 0
unfolding find_target times
find_target-none t i [] h = refl
find_target-none t i ((u, j) ∷ oes) h = ground (arith, find_target-none t i oes)

find_target-some : (t i : ℕ) (oes : EdgeList) → find_target t oes ≡ some i → 0 < times t i oes
unfolding find_target times
find_target-some t i [] h = cc
find_target-some t i ((u, j) ∷ oes) h = ground (arith, find_target-some t i oes)

-- `edge` returns an edge of the graph between the two vertices, and returns none only if the graph
-- has no edge from the one to the other, whatever its index.
pub edge_lem :
    (s t : ℕ) (g : AdjList)
    → ((edge s t g ≡ none) × ((e : Edge) → e.source ≡ s → e.target ≡ t → multiplicity e g ≡ 0))
      ⊎ ((e : Edge) × (edge s t g ≡ some e)
          × (e.source ≡ s)
          × (e.target ≡ t)
          × (0 < multiplicity e g))
unfolding edge
edge_lem s t g = elim (Option-cases (find_target t (row g.out_edges s))) [
  | inl miss ↦ inl (
    rw (miss, edge),
    λ e at_s at_t. ground (arith, find_target-none t e.idx (row g.out_edges s) miss),
  )
  | inr (i, hit) ↦ inr (
    record { source = s; target = t; idx = i },
    rw (hit, edge),
    refl,
    refl,
    find_target-some t i (row g.out_edges s) hit,
  )
]
