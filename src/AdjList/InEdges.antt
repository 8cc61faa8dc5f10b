-- ===== src/AdjList/InEdges.antt =====
-- The range `in_edges(v, g)` of src/graph/graph_adjacency.hh against the edges of the graph.
use graph_tool.AdjList.{AdjList, Edge, EdgeList, in_edges, make_in_edge, row}
use graph_tool.AdjList.OutEdges.{AllOf}
use graph_tool.AdjList.Rows.{times}
use graph_tool.AdjList.Valid.{IsValid, multiplicity}
use graph_tool.Common.{[], arith, map, refl, subst, sym, ℕ, ◌<◌, ◌∷◌, ◌≡◌, ◌≤◌}
use native.Mathlib.Decide.{ℕ_discrete}

module _ {g : AdjList} (valid : IsValid g) where
  -- An edge into v: it ends at v and is in the graph.
  abbrev pub Into : ℕ → Edge → Type 0
  Into v e = (e.target ≡ v) × (0 < multiplicity e g)

  entries-Into :
      (v : ℕ) (es : EdgeList)
      → ((s i : ℕ) → times s i es ≤ times s i (row g.in_edges v))
      → AllOf (Into v) (map (make_in_edge v) es)
  unfolding make_in_edge times
  entries-Into v [] h = tt
  entries-Into v ((s, i) ∷ es) h = (
    (refl, ground (arith, h s i, valid.mirror s v i)),
    entries-Into v es (λ u j. omega (arith, h u j)),
  )

  pub in_edges-Into : (v : ℕ) → AllOf (Into v) (in_edges v g)
  unfolding in_edges
  in_edges-Into v = entries-Into v (row g.in_edges v) (λ s i. omega arith)

  entries-All :
      (P : Edge → Type 0) (v s i : ℕ) (es : EdgeList)
      → AllOf P (map (make_in_edge v) es)
      → 0 < times s i es
      → P (record { source = s; target = v; idx = i })
  unfolding make_in_edge times
  entries-All P v s i [] all h = absurd (omega arith)
  entries-All P v s i ((u, j) ∷ es) all h = elim (ℕ_discrete s u) [
    | no ne ↦ entries-All P v s i es all.1 (ground (arith, ne))
    | yes es' ↦ elim (ℕ_discrete i j) [
      | no ne ↦ entries-All P v s i es all.1 (ground (arith, ne))
      | yes ei ↦
          subst (λ k. P (record { source = s; target = v; idx = k })) (sym ei)
            (subst (λ w. P (record { source = w; target = v; idx = j })) (sym es') all.0)
    ]
  ]

  pub in_edges-All :
      (P : Edge → Type 0) (e : Edge) → AllOf P (in_edges e.target g) → 0 < multiplicity e g → P e
  unfolding in_edges
  in_edges-All P e all h =
      entries-All P e.target e.source e.idx (row g.in_edges e.target) all
        (omega (arith, h, valid.mirror e.source e.target e.idx))
