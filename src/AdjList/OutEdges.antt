-- ===== src/AdjList/OutEdges.antt =====
-- The range `out_edges(v, g)` of src/graph/graph_adjacency.hh against the edges of the graph.
use graph_tool.AdjList.{AdjList, Edge, EdgeList, make_out_edge, out_edges, row}
use graph_tool.AdjList.Rows.{times}
use graph_tool.AdjList.Valid.{multiplicity}
use graph_tool.Common.{
  List, [], arith, get_or, map, refl, subst, suc, sym, zero, ℕ, ◌++◌, ◌<◌, ◌∷◌, ◌≡◌, ◌≤◌,
}
use native.Mathlib.Decide.{ℕ_discrete}

-- Every edge of a list has a property.
abbrev pub AllOf : (Edge → Type 0) → List Edge → Type 0
AllOf P [] = Unit {0}
AllOf P (e ∷ es) = P e × AllOf P es

pub get_or-AllOf :
    (P : Edge → Type 0) (es : List Edge) (i : ℕ) (d : Edge) → AllOf P es → P d → P (get_or es i d)
get_or-AllOf P [] i d all p = p
get_or-AllOf P (e ∷ es) zero d all p = all.0
get_or-AllOf P (e ∷ es) (suc i) d all p = get_or-AllOf P es i d all.1 p

pub append-AllOf :
    (P : Edge → Type 0) (es : List Edge) (e : Edge) → AllOf P es → P e → AllOf P (es ++ e ∷ [])
append-AllOf P [] e all p = (p, tt)
append-AllOf P (f ∷ es) e all p = (all.0, append-AllOf P es e all.1 p)

module _ (g : AdjList) where
  -- An edge out of v: it starts at v and is in the graph.
  abbrev pub From : ℕ → Edge → Type 0
  From v e = (e.source ≡ v) × (0 < multiplicity e g)

  entries-From :
      (v : ℕ) (es : EdgeList)
      → ((t i : ℕ) → times t i es ≤ times t i (row g.out_edges v))
      → AllOf (From v) (map (make_out_edge v) es)
  unfolding make_out_edge times
  entries-From v [] h = tt
  entries-From v ((t, i) ∷ es) h =
      ((refl, ground (arith, h t i)), entries-From v es (λ u j. omega (arith, h u j)))

  pub out_edges-From : (v : ℕ) → AllOf (From v) (out_edges v g)
  unfolding out_edges
  out_edges-From v = entries-From v (row g.out_edges v) (λ t i. omega arith)

  entries-All :
      (P : Edge → Type 0) (v t i : ℕ) (es : EdgeList)
      → AllOf P (map (make_out_edge v) es)
      → 0 < times t i es
      → P (record { source = v; target = t; idx = i })
  unfolding make_out_edge times
  entries-All P v t i [] all h = absurd (omega arith)
  entries-All P v t i ((u, j) ∷ es) all h = elim (ℕ_discrete t u) [
    | no ne ↦ entries-All P v t i es all.1 (ground (arith, ne))
    | yes et ↦ elim (ℕ_discrete i j) [
      | no ne ↦ entries-All P v t i es all.1 (ground (arith, ne))
      | yes ei ↦
          subst (λ k. P (record { source = v; target = t; idx = k })) (sym ei)
            (subst (λ w. P (record { source = v; target = w; idx = j })) (sym et) all.0)
    ]
  ]

  pub out_edges-All :
      (P : Edge → Type 0) (e : Edge) → AllOf P (out_edges e.source g) → 0 < multiplicity e g → P e
  unfolding out_edges
  out_edges-All P e all h = entries-All P e.source e.target e.idx (row g.out_edges e.source) all h
