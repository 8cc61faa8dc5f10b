-- ===== src/Parallel/Labels.antt =====
-- `remove_labeled_edges` of src/graph/stats/graph_parallel.hh, and what it takes to write a label.
use graph_tool.AdjList.{
  AdjList, Edge, make_out_edge, num_edges, num_vertices, out_edges, remove_edge, row,
}
use graph_tool.AdjList.Edges.{length-map}
use graph_tool.AdjList.Unique.{same_source, same_target}
use graph_tool.AdjList.Valid.{IsValid, lt-of_times, multiplicity}
use graph_tool.Common.{
  Bool, List, [], ap, arith, get_or-le-sum_by, if◌then◌else◌, int_rounds_lem, length, refl, subst,
  suc, sym, true, zero, ℕ, ◌<◌, ◌==◌, ◌^◌, ◌∙◌, ◌∷◌, ◌≡◌, ◌≤◌,
}
use graph_tool.GraphInterface.{deleted_edges, purge_edges_at, remove_all}
use graph_tool.GraphInterface.Purge.{purge_edges_at_lem}
use graph_tool.Parallel.{edge_eq, labelled, remove_edges, remove_labeled_edges, remove_rows}
use native.Mathlib.Decide.{ℕ_discrete}

labelled-deleted :
    (label : ℕ → ℕ) (es : List Edge) → labelled label es ≡ deleted_edges (λ i. label i == 0) es
unfolding labelled deleted_edges
labelled-deleted label [] = refl
labelled-deleted label (e ∷ es) = ground (arith, labelled-deleted label es)

remove_edges-all : (es : List Edge) (g : AdjList) → remove_edges es g ≡ remove_all es g
unfolding remove_edges remove_all
remove_edges-all [] g = refl
remove_edges-all (e ∷ es) g = remove_edges-all es (remove_edge e g)

remove_rows-purge :
    (label : ℕ → ℕ) (m v : ℕ) (g : AdjList)
    → remove_rows label m v g ≡ purge_edges_at (λ i. label i == 0) m v g
unfolding remove_rows purge_edges_at
remove_rows-purge label zero v g = refl
remove_rows-purge label (suc m) v g =
    remove_rows-purge label m (suc v) (remove_edges (labelled label (out_edges v g)) g)
    ∙ ap (purge_edges_at (λ i. label i == 0) m (suc v)) (
        remove_edges-all (labelled label (out_edges v g)) g
        ∙ ap (λ es. remove_all es g) (labelled-deleted label (out_edges v g)))

-- On a well-formed graph of fewer than 2 ^ 31 vertices, `remove_labeled_edges` removes exactly the edges with a label above 0, and
-- keeps the graph well formed.
pub remove_labeled_edges_lem :
    (label : ℕ → ℕ) (g : AdjList)
    → IsValid g
    → num_vertices g < 2 ^ 31
    → IsValid (remove_labeled_edges label g)
      × ((e : Edge)
          → multiplicity e (remove_labeled_edges label g)
            ≡ (if label e.idx == 0 then multiplicity e g else 0))
unfolding remove_labeled_edges num_vertices
remove_labeled_edges_lem label g v few =
    let (w, left) = purge_edges_at_lem (λ i. label i == 0) (length g.out_edges) 0 g v in
    let same_graph =
      ap (λ m. remove_rows label m 0 g) (int_rounds_lem (length g.out_edges) few)
      ∙ remove_rows-purge label (length g.out_edges) 0 g in
    (
      subst IsValid (sym same_graph) w,
      λ e. ground (
        arith,
        ap (multiplicity e) same_graph,
        left e,
        lt-of_times e.target e.idx e.source g.out_edges,
      ),
    )

module _ {g : AdjList} (valid : IsValid g) (e f : Edge) (in_e : 0 < multiplicity e g)
    (in_f : 0 < multiplicity f g) where
  -- Edges of a well-formed graph are equal where their indices are.
  pub edge_eq_lem : edge_eq e f ≡ (e.idx == f.idx)
  unfolding edge_eq
  edge_eq_lem = elim (ℕ_discrete e.idx f.idx) [
    | yes h ↦
        ground (arith, h, same_source valid e f in_e in_f h, same_target valid e f in_e in_f h)
    | no ne ↦ ground (arith, ne)
  ]

-- The value type keeps a written label: 0 stays 0, and each label above 0 that is written in the
-- graph, 1 with `mark_only` and at most the number of edges without, stays above 0.
pub record HoldsLabels (convert : ℕ → ℕ) (mark_only : Bool) (g : AdjList) : Type 0 where
  pub zero_kept : convert 0 ≡ 0
  pub positive : (k : ℕ) → 0 < k → (mark_only ≡ true → k ≡ 1) → k ≤ num_edges g → 0 < convert k

pub row_length : {g : AdjList} → IsValid g → (v : ℕ) → length (out_edges v g) ≤ num_edges g
unfolding out_edges num_edges
row_length {g} valid v = omega (
  arith,
  length-map (make_out_edge v) (row g.out_edges v),
  get_or-le-sum_by length g.out_edges v [] refl,
  valid.counted,
)
