-- ===== src/Parallel/Loops.antt =====
-- `label_self_loops` of src/graph/stats/graph_parallel.hh, and the removal of the edges it labels.
use graph_tool.AdjList.{AdjList, Edge, num_edges, num_vertices, out_edges, row}
use graph_tool.AdjList.Edges.{occurrences, occurrences-make_out_edge}
use graph_tool.AdjList.OutEdges.{AllOf, From, out_edges-From}
use graph_tool.AdjList.Unique.{same_source, same_target}
use graph_tool.AdjList.Valid.{IsValid, multiplicity, source_lt}
use graph_tool.Common.{
  Bool, Bool-cases, List, [], ap, arith, if◌then◌else◌, inl, inr, int_rounds_lem, length, ltb, suc,
  zero, ℕ, ◌+◌, ◌<◌, ◌==◌, ◌^◌, ◌∷◌, ◌≡◌, ◌≤◌, ◌⊎◌,
}
use graph_tool.Parallel.{
  label_loop_rows, label_loops, label_self_loops, put_label, remove_labeled_edges,
}
use graph_tool.Parallel.Labels.{HoldsLabels, remove_labeled_edges_lem, row_length}
use native.Mathlib.Decide.{ℕ_discrete}

-- An edge is labelled exactly where it is a self-loop.
abbrev LoopLabel : (ℕ → ℕ) → Edge → Type 0
LoopLabel label e = ltb 0 (label e.idx) ≡ (e.target == e.source)

module _ {g : AdjList} (valid : IsValid g) (convert : ℕ → ℕ) (mark_only : Bool)
    (holds : HoldsLabels convert mark_only g) where
  -- A written label is right, and leaves those of the other edges.
  put_LoopLabel :
      (label : ℕ → ℕ) (f e : Edge) (n : ℕ)
      → 0 < multiplicity f g
      → 0 < multiplicity e g
      → ltb 0 (convert n) ≡ (f.target == f.source)
      → LoopLabel label e ⊎ (e.idx ≡ f.idx)
      → LoopLabel (put_label convert f.idx n label) e
  unfolding put_label
  put_LoopLabel label f e n in_f in_e right old = elim (ℕ_discrete f.idx e.idx) [
    | yes h ↦
        ground
          (arith, h, right, same_source valid f e in_f in_e h, same_target valid f e in_f in_e h)
    | no ne ↦ ground (arith, ne, old)
  ]

  -- Of the edges, those in the list get their labels, and right labels stay right.
  label_loops-LoopLabel :
      (v n : ℕ) (es : List Edge) (label : ℕ → ℕ) (e : Edge)
      → 0 < n
      → n + length es ≤ suc (num_edges g)
      → AllOf (From g v) es
      → 0 < multiplicity e g
      → LoopLabel label e ⊎ (0 < occurrences e es)
      → LoopLabel (label_loops convert mark_only v n es label) e
  unfolding label_loops occurrences
  label_loops-LoopLabel v n [] label e pos low all in_e old = ground (arith, old)
  label_loops-LoopLabel v n (f ∷ es) label e pos low all in_e old =
      let now : (k : ℕ)
          → ltb 0 (convert k) ≡ (f.target == f.source)
          → LoopLabel (put_label convert f.idx k label) e ⊎ (0 < occurrences e es) =
        λ k right. elim old [
          | inl h ↦ inl (put_LoopLabel label f e k all.0.1 in_e right (inl h))
          | inr h ↦ elim (ℕ_discrete (occurrences e es) 0) [
            | yes none_left ↦
                inl (
                  put_LoopLabel label f e k all.0.1 in_e right (inr (ground (arith, h, none_left))))
            | no more ↦ inr (omega (arith, more))
          ]
        ] in
      let written : 0 < convert (if mark_only then 1 else n) =
        holds.positive (if mark_only then 1 else n) (ground (arith, pos)) (λ h. ground (arith, h))
          (ground (arith, pos, low)) in
      elim (Bool-cases (f.target == v)) [
        | inl test ↦
            rw (test, label_loops)
              (label_loops-LoopLabel v (suc n) es
                (put_label convert f.idx (if mark_only then 1 else n) label) e (omega arith)
                (omega (arith, low)) all.1 in_e
                (now (if mark_only then 1 else n) (ground (arith, test, all.0.0, written))))
        | inr test ↦
            rw (test, label_loops)
              (label_loops-LoopLabel v n es (put_label convert f.idx 0 label) e pos
                (omega (arith, low)) all.1 in_e
                (now 0 (ground (arith, test, all.0.0, holds.zero_kept))))
      ]

  label_loop_rows-LoopLabel :
      (m v : ℕ) (label : ℕ → ℕ) (e : Edge)
      → 0 < multiplicity e g
      → LoopLabel label e ⊎ ((v ≤ e.source) × (e.source < v + m))
      → LoopLabel (label_loop_rows convert mark_only g m v label) e
  unfolding label_loop_rows out_edges
  label_loop_rows-LoopLabel zero v label e in_e old = ground (arith, old)
  label_loop_rows-LoopLabel (suc m) v label e in_e old =
      let row_done : (LoopLabel label e ⊎ (0 < occurrences e (out_edges v g)))
          → LoopLabel (label_loops convert mark_only v 1 (out_edges v g) label) e =
        label_loops-LoopLabel v 1 (out_edges v g) label e (omega arith)
          (omega (arith, row_length valid v)) (out_edges-From g v) in_e in
      label_loop_rows-LoopLabel m (suc v) (label_loops convert mark_only v 1 (out_edges v g) label)
        e in_e
        (elim old [
          | inl h ↦ inl (row_done (inl h))
          | inr (low, high) ↦ elim (ℕ_discrete v e.source) [
            | yes here ↦ inl (
                row_done (
                  inr (
                    ground (arith, here, in_e, occurrences-make_out_edge e v (row g.out_edges v)))))
            | no later ↦ inr (omega (arith, later), omega arith)
          ]
        ])

-- In a well-formed graph of fewer than 2 ^ 31 vertices, with a map whose value type keeps the labels
-- (0, and 1 with `mark_only` or, without it, those up to the number of edges), whatever the labels
-- were before: `label_self_loops` followed by `remove_labeled_edges` removes exactly the self-loops, and keeps
-- the graph well formed.
pub remove_labeled_edges-label_self_loops :
    (convert : ℕ → ℕ) (mark_only : Bool) (label : ℕ → ℕ) (g : AdjList)
    → HoldsLabels convert mark_only g
    → IsValid g
    → num_vertices g < 2 ^ 31
    → IsValid (remove_labeled_edges (label_self_loops convert mark_only g label) g)
      × ((e : Edge)
          → multiplicity e (remove_labeled_edges (label_self_loops convert mark_only g label) g)
            ≡ (if e.target == e.source then 0 else multiplicity e g))
unfolding label_self_loops num_vertices
remove_labeled_edges-label_self_loops convert mark_only label g holds valid few =
    let (w, left) =
      remove_labeled_edges_lem (label_self_loops convert mark_only g label) g valid few in
    let rounds = int_rounds_lem (length g.out_edges) few in
    (
      w,
      λ e. elim (ℕ_discrete (multiplicity e g) 0) [
        | yes gone ↦ ground (arith, left e, gone)
        | no there ↦ ground (
          arith,
          left e,
          ap (λ m. label_loop_rows convert mark_only g m 0 label e.idx) rounds,
          label_loop_rows-LoopLabel valid convert mark_only holds (length g.out_edges) 0 label e
              (omega (arith, there))
              (inr (omega arith, omega (arith, source_lt valid e (omega (arith, there))))),
        )
      ],
    )
