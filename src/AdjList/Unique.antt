-- ===== src/AdjList/Unique.antt =====
-- Edges of a well-formed graph (src/graph/graph_adjacency.hh) and their indices.
use graph_tool.AdjList.{AdjList, Edge, EdgeList, num_vertices, row}
use graph_tool.AdjList.Adding.{add_edge-IsValid, add_edge_lem, added, new_edge}
use graph_tool.AdjList.Rows.{index_times, index_times-nil, times, times-le-index_times}
use graph_tool.AdjList.Valid.{IsValid, index_times-row-le, multiplicity, multiplicity-le-one}
use graph_tool.Common.{
  List, [], arith, size_mod, subst, suc, sum_by, sym, zero, ℕ, ◌+◌, ◌<◌, ◌∷◌, ◌≡◌, ◌≢◌, ◌≤◌,
}
use graph_tool.GraphInterface.{new}
use native.Mathlib.Decide.{ℕ_discrete}

two-index_times :
    (t u i : ℕ) (es : EdgeList) → t ≢ u → times t i es + times u i es ≤ index_times i es
unfolding times index_times
two-index_times t u i [] ne = omega arith
two-index_times t u i ((w, j) ∷ es) ne = ground (arith, ne, two-index_times t u i es ne)

two-sum_by :
    (i s u : ℕ) (rows : List EdgeList)
    → s < u
    → index_times i (row rows s) + index_times i (row rows u) ≤ sum_by (index_times i) rows
two-sum_by i s u [] h = omega (arith, index_times-nil i)
two-sum_by i zero zero (es ∷ rows) h = absurd (omega arith)
two-sum_by i (suc s) zero (es ∷ rows) h = absurd (omega arith)
two-sum_by i zero (suc u) (es ∷ rows) h = omega (arith, index_times-row-le i u rows)
two-sum_by i (suc s) (suc u) (es ∷ rows) h = omega (arith, two-sum_by i s u rows (omega arith))

module _ {g : AdjList} (valid : IsValid g) (e f : Edge) (in_e : 0 < multiplicity e g)
    (in_f : 0 < multiplicity f g) (same_idx : e.idx ≡ f.idx) where
  in_f' : 0 < times f.target e.idx (row g.out_edges f.source)
  in_f' = subst (λ i. 0 < times f.target i (row g.out_edges f.source)) (sym same_idx) in_f

  once : sum_by (index_times e.idx) g.out_edges ≤ 1
  once = ground (arith, valid.indexed e.idx)

  pub same_source : e.source ≡ f.source
  same_source = elim (ℕ_discrete e.source f.source) [
    | yes h ↦ h
    | no ne ↦ absurd (
        ground (
          arith,
          ne,
          once,
          in_f',
          times-le-index_times e.target e.idx (row g.out_edges e.source),
          times-le-index_times f.target e.idx (row g.out_edges f.source),
          two-sum_by e.idx e.source f.source g.out_edges,
          two-sum_by e.idx f.source e.source g.out_edges,
        ))
  ]

  in_f'' : 0 < times f.target e.idx (row g.out_edges e.source)
  in_f'' = subst (λ s. 0 < times f.target e.idx (row g.out_edges s)) (sym same_source) in_f'

  pub same_target : e.target ≡ f.target
  same_target = elim (ℕ_discrete e.target f.target) [
    | yes h ↦ h
    | no ne ↦ absurd (
        omega (
          arith,
          once,
          in_f'',
          two-index_times e.target f.target e.idx (row g.out_edges e.source) ne,
          index_times-row-le e.idx e.source g.out_edges,
        ))
  ]

-- The edge of `add_edge` takes an index that no edge has.
pub fresh_idx :
    (s t : ℕ) (g : AdjList) (v : IsValid g) (in_s : s < num_vertices g) (in_t : t < num_vertices g)
    (room_idx : g.last_idx + 1 < size_mod) (room : g.n_edges + 1 < size_mod) (e : Edge)
    → e.idx ≡ (new_edge s t g).idx
    → multiplicity e g ≡ 0
fresh_idx s t g v in_s in_t room_idx room e same_idx =
    let w = add_edge-IsValid s t g v in_s in_t room_idx room in
    let (new, _, _, _, more) = add_edge_lem s t g v in_s in_t room_idx room in
    let n = new_edge s t g in
    elim (ℕ_discrete (multiplicity e g) 0) [
      | yes h ↦ h
      | no there ↦
          let in_e : 0 < multiplicity e (added s t g) = omega (arith, there, more e) in
          let in_n : 0 < multiplicity n (added s t g) = ground (arith, more n) in
          let from = same_source w e n in_e in_n same_idx in
          let to = same_target w e n in_e in_n same_idx in
          absurd (ground (arith, there, more e, from, to, same_idx, multiplicity-le-one w e))
    ]
