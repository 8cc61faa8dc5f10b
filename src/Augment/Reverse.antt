-- ===== src/Augment/Reverse.antt =====
-- One reverse edge of src/graph/flow/graph_augment.hh, and the pairs of edges it detects.
use graph_tool.AdjList.{AdjList, Edge, num_edges, num_vertices}
use graph_tool.AdjList.Adding.{add_edge-IsValid, add_edge-vertices, add_edge_lem, new_edge}
use graph_tool.AdjList.Building.{add_edge-last}
use graph_tool.AdjList.Unique.{fresh_idx}
use graph_tool.AdjList.Valid.{IsValid, multiplicity, source_lt, target_lt}
use graph_tool.Augment.{Augmentation, add_reverse, pair_up}
use graph_tool.Common.{
  ap, arith, if◌then◌else◌, size_mod, store, suc, sym, ℕ, ◌+◌, ◌<◌, ◌==◌, ◌∙◌, ◌≡◌, ◌≤◌,
}
use graph_tool.GraphInterface.{new}
use native.Mathlib.Decide.{ℕ_discrete}

-- A graph with some of its edges marked 1 stands for g, the graph without them; at most k were added.
pub record Marked (g : AdjList) (k : ℕ) (h : AdjList) (augmented : ℕ → ℕ) : Type 0 where
  pub valid : IsValid h
  pub vertices : num_vertices h ≡ num_vertices g
  pub unmarked :
      (e : Edge) → (if augmented e.idx == 1 then 0 else multiplicity e h) ≡ multiplicity e g
  pub last : h.last_idx ≤ g.last_idx + k
  pub number : h.n_edges ≤ g.n_edges + k

module _ (g : AdjList) (k : ℕ) (a : Augmentation) (m : Marked g k a.graph a.augmented) where
  pub pair_up-Marked :
      (e e2 : Edge)
      → a.augmented e.idx ≡ 0
      → a.augmented e2.idx ≡ 0
      → Marked g k (pair_up e e2 a).graph (pair_up e e2 a).augmented
  unfolding pair_up store
  pair_up-Marked e e2 h h2 = record {
    valid = m.valid;
    vertices = m.vertices;
    last = m.last;
    number = m.number;
    unmarked = λ f. elim (ℕ_discrete e2.idx f.idx) [
      | yes i2 ↦ ground (arith, i2, m.unmarked f, ap a.augmented i2, h2)
      | no n2 ↦ elim (ℕ_discrete e.idx f.idx) [
        | yes i ↦ ground (arith, i, n2, m.unmarked f, ap a.augmented i, h)
        | no n ↦ ground (arith, n, n2, m.unmarked f)
      ]
    ];
  }

  pub add_reverse-Marked :
      (e : Edge)
      → 0 < multiplicity e g
      → g.last_idx + k + 1 < size_mod
      → g.n_edges + k + 1 < size_mod
      → IsValid g
      → Marked g (suc k) (add_reverse e a).graph (add_reverse e a).augmented
  unfolding add_reverse store num_vertices num_edges
  add_reverse-Marked e in_e room_idx room valid =
      let s : e.target < num_vertices a.graph =
        omega (arith, target_lt valid e in_e, valid.sizes, m.vertices) in
      let t : e.source < num_vertices a.graph = omega (arith, source_lt valid e in_e, m.vertices) in
      let ri : a.graph.last_idx + 1 < size_mod = omega (arith, m.last, room_idx) in
      let rn : a.graph.n_edges + 1 < size_mod = omega (arith, m.number, room) in
      let n = new_edge e.target e.source a.graph in
      let (new, _, _, number, more) = add_edge_lem e.target e.source a.graph m.valid s t ri rn in
      record {
        valid = add_edge-IsValid e.target e.source a.graph m.valid s t ri rn;
        vertices = add_edge-vertices e.target e.source a.graph m.valid s t ri rn ∙ m.vertices;
        last = omega (arith, add_edge-last e.target e.source a.graph, m.last);
        number = omega (arith, number, m.number);
        unmarked = λ f. elim (ℕ_discrete n.idx f.idx) [
          | yes i ↦ ground (
            arith,
            i,
            m.unmarked f,
            fresh_idx e.target e.source a.graph m.valid s t ri rn f (sym i),
          )
          | no other ↦ ground (arith, other, m.unmarked f, more f)
        ];
      }
