-- ===== src/Augment/RoundTrip.antt =====
-- `augment_graph` and `deaugment_graph` of src/graph/flow/graph_augment.hh undo each other.
use graph_tool.AdjList.{AdjList, Edge, num_edges, num_vertices, out_edges}
use graph_tool.AdjList.Degrees.{degree_totals}
use graph_tool.AdjList.Edges.{occurrences, occurrences-all_edges}
use graph_tool.AdjList.Iteration.{all_edges}
use graph_tool.AdjList.Valid.{IsValid, lt-of_times, multiplicity}
use graph_tool.Augment.{
  Augmentation, augment_graph, augmented_edges, clear_marks, deaugment_graph, deaugment_rows,
}
use graph_tool.Augment.Reverse.{Marked}
use graph_tool.Augment.Rounds.{augment_rows-Marked}
use graph_tool.Common.{
  Bool, Bool-cases, List, [], ap, arith, inl, inr, length, not, refl, size_mod, store, subst, suc,
  sym, zero, ℕ, ◌*◌, ◌+◌, ◌<◌, ◌==◌, ◌∷◌, ◌≡◌,
}
use graph_tool.GraphInterface.{deleted_edges, purge_edges_at, remove_all}
use graph_tool.GraphInterface.Purge.{purge_edges_at_lem}
use native.Mathlib.Decide.{ℕ_discrete}

augmented_edges-deleted :
    (augmented : ℕ → ℕ) (es : List Edge)
    → augmented_edges augmented es ≡ deleted_edges (λ i. not (augmented i == 1)) es
unfolding augmented_edges deleted_edges
augmented_edges-deleted augmented [] = refl
augmented_edges-deleted augmented (e ∷ es) = elim (Bool-cases (augmented e.idx == 1)) [
  | inl one ↦ rw one (ap (λ fs. e ∷ fs) (augmented_edges-deleted augmented es))
  | inr other ↦ rw other (augmented_edges-deleted augmented es)
]

deaugment_rows-purge :
    (augmented : ℕ → ℕ) (m v : ℕ) (g : AdjList)
    → deaugment_rows augmented m v g ≡ purge_edges_at (λ i. not (augmented i == 1)) m v g
unfolding deaugment_rows purge_edges_at
deaugment_rows-purge augmented zero v g = refl
deaugment_rows-purge augmented (suc m) v g =
    rw (augmented_edges-deleted augmented (out_edges v g)) (
      deaugment_rows-purge augmented m (suc v)
        (remove_all (deleted_edges (λ i. not (augmented i == 1)) (out_edges v g)) g))

clear_marks-zero :
    (es : List Edge) (augmented : ℕ → ℕ) (i : ℕ) → augmented i ≡ 0 → clear_marks es augmented i ≡ 0
unfolding clear_marks
clear_marks-zero [] augmented i h = h
clear_marks-zero (f ∷ es) augmented i h =
    clear_marks-zero es (store f.idx 0 augmented) i (unfold store in ground (arith, h))

-- Clearing sets the marks of the listed edges to 0 and no other.
clear_marks_lem :
    (es : List Edge) (augmented : ℕ → ℕ) (e : Edge)
    → 0 < occurrences e es
    → clear_marks es augmented e.idx ≡ 0
unfolding clear_marks occurrences
clear_marks_lem [] augmented e h = absurd (omega (arith, h))
clear_marks_lem (f ∷ es) augmented e h = elim (ℕ_discrete (occurrences e es) 0) [
  | no later ↦ clear_marks_lem es (store f.idx 0 augmented) e (omega (arith, later))
  | yes last ↦
      clear_marks-zero es (store f.idx 0 augmented) e.idx (unfold store in ground (arith, h, last))
]

-- The graph that `augment_graph` starts on, its marks cleared.
start-Marked :
    (a : Augmentation)
    → IsValid a.graph
    → Marked a.graph 0 a.graph (clear_marks (all_edges a.graph) a.augmented)
start-Marked a v = record {
  valid = v;
  vertices = refl;
  last = omega arith;
  number = omega arith;
  unmarked = λ e. elim (ℕ_discrete (multiplicity e a.graph) 0) [
    | yes missing ↦ ground (arith, missing)
    | no there ↦ ground (
      arith,
      clear_marks_lem (all_edges a.graph) a.augmented e
          (omega (arith, there, occurrences-all_edges e a.graph)),
    )
  ];
}

augment_graph-Marked :
    (detect_reversed : Bool) (a : Augmentation)
    → IsValid a.graph
    → a.graph.last_idx + num_edges a.graph < size_mod
    → 2 * num_edges a.graph < size_mod
    → Marked a.graph
        (num_edges a.graph)
        (augment_graph detect_reversed a).graph
        (augment_graph detect_reversed a).augmented
unfolding augment_graph num_edges
augment_graph-Marked detect_reversed a v room_idx room =
    let degrees = (degree_totals a.graph v).0 in
    let n = num_vertices a.graph in
    subst
      (λ k.
        Marked a.graph k (augment_graph detect_reversed a).graph
          (augment_graph detect_reversed a).augmented)
      degrees
      (augment_rows-Marked a.graph v detect_reversed n 0 n
        (record a { augmented = clear_marks (all_edges a.graph) a.augmented }) (omega arith)
        (start-Marked a v) (omega (arith, degrees, room_idx)) (omega (arith, degrees, room)))

-- On a well-formed graph whose indices and edge count leave room for one reverse edge for each edge,
-- with or without the detection of reversed pairs: `deaugment_graph` after `augment_graph`, with the
-- marks that `augment_graph` leaves, gives a well-formed graph that has each edge as often as before.
pub deaugment_graph-augment_graph :
    (detect_reversed : Bool) (a : Augmentation)
    → IsValid a.graph
    → a.graph.last_idx + num_edges a.graph < size_mod
    → 2 * num_edges a.graph < size_mod
    → let b = augment_graph detect_reversed a in
      IsValid (deaugment_graph b.augmented b.graph)
      × ((e : Edge) → multiplicity e (deaugment_graph b.augmented b.graph) ≡ multiplicity e a.graph)
unfolding deaugment_graph num_vertices
deaugment_graph-augment_graph detect_reversed a v room_idx room =
    let b = augment_graph detect_reversed a in
    let m = augment_graph-Marked detect_reversed a v room_idx room in
    let n = length b.graph.out_edges in
    let (w, left) = purge_edges_at_lem (λ i. not (b.augmented i == 1)) n 0 b.graph m.valid in
    let same = deaugment_rows-purge b.augmented n 0 b.graph in
    (
      subst IsValid (sym same) w,
      λ e. ground (
        arith,
        ap (multiplicity e) same,
        left e,
        m.unmarked e,
        lt-of_times e.target e.idx e.source b.graph.out_edges,
      ),
    )
