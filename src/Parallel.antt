-- ===== src/Parallel.antt =====
-- src/graph/stats/graph_parallel.hh on a directed graph: labels for parallel edges and for
-- self-loops, and the removal of labelled edges. A label map is a function from edge indices; the
-- conversion of a counter to the value type of the map, which graph_parallel.cc leaves to the
-- caller (a byte, a 16-bit number and so on), is the parameter `convert`. Labels are natural
-- numbers, so a conversion that gives a negative one is not modelled. The loops over the vertices,
-- parallel in the source, write the labels of disjoint sets of edges, and are run in the order of
-- the vertices. None of these, an `int`, is `null_vertex()`.
pub mod Labels
pub mod Loops
pub mod First
pub mod Duplicates
pub mod Simplified
use graph_tool.AdjList.{AdjList, Edge, num_vertices, out_edges, remove_edge}
use graph_tool.Common.{
  Bool, List, [], false, if◌then◌else◌, int_rounds, ltb, not, suc, true, zero, ℕ, ◌&&◌, ◌==◌, ◌∷◌,
}

-- `put(map, e, n)`, which converts n to the value type of the map.
unfoldable pub put_label : (ℕ → ℕ) → ℕ → ℕ → (ℕ → ℕ) → ℕ → ℕ
put_label convert i n label j = if i == j then convert n else label j

-- `==` on descriptors.
unfoldable pub edge_eq : Edge → Edge → Bool
edge_eq e f = e.source == f.source && (e.target == f.target && e.idx == f.idx)

-- The inner loop of `label_parallel_edges`, for the edge e1 and the counter n.
unfoldable pub mark_others : (ℕ → ℕ) → Bool → Edge → ℕ → List Edge → (ℕ → ℕ) → ℕ → ℕ
unfolding put_label edge_eq
mark_others convert mark_only e1 n [] label = label
mark_others convert mark_only e1 n (e2 ∷ es) label =
    elim (not (edge_eq e2 e1) && e1.target == e2.target) [
      | true ↦
          mark_others convert mark_only e1 (suc n) es
            (put_label convert e2.idx (if mark_only then 1 else suc n) label)
      | false ↦ mark_others convert mark_only e1 n es label
    ]

-- The body of the loop over e1, among all the edges `es` out of the vertex.
unfoldable pub label_edge : (ℕ → ℕ) → Bool → Bool → List Edge → Edge → (ℕ → ℕ) → ℕ → ℕ
unfolding mark_others
label_edge convert mark_only count_all es e1 label =
    let n = if count_all then 1 else 0 in
    if not (label e1.idx == 0)
    then label
    else mark_others convert mark_only e1 n es (put_label convert e1.idx n label)

unfoldable pub label_row : (ℕ → ℕ) → Bool → Bool → List Edge → List Edge → (ℕ → ℕ) → ℕ → ℕ
unfolding label_edge
label_row convert mark_only count_all es [] label = label
label_row convert mark_only count_all es (e1 ∷ rest) label =
    label_row convert mark_only count_all es rest
      (label_edge convert mark_only count_all es e1 label)

-- The loop over m vertices from v on.
unfoldable pub label_rows : (ℕ → ℕ) → Bool → Bool → AdjList → ℕ → ℕ → (ℕ → ℕ) → ℕ → ℕ
unfolding label_row
label_rows convert mark_only count_all g zero v label = label
label_rows convert mark_only count_all g (suc m) v label =
    label_rows convert mark_only count_all g m (suc v)
      (label_row convert mark_only count_all (out_edges v g) (out_edges v g) label)

unfoldable pub label_parallel_edges : (ℕ → ℕ) → Bool → Bool → AdjList → (ℕ → ℕ) → ℕ → ℕ
unfolding int_rounds label_rows
label_parallel_edges convert mark_only count_all g label =
    label_rows convert mark_only count_all g (int_rounds (num_vertices g)) 0 label

-- The loop over the edges out of v in `label_self_loops`, with the counter n.
unfoldable pub label_loops : (ℕ → ℕ) → Bool → ℕ → ℕ → List Edge → (ℕ → ℕ) → ℕ → ℕ
unfolding put_label
label_loops convert mark_only v n [] label = label
label_loops convert mark_only v n (e ∷ es) label = elim (e.target == v) [
  | true ↦
      label_loops convert mark_only v (suc n) es
        (put_label convert e.idx (if mark_only then 1 else n) label)
  | false ↦ label_loops convert mark_only v n es (put_label convert e.idx 0 label)
]

unfoldable pub label_loop_rows : (ℕ → ℕ) → Bool → AdjList → ℕ → ℕ → (ℕ → ℕ) → ℕ → ℕ
unfolding label_loops
label_loop_rows convert mark_only g zero v label = label
label_loop_rows convert mark_only g (suc m) v label =
    label_loop_rows convert mark_only g m (suc v)
      (label_loops convert mark_only v 1 (out_edges v g) label)

unfoldable pub label_self_loops : (ℕ → ℕ) → Bool → AdjList → (ℕ → ℕ) → ℕ → ℕ
unfolding int_rounds label_loop_rows
label_self_loops convert mark_only g label =
    label_loop_rows convert mark_only g (int_rounds (num_vertices g)) 0 label

-- `r_edges` of `remove_labeled_edges`.
unfoldable pub labelled : (ℕ → ℕ) → List Edge → List Edge
labelled label [] = []
labelled label (e ∷ es) =
    let rest = labelled label es in if ltb 0 (label e.idx) then e ∷ rest else rest

unfoldable pub remove_edges : List Edge → AdjList → AdjList
remove_edges [] g = g
remove_edges (e ∷ es) g = remove_edges es (remove_edge e g)

unfoldable pub remove_rows : (ℕ → ℕ) → ℕ → ℕ → AdjList → AdjList
unfolding labelled remove_edges
remove_rows label zero v g = g
remove_rows label (suc m) v g =
    remove_rows label m (suc v) (remove_edges (labelled label (out_edges v g)) g)

unfoldable pub remove_labeled_edges : (ℕ → ℕ) → AdjList → AdjList
unfolding int_rounds remove_rows
remove_labeled_edges label g = remove_rows label (int_rounds (num_vertices g)) 0 g
