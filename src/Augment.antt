-- ===== src/Augment.antt =====
-- src/graph/flow/graph_augment.hh on a directed graph: the reverse edges that the flow algorithms need,
-- and their removal. The maps on edges are functions from edge indices.
pub mod Reverse
pub mod Rounds
pub mod RoundTrip
use graph_tool.AdjList.{AdjList, Edge, add_edge, num_vertices, out_edges}
use graph_tool.AdjList.Iteration.{all_edges}
use graph_tool.Common.{
  Bool, List, Option, [], if◌then◌else◌, none, not, some, store, suc, zero, ℕ, ◌&&◌, ◌==◌, ◌∷◌,
}
use graph_tool.GraphInterface.{remove_all}

pub record Augmentation : Type 0 where
  pub graph : AdjList
  pub augmented : ℕ → ℕ
  pub capacity : ℕ → ℕ
  pub rmap : ℕ → Edge
  pub res : ℕ → ℕ

-- `for (...) augmented[*e] = 0;`
unfoldable pub clear_marks : List Edge → (ℕ → ℕ) → ℕ → ℕ
unfolding store
clear_marks [] augmented = augmented
clear_marks (e ∷ es) augmented = clear_marks es (store e.idx 0 augmented)

-- The loop over e2: the first edge to v that is not marked.
unfoldable pub find_reverse : ℕ → (ℕ → ℕ) → List Edge → Option Edge
find_reverse v augmented [] = none
find_reverse v augmented (e2 ∷ es) =
    let rest = find_reverse v augmented es in
    if not (augmented e2.idx == 0) then rest else if e2.target == v then some e2 else rest

-- Both edges of a pair are marked and lead to each other.
unfoldable pub pair_up : Edge → Edge → Augmentation → Augmentation
unfolding store
pair_up e e2 a = record a {
  augmented = store e2.idx 2 (store e.idx 2 a.augmented);
  rmap = store e2.idx e (store e.idx e2 a.rmap);
}

unfoldable pub detect : Bool → ℕ → Edge → Augmentation → Augmentation
unfolding find_reverse pair_up
detect detect_reversed v e a =
    if detect_reversed && a.augmented e.idx == 0
    then elim (find_reverse v a.augmented (out_edges e.target a.graph)) [
      | none ↦ a
      | some e2 ↦ pair_up e e2 a
    ]
    else a

-- The loop over the edges out of v: `e_list` and the state.
unfoldable pub collect : Bool → ℕ → List Edge → Augmentation → List Edge × Augmentation
unfolding detect
collect detect_reversed v [] a = ([], a)
collect detect_reversed v (e ∷ es) a =
    let b = detect detect_reversed v e a in
    let (rest, end) = collect detect_reversed v es b in
    (if b.augmented e.idx == 0 then e ∷ rest else rest, end)

-- The body of the loop over `e_list`.
unfoldable pub add_reverse : Edge → Augmentation → Augmentation
unfolding store
add_reverse e a =
    let (h, ae) = add_edge e.target e.source a.graph in
    record {
      graph = h;
      augmented = store ae.idx 1 a.augmented;
      capacity = store ae.idx 0 a.capacity;
      rmap = store ae.idx e (store e.idx ae a.rmap);
      res = store ae.idx 0 a.res;
    }

unfoldable pub add_reverses : List Edge → Augmentation → Augmentation
unfolding add_reverse
add_reverses [] a = a
add_reverses (e ∷ es) a = add_reverses es (add_reverse e a)

-- The loop over m vertices from v on.
unfoldable pub augment_rows : Bool → ℕ → ℕ → Augmentation → Augmentation
unfolding collect add_reverses
augment_rows detect_reversed zero v a = a
augment_rows detect_reversed (suc m) v a =
    let (e_list, b) = collect detect_reversed v (out_edges v a.graph) a in
    augment_rows detect_reversed m (suc v) (add_reverses e_list b)

unfoldable pub augment_graph : Bool → Augmentation → Augmentation
unfolding augment_rows clear_marks all_edges
augment_graph detect_reversed a =
    augment_rows detect_reversed (num_vertices a.graph) 0
      (record a { augmented = clear_marks (all_edges a.graph) a.augmented })

-- `e_list` of `deaugment_graph`.
unfoldable pub augmented_edges : (ℕ → ℕ) → List Edge → List Edge
augmented_edges augmented [] = []
augmented_edges augmented (e ∷ es) =
    let rest = augmented_edges augmented es in if augmented e.idx == 1 then e ∷ rest else rest

unfoldable pub deaugment_rows : (ℕ → ℕ) → ℕ → ℕ → AdjList → AdjList
unfolding augmented_edges
deaugment_rows augmented zero v g = g
deaugment_rows augmented (suc m) v g =
    deaugment_rows augmented m (suc v) (remove_all (augmented_edges augmented (out_edges v g)) g)

unfoldable pub deaugment_graph : (ℕ → ℕ) → AdjList → AdjList
unfolding deaugment_rows
deaugment_graph augmented g = deaugment_rows augmented (num_vertices g) 0 g
