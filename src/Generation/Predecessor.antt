-- ===== src/Generation/Predecessor.antt =====
-- src/graph/generation/graph_predecessor.hh: the graph of the predecessors that a search leaves. A
-- vertex without one has a number that is no vertex, or its own.
pub mod Links
use graph_tool.AdjList.{AdjList, add_vertex, null_vertex, num_vertices}
use graph_tool.AdjList.Adding.{added}
use graph_tool.Common.{count, if◌then◌else◌, leb, not, size_add, store, suc, zero, ℕ, ◌==◌}

-- The first loop, over m vertices from v on: `index_map` and the new graph.
unfoldable pub add_indexed : ℕ → ℕ → ℕ → (ℕ → ℕ) → AdjList → (ℕ → ℕ) × AdjList
unfolding store size_add
add_indexed zero v count index_map pg = (index_map, pg)
add_indexed (suc m) v count index_map pg =
    add_indexed m (suc v) (size_add count 1) (store v count index_map) (add_vertex pg).0

-- The body of the second loop, in a graph of n vertices.
unfoldable pub link_predecessor : ℕ → (ℕ → ℕ) → (ℕ → ℕ) → ℕ → AdjList → AdjList
link_predecessor n pred_map index_map v pg =
    let pred = pred_map v in
    if leb n pred
    then pg
    else if pred == null_vertex
    then pg
    else if not (pred == v)
    then added (index_map pred) (index_map v) pg
    else pg

unfoldable pub link_predecessors : ℕ → (ℕ → ℕ) → (ℕ → ℕ) → ℕ → ℕ → AdjList → AdjList
unfolding link_predecessor
link_predecessors n pred_map index_map zero v pg = pg
link_predecessors n pred_map index_map (suc m) v pg =
    link_predecessors n pred_map index_map m (suc v) (link_predecessor n pred_map index_map v pg)

unfoldable pub get_predecessor_graph : AdjList → (ℕ → ℕ) → (ℕ → ℕ) → AdjList → AdjList
unfolding add_indexed link_predecessors num_vertices
get_predecessor_graph g pred_map index_map pg =
    let n = num_vertices g in
    let (index, more) = add_indexed n 0 0 index_map pg in
    link_predecessors n pred_map index n 0 more
