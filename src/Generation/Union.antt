-- ===== src/Generation/Union.antt =====
-- src/graph/generation/graph_union.hh: a graph is added to another, with a map that says which of its
-- vertices stand for which of the other. An entry of the map, an int32_t,
-- is the number of its 32 bits: a vertex that is stored loses the higher bits, and below 2 ^ 31 an entry
-- is the number that it stands for. The theorems keep to such numbers.
pub mod Vertices
pub mod Edges
pub mod Merged
use graph_tool.AdjList.{AdjList, Edge, add_edge, add_vertex, null_vertex, num_vertices}
use graph_tool.AdjList.Iteration.{all_edges}
use graph_tool.Common.{
  List, [], if◌then◌else◌, leb, store, suc, zero, ℕ, ◌%◌, ◌-◌, ◌==◌, ◌^◌, ◌||◌, ◌∷◌,
}
use graph_tool.GraphInterface.{new}

-- The union, the map of the vertices and the map of the edges.
pub record UnionState : Type 0 where
  pub ug : AdjList
  pub vmap : ℕ → ℕ
  pub emap : ℕ → Edge

-- The conversion of a `size_t` to the type of the entries.
unfoldable pub to_int32 : ℕ → ℕ
to_int32 x = x % 2 ^ 32

-- `vmap[*v] = add_vertex(ug);`
unfoldable pub map_new : ℕ → UnionState → UnionState
unfolding store to_int32
map_new v s =
    let (ug, new) = add_vertex s.ug in record s { ug = ug; vmap = store v (to_int32 new) s.vmap }

-- The body of the loop over the vertices of g, which has n.
unfoldable pub map_vertex : ℕ → ℕ → UnionState → UnionState
unfolding map_new store to_int32
map_vertex n v s =
    if s.vmap v == 0
    then map_new v s
    else let w = s.vmap v - 1 in
      if w == null_vertex || leb n w
      then map_new v s
      else record s { vmap = store v (to_int32 w) s.vmap }

unfoldable pub map_vertices : ℕ → ℕ → ℕ → UnionState → UnionState
unfolding map_vertex
map_vertices n zero v s = s
map_vertices n (suc m) v s = map_vertices n m (suc v) (map_vertex n v s)

-- The body of the loop over the edges of g.
unfoldable pub map_edge : Edge → UnionState → UnionState
unfolding store
map_edge e s =
    let (ug, new) = add_edge (s.vmap e.source) (s.vmap e.target) s.ug in
    record s { ug = ug; emap = store e.idx new s.emap }

unfoldable pub map_edges : List Edge → UnionState → UnionState
unfolding map_edge
map_edges [] s = s
map_edges (e ∷ es) s = map_edges es (map_edge e s)

unfoldable pub graph_union : AdjList → UnionState → UnionState
unfolding map_vertices map_edges all_edges num_vertices
graph_union g s = map_edges (all_edges g) (map_vertices (num_vertices g) (num_vertices g) 0 s)

-- `property_union`, for a property of vertices and for one of edges.
unfoldable pub union_vertex_property {ℓ} :
    {A : Type ℓ} → ℕ → ℕ → (ℕ → ℕ) → (ℕ → A) → (ℕ → A) → ℕ → A
unfolding store
union_vertex_property zero v vmap prop uprop = uprop
union_vertex_property (suc m) v vmap prop uprop =
    union_vertex_property m (suc v) vmap prop (store (vmap v) (prop v) uprop)

unfoldable pub union_edge_property {ℓ} :
    {A : Type ℓ} → List Edge → (ℕ → Edge) → (ℕ → A) → (ℕ → A) → ℕ → A
unfolding store
union_edge_property [] emap prop uprop = uprop
union_edge_property (e ∷ es) emap prop uprop =
    union_edge_property es emap prop (store (emap e.idx).idx (prop e.idx) uprop)
