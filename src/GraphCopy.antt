-- ===== src/GraphCopy.antt =====
-- `do_graph_copy` of src/graph/graph_copy.cc, from a directed graph. The value types of the property
-- maps are one type here: `copy_property` finds the type of the source's map among all types, and the
-- target's map, when there is none yet, begins as a map of that type.
pub mod Vertices
pub mod Edges
pub mod Copied
use graph_tool.AdjList.{AdjList, Edge, add_edge, add_vertex, num_vertices}
use graph_tool.AdjList.Iteration.{all_edges}
use graph_tool.Common.{
  List, [], get_or, if◌then◌else◌, leb, length, replicate, set, size_add, store, suc, zero, ℕ, ◌∷◌,
}
use graph_tool.PropertyMap.{resize}

-- `vprops` and `eprops`: the map of the source and that of the target.
abbrev pub Properties {ℓ} : Type ℓ → Type ℓ
Properties A = List ((ℕ → A) × (ℕ → A))

pub record Copying {ℓ} (A : Type ℓ) : Type ℓ where
  pub tgt : AdjList
  pub index_map : List ℕ
  pub vprops : Properties A
  pub eprops : Properties A

unfoldable pub copy_property {ℓ} : {A : Type ℓ} → ℕ → ℕ → (ℕ → A) × (ℕ → A) → (ℕ → A) × (ℕ → A)
unfolding store
copy_property src_d tgt_d (psrc, ptgt) = (psrc, store tgt_d (psrc src_d) ptgt)

-- The loop over the properties.
unfoldable pub copy_properties {ℓ} : {A : Type ℓ} → ℕ → ℕ → Properties A → Properties A
unfolding copy_property
copy_properties src_d tgt_d [] = []
copy_properties src_d tgt_d (p ∷ props) =
    copy_property src_d tgt_d p ∷ copy_properties src_d tgt_d props

-- The body of the loop over the vertices.
unfoldable pub copy_vertex {ℓ} : {A : Type ℓ} → ℕ → Copying A → Copying A
unfolding copy_properties resize size_add
copy_vertex v c =
    let index_map =
      if leb (length c.index_map) v then resize 0 (size_add v 1) c.index_map else c.index_map in
    let (tgt, new_v) = add_vertex c.tgt in
    record c {
      tgt = tgt;
      index_map = set index_map v new_v;
      vprops = copy_properties v new_v c.vprops;
    }

unfoldable pub copy_vertices {ℓ} : {A : Type ℓ} → ℕ → ℕ → Copying A → Copying A
unfolding copy_vertex
copy_vertices zero v c = c
copy_vertices (suc m) v c = copy_vertices m (suc v) (copy_vertex v c)

-- The body of the loop over the edges.
unfoldable pub copy_edge {ℓ} : {A : Type ℓ} → Edge → Copying A → Copying A
unfolding copy_properties
copy_edge e c =
    let s = get_or c.index_map e.source 0 in
    let t = get_or c.index_map e.target 0 in
    let (tgt, new_e) = add_edge s t c.tgt in
    record c { tgt = tgt; eprops = copy_properties e.idx new_e.idx c.eprops }

unfoldable pub copy_edges {ℓ} : {A : Type ℓ} → List Edge → Copying A → Copying A
unfolding copy_edge
copy_edges [] c = c
copy_edges (e ∷ es) c = copy_edges es (copy_edge e c)

unfoldable pub do_graph_copy {ℓ} :
    {A : Type ℓ} → AdjList → AdjList → Properties A → Properties A → Copying A
unfolding copy_vertices copy_edges all_edges num_vertices
do_graph_copy src tgt vprops eprops = copy_edges (all_edges src) (
    copy_vertices (num_vertices src) 0 (record {
      tgt = tgt;
      index_map = replicate (num_vertices src) 0;
      vprops = vprops;
      eprops = eprops;
    }))
