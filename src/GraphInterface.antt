-- ===== src/GraphInterface.antt =====
-- src/graph/graph.hh, graph.cc and graph_filtering.cc: the object that owns a graph and its filters.
-- A filter is a property map from edge or vertex indices to `uint8_t`, read through `MaskFilter`
-- (src/graph/graph_filtering.hh).
pub mod Purge
pub mod PurgeVertices
pub mod Kept
pub mod Purged
use graph_tool.AdjList.{AdjList, Edge, empty, num_vertices, out_edges, reindex_edges, remove_edge}
use graph_tool.AdjList.Clear.{clear_edges}
use graph_tool.Common.{
  Bool, List, Option, [], false, if◌then◌else◌, none, not, some, suc, true, zero, ℕ, ◌==◌, ◌∷◌,
}
use mathlib.Core.List.{filter}

pub record GraphInterface : Type 0 where
  pub mg : AdjList
  pub reversed : Bool
  pub directed : Bool
  pub edge_filter_map : ℕ → ℕ
  pub edge_filter_invert : Bool
  pub edge_filter_active : Bool
  pub vertex_filter_map : ℕ → ℕ
  pub vertex_filter_invert : Bool
  pub vertex_filter_active : Bool

-- The constructor: no filter, directed, and an empty graph.
unfoldable pub new : GraphInterface
new = record {
  mg = empty;
  reversed = false;
  directed = true;
  edge_filter_map = λ _. 0;
  edge_filter_invert = false;
  edge_filter_active = false;
  vertex_filter_map = λ _. 0;
  vertex_filter_invert = false;
  vertex_filter_active = false;
}

-- `get(filter, d) ^ invert` as a truth value: x ^ b is not 0 exactly when x is not b.
unfoldable pub mask_filter : (ℕ → ℕ) → Bool → ℕ → Bool
mask_filter property invert d = not (property d == (if invert then 1 else 0))

-- `SetEdgeFilterProperty`: a property of another type, here `none`, switches the filter off.
unfoldable pub set_edge_filter_property : Option (ℕ → ℕ) → Bool → GraphInterface → GraphInterface
set_edge_filter_property none invert gi = record gi { edge_filter_active = false }
set_edge_filter_property (some property) invert gi = record gi {
  edge_filter_map = property;
  edge_filter_invert = invert;
  edge_filter_active = true;
}

unfoldable pub set_vertex_filter_property : Option (ℕ → ℕ) → Bool → GraphInterface → GraphInterface
set_vertex_filter_property none invert gi = record gi { vertex_filter_active = false }
set_vertex_filter_property (some property) invert gi = record gi {
  vertex_filter_map = property;
  vertex_filter_invert = invert;
  vertex_filter_active = true;
}

-- The inner loop of `PurgeEdges`: the edges out of a vertex that the filter masks.
unfoldable pub deleted_edges : (ℕ → Bool) → List Edge → List Edge
deleted_edges filter [] = []
deleted_edges filter (e ∷ es) =
    let rest = deleted_edges filter es in if not (filter e.idx) then e ∷ rest else rest

unfoldable pub remove_all : List Edge → AdjList → AdjList
remove_all [] g = g
remove_all (e ∷ es) g = remove_all es (remove_edge e g)

-- The loop over the m vertices from v on.
unfoldable pub purge_edges_at : (ℕ → Bool) → ℕ → ℕ → AdjList → AdjList
unfolding deleted_edges remove_all
purge_edges_at filter zero v g = g
purge_edges_at filter (suc m) v g =
    purge_edges_at filter m (suc v) (remove_all (deleted_edges filter (out_edges v g)) g)

unfoldable pub purge_edges : GraphInterface → GraphInterface
unfolding purge_edges_at
purge_edges gi = if not gi.edge_filter_active then gi else record gi {
  mg =
      purge_edges_at (mask_filter gi.edge_filter_map gi.edge_filter_invert) (num_vertices gi.mg) 0
        gi.mg;
}

unfoldable pub reindex : GraphInterface → GraphInterface
reindex gi = record gi { mg = reindex_edges gi.mg }

unfoldable pub clear : GraphInterface → GraphInterface
clear gi = record gi { mg = empty }

-- `ClearEdges`
unfoldable pub clear_all_edges : GraphInterface → GraphInterface
clear_all_edges gi = record gi { mg = clear_edges gi.mg }
