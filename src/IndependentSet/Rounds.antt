-- ===== src/IndependentSet/Rounds.antt =====
-- The main loop of src/graph/topology/graph_maximal_vertex_set.cc.
use graph_tool.AdjList.{AdjList}
use graph_tool.AdjList.Valid.{IsValid}
use graph_tool.Common.{Bool, List, count, ℕ, ◌<◌, ◌⊎◌}
use graph_tool.IndependentSet.{VertexSet}
use graph_tool.IndependentSet.Selected.{IsResolved}

module _ (g : AdjList) (valid : IsValid g) (high_deg : Bool) where
  -- A vertex is still to be looked at, or resolved.
  abbrev Accounted : ℕ → List ℕ → VertexSet → Type 0
  Accounted v vlist s = (0 < count v vlist) ⊎ IsResolved g s.mvs v
