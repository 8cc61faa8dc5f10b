-- ===== src/Rewiring/Correlated.antt =====
-- `CorrelatedRewireStrategy` of src/graph/generation/graph_rewiring.hh, on a directed graph.
use graph_tool.AdjList.{AdjList, Edge, in_degree, out_degree}
use graph_tool.Common.{
  Bool, List, [], false, get_or, if◌then◌else◌, length, suc, ℕ, ◌&&◌, ◌++◌, ◌==◌, ◌∷◌,
}
use graph_tool.Rewiring.{Rewired, edge_at, rewire}
use graph_tool.Rewiring.GraphRewire.{Move}

-- The pair of the in-degree and the out-degree of v, a `deg_t`.
unfoldable pub degrees_of : ℕ → AdjList → ℕ × ℕ
degrees_of v g = (in_degree v g, out_degree v g)

-- `_edges_by_target`
abbrev pub EdgesByTarget : Type 0
EdgesByTarget = ℕ × ℕ → List (ℕ × Bool)

-- `_edges_by_target[tdeg].push_back(make_pair(ei, false));`
unfoldable pub push_place : ℕ × ℕ → ℕ → EdgesByTarget → EdgesByTarget
push_place tdeg ei table d =
    if d.0 == tdeg.0 && d.1 == tdeg.1 then table d ++ (ei, false) ∷ [] else table d

-- The loop of the constructor over the edges es, from the place ei on.
unfoldable pub edges_by_target : AdjList → ℕ → List Edge → EdgesByTarget → EdgesByTarget
unfolding degrees_of push_place
edges_by_target g ei [] table = table
edges_by_target g ei (e ∷ es) table =
    edges_by_target g (suc ei) es (push_place (degrees_of e.target g) ei table)

-- The target edge at the place `draw n` of a list of n places, which the strategy draws.
unfoldable pub get_target_edge : EdgesByTarget → (ℕ → ℕ) → ℕ → Rewired → ℕ × Bool
unfolding degrees_of
get_target_edge table draw ei r =
    let elist = table (degrees_of (edge_at r.edges ei).target r.graph) in
    get_or elist (draw (length elist)) (0, false)

-- A move, with the draw of iteration i where n more places are to come.
unfoldable pub correlated_move : Bool → Bool → EdgesByTarget → (ℕ → ℕ → ℕ → ℕ) → ℕ → ℕ → Move
unfolding get_target_edge
correlated_move self_loops parallel_edges table draw i n ei r =
    rewire ei (get_target_edge table (draw i n) ei r) self_loops parallel_edges r
