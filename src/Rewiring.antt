-- ===== src/Rewiring.antt =====
-- src/graph/generation/graph_rewiring.hh: the swap of two edges' targets, the checks before it, and
-- the moves of the strategies, on a directed graph. A target edge is a place in the list of edges
-- and whether the edge is taken inverted, which it never is where the graph is directed. What the
-- strategies draw at random is an argument.
pub mod Swap
pub mod Pair
pub mod Moves
pub mod Simple
pub mod GraphRewire
pub mod Loops
pub mod Sweeps
pub mod Correlated
pub mod Targets
pub mod Ends
pub mod Correlations
use graph_tool.AdjList.{AdjList, Edge, add_edge, out_edges, remove_edge}
use graph_tool.Common.{
  Bool, List, [], false, get_or, if◌then◌else◌, not, set, true, ℕ, ◌&&◌, ◌==◌, ◌||◌, ◌∷◌,
}
use graph_tool.Undirected.{source, target}

-- `is_adjacent` of src/graph/graph_util.hh, over the edges out of u.
unfoldable pub has_target : ℕ → List Edge → Bool
has_target v [] = false
has_target v (e ∷ es) = e.target == v || has_target v es

unfoldable pub is_adjacent : ℕ → ℕ → AdjList → Bool
unfolding has_target out_edges
is_adjacent u v g = has_target v (out_edges u g)

-- The graph and the vector of its edges, which both change.
pub record Rewired : Type 0 where
  pub graph : AdjList
  pub edges : List Edge

-- `edges[i]`
abbrev pub no_edge : Edge
no_edge = record { source = 0; target = 0; idx = 0 }

abbrev pub edge_at : List Edge → ℕ → Edge
edge_at edges i = get_or edges i no_edge

-- `source` and `target` of a pair of a place and whether the edge is inverted.
unfoldable pub pair_source : ℕ × Bool → List Edge → ℕ
pair_source (i, inverted) edges =
    if inverted then (edge_at edges i).target else (edge_at edges i).source

unfoldable pub pair_target : ℕ × Bool → List Edge → ℕ
pair_target (i, inverted) edges =
    if inverted then (edge_at edges i).source else (edge_at edges i).target

-- Whether the swap would introduce a parallel edge.
unfoldable pub parallel_check_target : ℕ → ℕ × Bool → Rewired → Bool
unfolding pair_source pair_target
parallel_check_target e te r =
    let s = (edge_at r.edges e).source in
    let t = (edge_at r.edges e).target in
    let nt = pair_target te r.edges in
    let te_s = pair_source te r.edges in is_adjacent s nt r.graph || is_adjacent te_s t r.graph

-- The removal of both edges in `swap_target`.
unfoldable pub without_pair : ℕ → ℕ → Rewired → AdjList
without_pair e f r = remove_edge (edge_at r.edges f) (remove_edge (edge_at r.edges e) r.graph)

-- The insertion of an edge, which takes the place i of the vector.
unfoldable pub replace_edge : ℕ → ℕ → ℕ → Rewired → Rewired
replace_edge i s t r =
    let (g, e) = add_edge s t r.graph in record { graph = g; edges = set r.edges i e }

unfoldable pub swap_target : ℕ → ℕ × Bool → Rewired → Rewired
unfolding without_pair replace_edge pair_source pair_target
swap_target e (f, inverted) r =
    let s_e = (edge_at r.edges e).source in
    let t_e = (edge_at r.edges e).target in
    let s_te = pair_source (f, inverted) r.edges in
    let t_te = pair_target (f, inverted) r.edges in
    let one = replace_edge e s_e t_te (record r { graph = without_pair e f r }) in
    if e == f
    then r
    else if not inverted
    then replace_edge f s_te t_e one
    else replace_edge f t_e s_te one

-- `RewireStrategyBase::operator()` with the target edge that the strategy has drawn; the strategies'
-- own tables (`update_edge`) are not part of it. The second part is the result.
unfoldable pub rewire : ℕ → ℕ × Bool → Bool → Bool → Rewired → Rewired × Bool
rewire ei et self_loops parallel_edges r =
    if not self_loops
      && ((edge_at r.edges ei).source == pair_target et r.edges
          || (edge_at r.edges ei).target == pair_source et r.edges)
    then (r, false)
    else if not parallel_edges && (not (et.0 == ei) && parallel_check_target ei et r)
    then (r, false)
    else if not (ei == et.0)
    then (swap_target ei et r, true)
    else (r, false)

-- `ErdosRewireStrategy::operator()` with the vertices that it has drawn last, which are not equal
-- where self-loops are not allowed.
unfoldable pub erdos_rewire : ℕ → ℕ → ℕ → Bool → Rewired → Rewired × Bool
erdos_rewire ei s t parallel_edges r =
    if not parallel_edges && is_adjacent s t r.graph
    then (r, false)
    else (replace_edge ei s t (record r { graph = remove_edge (edge_at r.edges ei) r.graph }), true)
