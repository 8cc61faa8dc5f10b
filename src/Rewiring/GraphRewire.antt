-- ===== src/Rewiring/GraphRewire.antt =====
-- `graph_rewire` and `RandomRewireStrategy` of src/graph/generation/graph_rewiring.hh: the loop over
-- the sweeps. A strategy's move is an argument: `move i n ei` moves edge `ei` in iteration i when n
-- more places are to come. The display of the progress is not part of it.
use graph_tool.AdjList.{AdjList}
use graph_tool.AdjList.Iteration.{all_edges}
use graph_tool.Common.{
  Bool, List, [], false, if◌then◌else◌, length, not, size_add, suc, zero, ℕ, ◌∷◌,
}
use graph_tool.Matching.{iter_swap}
use graph_tool.Rewiring.{Rewired, rewire}

-- The vector of edges, and `pcount`, the number of moves that were refused.
pub record Progress : Type 0 where
  pub rewired : Rewired
  pub pcount : ℕ

abbrev pub Move : Type 0
Move = ℕ → Rewired → Rewired × Bool

-- The places of the edges, from place i on.
unfoldable pub edge_pos : ℕ → ℕ → List ℕ
edge_pos i zero = []
edge_pos i (suc n) = i ∷ edge_pos (suc i) n

-- `if (!success) ++pcount;`
unfoldable pub attempt : Move → ℕ → Progress → Progress
attempt move ei p =
    let (r, success) = move ei p.rewired in
    record { rewired = r; pcount = if not success then size_add p.pcount 1 else p.pcount }

-- One sweep, by a `random_permutation_iterator` over the n places from `_i` to `_end`, which it
-- permutes: the places and the state afterwards.
unfoldable pub sweep : (ℕ → ℕ) → (ℕ → Move) → Bool → ℕ → List ℕ → Progress → List ℕ × Progress
unfolding iter_swap attempt
sweep draw move no_sweep zero xs p = (xs, p)
sweep draw move no_sweep (suc n) [] p = ([], p)
sweep draw move no_sweep (suc n) (x ∷ xs) p =
    let (ei, ys) = iter_swap (draw n) x xs in
    let q = attempt (move n) ei p in
    let (zs, end) = sweep draw move no_sweep n ys q in
    if no_sweep then (ei ∷ ys, q) else (ei ∷ zs, end)

-- The sweeps from iteration i on.
unfoldable pub sweeps : (ℕ → ℕ → ℕ) → (ℕ → ℕ → Move) → Bool → ℕ → ℕ → List ℕ → Progress → Progress
unfolding sweep
sweeps draw move no_sweep i zero xs p = p
sweeps draw move no_sweep i (suc niter) xs p =
    let (ys, q) = sweep (draw i) (move i) no_sweep (length xs) xs p in
    sweeps draw move no_sweep (suc i) niter ys q

unfoldable pub graph_rewire : (ℕ → ℕ → ℕ) → (ℕ → ℕ → Move) → Bool → ℕ → AdjList → Progress
unfolding sweeps edge_pos all_edges
graph_rewire draw move no_sweep niter g =
    sweeps draw move no_sweep 0 niter (edge_pos 0 (length (all_edges g)))
      (record { rewired = record { graph = g; edges = all_edges g }; pcount = 0 })

-- `RandomRewireStrategy` on a directed graph, with the place that `get_target_edge` draws.
unfoldable pub random_move : Bool → Bool → (ℕ → ℕ → ℕ) → ℕ → ℕ → Move
unfolding rewire
random_move self_loops parallel_edges pick i n ei r =
    rewire ei (pick i n, false) self_loops parallel_edges r
