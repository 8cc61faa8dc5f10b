-- ===== src/Rewiring/Sweeps.antt =====
-- The loop of `graph_rewire` of src/graph/generation/graph_rewiring.hh with `RandomRewireStrategy`:
-- what a sequence of moves keeps.
use graph_tool.AdjList.{AdjList}
use graph_tool.AdjList.Edges.{occurrences-all_edges}
use graph_tool.AdjList.Iteration.{all_edges}
use graph_tool.AdjList.Valid.{IsValid}
use graph_tool.Common.{Bool, arith, false, length, size_mod, subst, sym, ℕ, ◌+◌, ◌<◌, ◌∙◌, ◌≡◌}
use graph_tool.Rewiring.{Rewired, rewire}
use graph_tool.Rewiring.GraphRewire.{edge_pos, graph_rewire, random_move}
use graph_tool.Rewiring.Loops.{edge_pos-AllBelow, sweeps-keeps}
use graph_tool.Rewiring.Moves.{Kept, Kept-self, rewire_lem}
use graph_tool.Rewiring.Simple.{HasNoLoops, IsSimple, rewire-HasNoLoops, rewire-IsSimple}
use graph_tool.Rewiring.Swap.{IsTracked}

-- What the moves keep, from the start on.
pub record Sound (self_loops parallel_edges : Bool) (start r : Rewired) : Type 0 where
  pub kept : Kept false start r
  pub simple : parallel_edges ≡ false → IsSimple start.graph → IsSimple r.graph
  pub no_loops : self_loops ≡ false → HasNoLoops start.graph → HasNoLoops r.graph

pub Kept-trans : (q r s : Rewired) → Kept false q r → Kept false r s → Kept false q s
Kept-trans q r s (_, a, b, c) (t, a', b', c') = (
  t,
  record {
    vertices = a'.vertices ∙ a.vertices;
    number = a'.number ∙ a.number;
    degrees = λ u. a'.degrees u ∙ a.degrees u;
  },
  λ h u. ((b' h u).0 ∙ (b h u).0, (b' h u).1 ∙ (b h u).1),
  c' ∙ c,
)

pub rewire-Sound :
    (self_loops parallel_edges : Bool) (start r : Rewired) (ei f : ℕ)
    → Sound self_loops parallel_edges start r
    → ei < length start.edges
    → f < length start.edges
    → Sound self_loops parallel_edges start (rewire ei (f, false) self_loops parallel_edges r).0
rewire-Sound self_loops parallel_edges start r ei f sound he hf =
    let (tracked, _, _, size) = sound.kept in
    let he' : ei < length r.edges = omega (arith, size) in
    let hf' : f < length r.edges = omega (arith, size) in
    record {
      kept =
          Kept-trans start r _ sound.kept
            (rewire_lem ei f false self_loops parallel_edges r tracked he' hf').0;
      simple = λ p simple.
          subst (λ b. IsSimple (rewire ei (f, false) self_loops b r).0.graph) (sym p)
            (rewire-IsSimple r ei f tracked he' hf' self_loops (sound.simple p simple));
      no_loops = λ p none_yet.
          subst (λ b. HasNoLoops (rewire ei (f, false) b parallel_edges r).0.graph) (sym p)
            (rewire-HasNoLoops r ei f tracked he' hf' parallel_edges (sound.no_loops p none_yet));
    }

pub start-Sound :
    (self_loops parallel_edges : Bool) (g : AdjList)
    → IsValid g
    → g.last_idx + 1 < size_mod
    → Sound self_loops parallel_edges
        (record { graph = g; edges = all_edges g })
        (record { graph = g; edges = all_edges g })
start-Sound self_loops parallel_edges g valid room =
    let start : Rewired = record { graph = g; edges = all_edges g } in
    let tracked : IsTracked start = record {
      valid = valid;
      listed = λ e. occurrences-all_edges e g;
      room = room;
    } in
    record {
      kept = Kept-self false start tracked;
      simple = λ _ simple. simple;
      no_loops = λ _ none_yet. none_yet;
    }

-- With room for one more index, however many sweeps `graph_rewire` makes of the random moves on a
-- well-formed graph with an edge, and whatever it draws within the bounds: the vector of edges stays
-- in step with a well-formed graph, which has the same numbers of vertices and edges and the same
-- in- and out-degree at every vertex; no parallel edges and no self-loops come up where they are not
-- allowed and there were none.
pub graph_rewire_lem :
    (self_loops parallel_edges no_sweep : Bool) (draw pick : ℕ → ℕ → ℕ) (niter : ℕ) (g : AdjList)
    → IsValid g
    → g.last_idx + 1 < size_mod
    → ((i n : ℕ) → pick i n < length (all_edges g))
    → Sound self_loops parallel_edges
        (record { graph = g; edges = all_edges g })
        (graph_rewire draw (random_move self_loops parallel_edges pick) no_sweep niter g).rewired
unfolding graph_rewire
graph_rewire_lem self_loops parallel_edges no_sweep draw pick niter g valid room within =
    let start : Rewired = record { graph = g; edges = all_edges g } in
    sweeps-keeps (Sound self_loops parallel_edges start) (length (all_edges g))
      (random_move self_loops parallel_edges pick)
      (λ i n ei r sound h.
        unfold random_move in
        rewire-Sound self_loops parallel_edges start r ei (pick i n) sound h (within i n))
      draw no_sweep 0 niter (edge_pos 0 (length (all_edges g)))
      (record { rewired = start; pcount = 0 })
      (edge_pos-AllBelow 0 (length (all_edges g)) (length (all_edges g)) (omega arith))
      (start-Sound self_loops parallel_edges g valid room)
