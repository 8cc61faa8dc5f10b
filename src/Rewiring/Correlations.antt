-- ===== src/Rewiring/Correlations.antt =====
-- `graph_rewire` with `CorrelatedRewireStrategy` of src/graph/generation/graph_rewiring.hh: the degrees
-- at the ends of the edges.
use graph_tool.AdjList.{AdjList}
use graph_tool.AdjList.Iteration.{all_edges}
use graph_tool.AdjList.Valid.{IsValid}
use graph_tool.Common.{
  Bool, [], ap, arith, false, inl, inr, length, refl, size_mod, subst, sym, ℕ, ◌+◌, ◌<◌, ◌∙◌, ◌≡◌,
}
use graph_tool.Rewiring.{Rewired, edge_at, rewire}
use graph_tool.Rewiring.Correlated.{
  EdgesByTarget, correlated_move, degrees_of, edges_by_target, get_target_edge,
}
use graph_tool.Rewiring.Ends.{SameEnds, swap_target-ends}
use graph_tool.Rewiring.GraphRewire.{edge_pos, graph_rewire}
use graph_tool.Rewiring.Loops.{edge_pos-AllBelow, sweeps-keeps}
use graph_tool.Rewiring.Moves.{rewire-cases}
use graph_tool.Rewiring.Sweeps.{Sound, rewire-Sound, start-Sound}
use graph_tool.Rewiring.Targets.{
  Entry, edges_by_target-Entry, edges_by_target-has, get_or-AllEntries, pair_path,
}

module _ (self_loops parallel_edges : Bool) (draw : ℕ → ℕ → ℕ → ℕ) (g : AdjList)
    (within : (i n size : ℕ) → 0 < size → draw i n size < size) where
  abbrev start : Rewired
  start = record { graph = g; edges = all_edges g }

  abbrev table : EdgesByTarget
  table = edges_by_target g 0 (all_edges g) (λ d. [])

  -- The degrees of a vertex before the sweeps.
  abbrev before : ℕ → ℕ × ℕ
  before u = degrees_of u g

  -- What the moves keep, and that the degrees at the ends of every place are as they were.
  record Correlated (r : Rewired) : Type 0 where
    sound : Sound self_loops parallel_edges start r
    ends : (k : ℕ) → SameEnds before (edge_at r.edges k) (edge_at (all_edges g) k)

  degrees_of-Sound :
      (r : Rewired) (u : ℕ)
      → Sound self_loops parallel_edges start r
      → degrees_of u r.graph ≡ before u
  unfolding degrees_of
  degrees_of-Sound r u sound =
      let (_, _, degrees, _) = sound.kept in
      pair_path (degrees_of u r.graph) (before u) (degrees refl u).1 (degrees refl u).0

  -- The entry that is drawn for the edge at the place ei.
  drawn-Entry :
      (r : Rewired) (i n ei : ℕ)
      → Correlated r
      → ei < length (all_edges g)
      → Entry g
          (all_edges g)
          (before (edge_at (all_edges g) ei).target)
          (get_target_edge table (draw i n) ei r)
  unfolding get_target_edge
  drawn-Entry r i n ei c h =
      let d = before (edge_at (all_edges g) ei).target in
      let key : degrees_of (edge_at r.edges ei).target r.graph ≡ d =
        degrees_of-Sound r (edge_at r.edges ei).target c.sound ∙ (c.ends ei).1 in
      let entries =
        edges_by_target-Entry g (all_edges g) (all_edges g) 0 (λ d. []) (omega arith)
          (λ i. ap (edge_at (all_edges g)) (omega arith)) (λ d. tt) d in
      rw (get_target_edge, key)
        (get_or-AllEntries (Entry g (all_edges g) d) (table d) (draw i n (length (table d)))
          (0, false) entries
          (within i n (length (table d))
            (edges_by_target-has g (all_edges g) (all_edges g) 0 ei (λ d. []) h)))

  rewire-ends :
      (r : Rewired) (ei f : ℕ)
      → Correlated r
      → ei < length r.edges
      → f < length r.edges
      → before (edge_at (all_edges g) f).target ≡ before (edge_at (all_edges g) ei).target
      → (k : ℕ)
      → SameEnds before
          (edge_at (rewire ei (f, false) self_loops parallel_edges r).0.edges k)
          (edge_at (all_edges g) k)
  rewire-ends r ei f c he hf alike k =
      elim (rewire-cases ei (f, false) self_loops parallel_edges r) [
        | inl refused ↦ rw refused (c.ends k)
        | inr made ↦
            let moved =
              swap_target-ends before ei f k r c.sound.kept.0 he hf
                ((c.ends f).1 ∙ alike ∙ sym (c.ends ei).1) in
            rw made (moved.0 ∙ (c.ends k).0, moved.1 ∙ (c.ends k).1)
      ]

  correlated_move-Correlated :
      (i n ei : ℕ) (r : Rewired)
      → Correlated r
      → ei < length (all_edges g)
      → Correlated (correlated_move self_loops parallel_edges table draw i n ei r).0
  unfolding correlated_move
  correlated_move-Correlated i n ei r c h =
      let et = get_target_edge table (draw i n) ei r in
      let (low, (off, alike)) = drawn-Entry r i n ei c h in
      let plain : et ≡ (et.0, false) = pair_path et (et.0, false) refl off in
      let (_, _, _, size) = c.sound.kept in
      subst (λ x. Correlated (rewire ei x self_loops parallel_edges r).0) (sym plain)
        (record {
          sound = rewire-Sound self_loops parallel_edges start r ei et.0 c.sound h low;
          ends = rewire-ends r ei et.0 c (omega (arith, h, size)) (omega (arith, low, size)) alike;
        })

  -- However many sweeps `graph_rewire` makes of the correlated moves on a well-formed graph with room
  -- for one more index, and whatever it draws within the bounds: the vector of edges stays in step with
  -- a well-formed graph with the same in- and out-degree at every vertex, without new parallel edges or
  -- self-loops where they are not allowed; and the edge at every place of the vector runs between
  -- vertices of the same in- and out-degrees as the edge that was there at the start.
  pub graph_rewire-correlated :
      (no_sweep : Bool) (order : ℕ → ℕ → ℕ) (niter : ℕ)
      → IsValid g
      → g.last_idx + 1 < size_mod
      → let r =
          (graph_rewire order
            (correlated_move self_loops parallel_edges table draw)
            no_sweep
            niter
            g).rewired in
        Sound self_loops parallel_edges start r
        × ((k : ℕ)
            → (degrees_of (edge_at r.edges k).source r.graph
                ≡ degrees_of (edge_at (all_edges g) k).source g)
              × (degrees_of (edge_at r.edges k).target r.graph
                  ≡ degrees_of (edge_at (all_edges g) k).target g))
  unfolding graph_rewire
  graph_rewire-correlated no_sweep order niter valid room =
      let first : Correlated start = record {
        sound = start-Sound self_loops parallel_edges g valid room;
        ends = λ k. (refl, refl);
      } in
      let c =
        sweeps-keeps Correlated (length (all_edges g))
          (correlated_move self_loops parallel_edges table draw) correlated_move-Correlated order
          no_sweep 0 niter (edge_pos 0 (length (all_edges g)))
          (record { rewired = start; pcount = 0 })
          (edge_pos-AllBelow 0 (length (all_edges g)) (length (all_edges g)) (omega arith)) first in
      let r =
        (graph_rewire order (correlated_move self_loops parallel_edges table draw) no_sweep niter
          g).rewired in
      (
        c.sound,
        λ k. (
          degrees_of-Sound r (edge_at r.edges k).source c.sound ∙ (c.ends k).0,
          degrees_of-Sound r (edge_at r.edges k).target c.sound ∙ (c.ends k).1,
        ),
      )
