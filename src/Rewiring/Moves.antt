-- ===== src/Rewiring/Moves.antt =====
-- The moves of src/graph/generation/graph_rewiring.hh: the graph, its size, and the degrees of its
-- vertices.
use graph_tool.AdjList.{AdjList, degree, in_degree, num_edges, num_vertices, out_degree}
use graph_tool.AdjList.Building.{pairs}
use graph_tool.AdjList.Rows.{same}
use graph_tool.Common.{
  Bool, arith, false, if◌then◌else◌, inl, inr, length, not, refl, true, ℕ, ◌<◌, ◌≡◌, ◌≢◌, ◌⊎◌,
}
use graph_tool.Rewiring.{Rewired, edge_at, replace_edge, rewire, swap_target, without_pair}
use graph_tool.Rewiring.Pair.{first_lt, inserted_lem, second_lt}
use graph_tool.Rewiring.Swap.{IsTracked}
use native.Mathlib.Decide.{ℕ_discrete}

-- The same vertices, as many edges, and the same degree at every vertex.
pub record SameDegrees (g h : AdjList) : Type 0 where
  pub vertices : num_vertices h ≡ num_vertices g
  pub number : num_edges h ≡ num_edges g
  pub degrees : (u : ℕ) → degree u h ≡ degree u g

-- The result of a swap.
abbrev pub Kept : Bool → Rewired → Rewired → Type 0
Kept inverted r r' =
    IsTracked r'
    × SameDegrees r.graph r'.graph
    × (inverted ≡ false
        → (u : ℕ)
        → (out_degree u r'.graph ≡ out_degree u r.graph)
          × (in_degree u r'.graph ≡ in_degree u r.graph))
    × (length r'.edges ≡ length r.edges)

pub Kept-self : (inverted : Bool) (r : Rewired) → IsTracked r → Kept inverted r r
Kept-self inverted r tr =
    (tr, record { vertices = refl; number = refl; degrees = λ u. refl }, λ _ u. (refl, refl), refl)

module _ (r : Rewired) (e f : ℕ) (tr : IsTracked r) (he : e < length r.edges)
    (hf : f < length r.edges) (ne : e ≢ f) where
  pub swap_target-other :
      (inverted : Bool)
      → swap_target e (f, inverted) r ≡ (
          if not inverted
          then replace_edge f (edge_at r.edges f).source (edge_at r.edges e).target (
              replace_edge e
                (edge_at r.edges e).source
                (edge_at r.edges f).target
                (record r { graph = without_pair e f r }))
          else replace_edge f (edge_at r.edges e).target (edge_at r.edges f).target (
              replace_edge e
                (edge_at r.edges e).source
                (edge_at r.edges f).source
                (record r { graph = without_pair e f r })))
  unfolding swap_target
  swap_target-other true = ground arith
  swap_target-other false = ground arith

  swap_target-Kept : (inverted : Bool) → Kept inverted r (swap_target e (f, inverted) r)
  unfolding without_pair degree
  swap_target-Kept false =
      let first = edge_at r.edges e in
      let second = edge_at r.edges f in
      let a = first_lt r e f tr he hf ne in
      let b = second_lt r e f tr he hf ne in
      let (t, nv, n, outs, ins, size, pairs) =
        inserted_lem r e f tr he hf ne first.source second.target second.source first.target a.1 b.2
          b.1 a.2 in
      rw (swap_target-other false) (
        t,
        record { vertices = nv; number = n; degrees = λ u. omega (arith, outs u, ins u) },
        λ _ u. (omega (arith, outs u), omega (arith, ins u)),
        size,
      )
  swap_target-Kept true =
      let first = edge_at r.edges e in
      let second = edge_at r.edges f in
      let a = first_lt r e f tr he hf ne in
      let b = second_lt r e f tr he hf ne in
      let (t, nv, n, outs, ins, size, pairs) =
        inserted_lem r e f tr he hf ne first.source second.source first.target second.target a.1 b.1
          a.2 b.2 in
      rw (swap_target-other true) (
        t,
        record { vertices = nv; number = n; degrees = λ u. omega (arith, outs u, ins u) },
        λ h. cc,
        size,
      )

pub swap_target-same :
    (e f : ℕ) (inverted : Bool) (r : Rewired) → e ≡ f → swap_target e (f, inverted) r ≡ r
unfolding swap_target
swap_target-same e f inverted r same = ground arith

-- Swapping the targets of two edges keeps the vector in step with a well-formed graph, the number of
-- edges and the degree of every vertex; where the target edge is not inverted, the in-degree and the
-- out-degree too.
pub swap_target_lem :
    (e f : ℕ) (inverted : Bool) (r : Rewired)
    → IsTracked r
    → e < length r.edges
    → f < length r.edges
    → Kept inverted r (swap_target e (f, inverted) r)
swap_target_lem e f inverted r tr he hf = elim (ℕ_discrete e f) [
  | yes same ↦ rw (swap_target-same e f inverted r same) (Kept-self inverted r tr)
  | no ne ↦ swap_target-Kept r e f tr he hf ne inverted
]

-- A move is refused, with nothing changed, or swaps.
pub rewire-cases :
    (ei : ℕ) (et : ℕ × Bool) (self_loops parallel_edges : Bool) (r : Rewired)
    → (rewire ei et self_loops parallel_edges r ≡ (r, false))
      ⊎ (rewire ei et self_loops parallel_edges r ≡ (swap_target ei et r, true))
unfolding rewire
rewire-cases ei et self_loops parallel_edges r = ground arith

-- Where the vector holds exactly the edges of a well-formed graph, indices have room, and both
-- places are in the vector, a move, made or refused, keeps all of this, the number of vertices and
-- of edges, the length of the vector and every vertex's degree, and the in- and out-degrees too
-- where the target edge is not inverted; a refused move changes nothing.
pub rewire_lem :
    (ei f : ℕ) (inverted self_loops parallel_edges : Bool) (r : Rewired)
    → IsTracked r
    → ei < length r.edges
    → f < length r.edges
    → Kept inverted r (rewire ei (f, inverted) self_loops parallel_edges r).0
      × ((rewire ei (f, inverted) self_loops parallel_edges r).1 ≡ false
          → (rewire ei (f, inverted) self_loops parallel_edges r).0 ≡ r)
rewire_lem ei f inverted self_loops parallel_edges r tr he hf =
    elim (rewire-cases ei (f, inverted) self_loops parallel_edges r) [
      | inl refused ↦ rw refused (Kept-self inverted r tr, λ _. refl)
      | inr made ↦ rw made (swap_target_lem ei f inverted r tr he hf, λ h. cc)
    ]
