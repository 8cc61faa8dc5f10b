-- ===== src/IndependentSet/Adjacent.antt =====
-- The adjacent vertices that src/graph/topology/graph_maximal_vertex_set.cc looks at, and what it
-- finds out about them.
use graph_tool.AdjList.{AdjList}
use graph_tool.AdjList.Valid.{IsValid, pair_count}
use graph_tool.Common.{
  Bool, Bool-cases, List, [], arith, count, false, inl, inr, map, refl, subst, sym, true, ℕ, ◌+◌,
  ◌<◌, ◌∷◌, ◌≡◌, ◌≢◌,
}
use graph_tool.IndependentSet.{VertexSet, any_member, scan}
use graph_tool.Undirected.{
  EdgeDescriptor, target, undirected_adjacent_vertices, undirected_out_edges,
}
use graph_tool.Undirected.View.{target_count, target_count-out_edges}
use native.Mathlib.Decide.{ℕ_discrete}

-- How often a vertex is adjacent to v.
abbrev pub adjacent_times : ℕ → ℕ → AdjList → ℕ
adjacent_times a v g = count a (undirected_adjacent_vertices v g)

count-map_target : (a : ℕ) (es : List EdgeDescriptor) → count a (map target es) ≡ target_count a es
unfolding target_count
count-map_target a [] = refl
count-map_target a (e ∷ es) = omega (arith, count-map_target a es)

pub adjacent_times-eq :
    (a v : ℕ) (g : AdjList) → IsValid g → adjacent_times a v g ≡ pair_count v a g + pair_count a v g
unfolding undirected_adjacent_vertices
adjacent_times-eq a v g valid =
    omega (arith, count-map_target a (undirected_out_edges v g), target_count-out_edges v a g valid)

-- A member that the first loop finds.
pub any_member-found :
    (mvs : ℕ → Bool) (adjacent : List ℕ)
    → any_member mvs adjacent ≡ true
    → (a : ℕ) × (mvs a ≡ true) × (0 < count a adjacent)
unfolding any_member
any_member-found mvs [] h = absurd (ground (arith, h))
any_member-found mvs (b ∷ adjacent) h = elim (Bool-cases (mvs b)) [
  | inl here ↦ (b, here, ground arith)
  | inr not_here ↦
      let (a, member, there) = any_member-found mvs adjacent (ground (arith, h, not_here)) in
      (a, member, omega (arith, there))
]

-- A vertex that the scan includes has no adjacent member but perhaps itself.
pub scan-free :
    (high_deg : Bool) (g : AdjList) (v : ℕ) (s : VertexSet) (adjacent : List ℕ) (a : ℕ)
    → scan high_deg g v s adjacent ≡ true
    → a ≢ v
    → 0 < count a adjacent
    → s.mvs a ≡ false
unfolding scan
scan-free high_deg g v s [] a h ne there = absurd (omega arith)
scan-free high_deg g v s (b ∷ adjacent) a h ne there = elim (ℕ_discrete a b) [
  | yes e ↦ subst (λ c. s.mvs c ≡ false) (sym e) (ground (arith, h, subst (λ c. c ≢ v) e ne))
  | no other ↦
      scan-free high_deg g v s adjacent a (ground (arith, h)) ne (ground (arith, there, other))
]
