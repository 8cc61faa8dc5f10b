-- ===== src/Reciprocity.antt =====
-- `get_reciprocity` of src/graph/topology/graph_reciprocity.cc on a directed graph. Its parallel loop
-- adds up the counts of the vertices, and is run in their order; the quotient of the counts as doubles
-- is an argument.
pub mod Counts
use graph_tool.AdjList.{AdjList, Edge, adjacent_vertices, null_vertex, num_vertices, out_edges}
use graph_tool.Common.{
  Bool, List, [], false, if◌then◌else◌, int_rounds, size_add, suc, true, zero, ℕ, ◌==◌, ◌∷◌,
}

-- The loop over the vertices next to the target: whether one is v.
unfoldable pub leads_back : ℕ → List ℕ → Bool
leads_back v [] = false
leads_back v (a ∷ us) = let rest = leads_back v us in if a == v then true else rest

-- The loop over the edges out of v: `L` and `Lbd`.
unfoldable pub count_edges : AdjList → ℕ → List Edge → ℕ × ℕ → ℕ × ℕ
unfolding leads_back size_add
count_edges g v [] counts = counts
count_edges g v (e ∷ es) (l, lbd) =
    count_edges g v es
      (size_add l 1, if leads_back v (adjacent_vertices e.target g) then size_add lbd 1 else lbd)

-- The loop over m vertices from v on.
unfoldable pub count_vertices : AdjList → ℕ → ℕ → ℕ × ℕ → ℕ × ℕ
unfolding count_edges
count_vertices g zero v counts = counts
count_vertices g (suc m) v counts =
    count_vertices g m (suc v)
      (if v == null_vertex then counts else count_edges g v (out_edges v g) counts)

unfoldable pub count_reciprocal : AdjList → ℕ × ℕ
unfolding count_vertices int_rounds num_vertices
count_reciprocal g = count_vertices g (int_rounds (num_vertices g)) 0 (0, 0)

unfoldable pub get_reciprocity {ℓ} : {D : Type ℓ} → (ℕ → ℕ → D) → AdjList → D
unfolding count_reciprocal
get_reciprocity quotient g = let (l, lbd) = count_reciprocal g in quotient lbd l
