-- ===== src/Matching/Correct.antt =====
-- src/graph/topology/graph_random_matching.cc: the loop over the vertices and its invariant.
use graph_tool.AdjList.{AdjList, Edge, num_vertices, out_edges}
use graph_tool.AdjList.OutEdges.{AllOf, From, get_or-AllOf, out_edges-From}
use graph_tool.AdjList.Valid.{IsValid}
use graph_tool.Common.{Bool, List, [], arith, false, length, ℕ, ◌∷◌, ◌≡◌}
use graph_tool.Matching.{
  Matching, choose, match_vertex, match_vertices, permutation, random_matching, search, vertices,
}
use graph_tool.Matching.Search.{if_rule, search-AllOf}
use graph_tool.Matching.Step.{Inv, IsMatching, with_edge-Inv}

module _ {W : Type 0} (lt : W → W → Bool) (eq : W → W → Bool) (bound : W) (minimize : Bool)
    (weight : ℕ → W) (pick : ℕ → ℕ → ℕ) {g : AdjList} (valid : IsValid g) where
  abbrev one_round : ℕ → Matching → Matching
  one_round v m = match_vertex lt eq bound minimize weight pick g v m

  abbrev rounds : List ℕ → Matching → Matching
  rounds vs m = match_vertices lt eq bound minimize weight pick g vs m

  -- A candidate for v.
  abbrev Candidate : (ℕ → Bool) → ℕ → Edge → Type 0
  Candidate matched v e = From g v e × (matched e.target ≡ false)

  choose-Inv :
      (v : ℕ) (cs : List Edge) (m : Matching)
      → Inv g m
      → m.matched v ≡ false
      → AllOf (Candidate m.matched v) cs
      → Inv g (choose lt eq bound minimize weight pick v cs m)
  unfolding choose
  choose-Inv v [] m inv free all = inv
  choose-Inv v (c ∷ cs) m inv free all =
      let ((from, in_c), free_t) =
        get_or-AllOf (Candidate m.matched v) (c ∷ cs) (pick v (length cs)) c all all.0 in
      with_edge-Inv valid inv _ v in_c from free free_t

  candidates_of : (v : ℕ) (m : Matching) → List Edge
  candidates_of v m = (search lt eq bound minimize weight m.matched (out_edges v g) (bound, [])).1

  match_vertex-Inv : (v : ℕ) (m : Matching) → Inv g m → Inv g (one_round v m)
  unfolding match_vertex
  match_vertex-Inv v m inv =
      if_rule (Inv g) (m.matched v) _ _ (λ _. inv)
        (λ free. choose-Inv v _ m inv free (
          search-AllOf lt eq bound minimize weight (From g v) m.matched (out_edges v g) (bound, [])
            tt (out_edges-From g v)))

  pub match_vertices-Inv : (vs : List ℕ) (m : Matching) → Inv g m → Inv g (rounds vs m)
  unfolding match_vertices
  match_vertices-Inv [] m inv = inv
  match_vertices-Inv (v ∷ vs) m inv =
      match_vertices-Inv vs (one_round v m) (match_vertex-Inv v m inv)

  pub start-Inv :
      (match_map : ℕ → Bool)
      → ((i : ℕ) → match_map i ≡ false)
      → Inv g (record { matched = λ _. false; match_map = match_map })
  start-Inv match_map unset = record {
    ends = λ e v in_e h at_e. absurd (ground (arith, unset e.idx, h));
    apart = λ e f v in_e in_f h k at_e at_f. absurd (ground (arith, unset e.idx, h));
    witnessed = λ v h. absurd (ground (arith, h));
  }

  -- In a well-formed graph where no edge is marked before, `random_matching` marks edges of which
  -- no two end at the same vertex, in whatever order the vertices come and whichever candidates are
  -- picked.
  pub random_matching-IsMatching :
      (draw : ℕ → ℕ) (match_map : ℕ → Bool)
      → ((i : ℕ) → match_map i ≡ false)
      → IsMatching g (random_matching lt eq bound minimize weight draw pick g match_map)
  unfolding random_matching
  random_matching-IsMatching draw match_map unset =
      (match_vertices-Inv (permutation draw (num_vertices g) (vertices 0 (num_vertices g))) _
        (start-Inv match_map unset)).apart
